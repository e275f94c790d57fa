-- ===== src/Mosquitto/Loop/Runs.antt =====
-- Runs of the main loop, and its theorems at concrete input.
use double_swap.Base.{◌≡◌, refl, true, false, none, some, List, [], ◌∷◌}
use double_swap.Mosquitto.Samples.{room_for, broker, answers, empty_disk}
use double_swap.Mosquitto.Backup.{Config}
use double_swap.Mosquitto.Loop.{Loop, Answers, round, Run, begin, serve, save}
use double_swap.Mosquitto.Loop.Database.{IsFlushedRun, IsWhole, Run-IsWhole}
use double_swap.Mosquitto.Loop.Expiry.{
  Property, expiry_loop, read_message_expiry_interval, IsTaken, read_message_expiry_interval_lem,
}

-- A broker that has just started, on a disk with room for nine chunks.
abbrev started : Loop (room_for 9)
started = record { broker = broker; disk = empty_disk 9; last_backup = 500; flag_db_backup = false }

abbrev all_well : Answers (room_for 9)
all_well = record {
  to_key = answers 9 true;
  to_autosave = answers 9 true;
  to_flag = answers 9 false;
}

-- 'K' is typed in the first round; then a signal comes, and the second round ends with a `rename`
-- that fails.
abbrev after_key : Loop (room_for 9)
after_key = round (room_for 9) all_well (some 75) started

abbrev signalled : Loop (room_for 9)
signalled = record after_key { broker = broker; flag_db_backup = true }

abbrev two_rounds :
    Run (room_for 9) started (broker ∷ broker ∷ []) (round (room_for 9) all_well none signalled)
two_rounds =
    save {q = signalled} all_well none
      (serve {q = after_key} broker true (save {q = started} all_well (some 75) (begin started)))

two_rounds_flushed : IsFlushedRun (room_for 9) two_rounds
unfolding IsFlushedRun
two_rounds_flushed = ((refl, refl, refl), ((refl, refl, refl), tt))

Run-IsWhole_example :
    IsWhole
      (room_for 9)
      none
      (broker ∷ broker ∷ [])
      (round (room_for 9) all_well none signalled).disk.database
Run-IsWhole_example =
    Run-IsWhole (room_for 9) started (round (room_for 9) all_well none signalled)
      (broker ∷ broker ∷ []) two_rounds two_rounds_flushed

abbrev hourly : Config
hourly = record {
  persistence = true;
  persistence_filepath = some (100 ∷ []);
  autosave_interval = 1800;
  autosave_on_changes = false;
}

-- The last save was 2000 seconds ago.
abbrev overdue : Loop (room_for 9)
overdue = record started { broker = record broker { now_s = 2500 } }

abbrev three_properties : List Property
three_properties =
    record { identifier = 3; i32 = 9 }
    ∷ record { identifier = 2; i32 = 60 }
    ∷ record { identifier = 2; i32 = 70 }
    ∷ []

first_interval : (read_message_expiry_interval three_properties).0 ≡ 60
unfolding read_message_expiry_interval expiry_loop
first_interval = refl

read_message_expiry_interval_lem_example :
    IsTaken three_properties (read_message_expiry_interval three_properties)
read_message_expiry_interval_lem_example = read_message_expiry_interval_lem three_properties
