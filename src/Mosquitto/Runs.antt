-- ===== src/Mosquitto/Runs.antt =====
-- Runs of the broker's saves, and their theorems at concrete input.
use double_swap.Base.{All, none, some, List, ◌+◌, ◌≡◌, refl, true, false, [], ◌∷◌, arith}
use double_swap.Base.Int.{pos}
use double_swap.Trace.Progress.{after_keys}
use double_swap.Trace.Progress.Tenths.{percentages, tens}
use double_swap.Mosquitto.Chunks.{Chunk, sub, is_sys, len16}
use double_swap.Mosquitto.Writes.{Writes}
use double_swap.Mosquitto.Store.{start_counters, persistent_topic, message_store_save}
use double_swap.Mosquitto.Store.Shares.{
  after_messages, IsAlike, after-IsAlike, few_messages_reported,
}
use double_swap.Mosquitto.Store.Saved.{persistent, Outcome, message_store_save_lem}
use double_swap.Mosquitto.Clients.{is_unsaved, is_persistent, session_end, client_save}
use double_swap.Mosquitto.Clients.Rows.{
  saved_messages, saved_contexts, IsQuiet, client_rows, client_save-Writes,
}
use double_swap.Mosquitto.Subs.{sub_chunk, durable_id, subs_save_all}
use double_swap.Mosquitto.Subs.Topics.{full_topic, joined}
use double_swap.Mosquitto.Subs.Rows.{
  IsMeasured, AreRoots, placed, subscriptions, sub_rows, subs_save_all_lem,
}
use double_swap.Mosquitto.Backup.{Disk, backup}
use double_swap.Mosquitto.Backup.Content.{IsReplaced, backup-IsReplaced}
use double_swap.Mosquitto.Backup.Complete.{IsSmooth, HoldsAll, backup-HoldsAll}
use double_swap.Mosquitto.Backup.Results.{with_others, backup-rc}
use double_swap.Mosquitto.Samples.{
  willing, room_for, endless, message, two_messages, subscriber, durable, a_b, broker, answers,
  empty_disk,
}

sys_is_passed_over : persistent two_messages ≡ (message 1 (97 ∷ []), 97 ∷ []) ∷ []
unfolding persistent persistent_topic is_sys
sys_is_passed_over = refl

after-IsAlike_example :
    IsAlike (after_messages (pos (53 + 20)) (λ i. i) 6) (after_keys 20 (λ i. i) 6)
after-IsAlike_example = after-IsAlike 20 (λ i. i) 6 (omega arith) (omega arith)

few_messages_reported_example : percentages (after_messages (pos 52) (λ i. i) 30).reports ≡ tens 30
few_messages_reported_example = few_messages_reported 52 (λ i. i) 30 (omega arith) (omega arith)

message_store_save_lem_example :
    Outcome
      (room_for 4)
      4096
      (pos 54)
      (λ i. i)
      0
      (persistent two_messages)
      (record { file = []; page_log = []; counters = start_counters (pos 54) })
      (message_store_save (room_for 4) 4096 (pos 54) (λ i. i) two_messages [] [])
message_store_save_lem_example =
    message_store_save_lem (room_for 4) 4096 (pos 54) (λ i. i) two_messages [] []

session_ends : session_end 1000 subscriber ≡ 1060
unfolding session_end
session_ends = refl

subscriber-IsQuiet : IsQuiet subscriber
unfolding saved_messages is_unsaved is_sys
subscriber-IsQuiet = record {
  in_inflight = refl;
  in_queued = refl;
  out_inflight = refl;
  out_queued = refl;
}

subscribers-IsQuiet : All IsQuiet (saved_contexts (subscriber ∷ []))
unfolding saved_contexts is_persistent len16
subscribers-IsQuiet = (subscriber-IsQuiet, tt)

-- Its row; the client message is one that is not saved.
client_save-Writes_example :
    Writes
      (room_for 1)
      (client_rows 1000 (saved_contexts (subscriber ∷ [])))
      []
      (client_save (room_for 1) (answers 1 true).misread 1000 (subscriber ∷ []) [])
client_save-Writes_example =
    client_save-Writes (room_for 1) (answers 1 true).misread 1000 (subscriber ∷ []) []
      subscribers-IsQuiet

a_b-AreRoots : AreRoots (a_b ∷ [])
unfolding AreRoots IsMeasured
a_b-AreRoots = (((refl, ((refl, ((refl, tt), tt)), tt)), tt), tt)

subs_save_all_lem_example :
    (subs_save_all endless (λ n. true) (a_b ∷ []) [] []).1
    ≡ sub (sub_chunk (97 ∷ 47 ∷ 98 ∷ []) (99 ∷ []) durable) ∷ []
unfolding AreRoots subscriptions placed sub_rows durable_id full_topic joined
subs_save_all_lem_example =
    subs_save_all_lem endless (λ n. true) (a_b ∷ []) [] [] (λ c g. refl) (λ n. refl) a_b-AreRoots tt

backup-IsReplaced_example :
    IsReplaced
      (room_for 2)
      (answers 2 true)
      false
      broker
      (empty_disk 2)
      (backup (room_for 2) (answers 2 true) false broker (empty_disk 2))
backup-IsReplaced_example =
    backup-IsReplaced (room_for 2) (answers 2 true) false broker (empty_disk 2) refl

-- The client does not fit behind the configuration and the message, and the result is the same.
backup-rc_example :
    (backup (room_for 2) (answers 2 true) false broker (empty_disk 2)).rc
    ≡ (backup
        (room_for 2)
        (answers 2 true)
        false
        (with_others [] [] [] [] broker)
        (empty_disk 2)).rc
backup-rc_example =
    backup-rc (room_for 2) (answers 2 true) false (subscriber ∷ []) (a_b ∷ []) [] []
      (with_others [] [] [] [] broker) (empty_disk 2)

broker-IsSmooth : IsSmooth endless willing broker
broker-IsSmooth = record {
  config = record {
    persistence = true;
    persistence_filepath = some (100 ∷ []);
    autosave_interval = 1800;
    autosave_on_changes = false;
  };
  path = 100 ∷ [];
  file = [];
  configured = refl;
  persists = refl;
  named = refl;
  clears = λ h. cc h;
  opens = refl;
  flushed = refl;
  quiet = subscribers-IsQuiet;
  headed = λ f. refl;
  renames = refl;
  outfile_memory = refl;
  topic_memory = λ n. refl;
  writes = λ c f. refl;
}

-- An older database is replaced.
abbrev old_disk : Disk endless
old_disk = record { database = some []; outfile = none; page_log = []; reports = [] }

backup-HoldsAll_example :
    let r = backup endless willing true broker old_disk in
    (r.rc ≡ 0)
    × (r.disk.outfile ≡ none)
    × (file : List Chunk) × (r.disk.database ≡ some file)
    × HoldsAll endless willing broker true file
unfolding AreRoots
backup-HoldsAll_example =
    backup-HoldsAll endless willing broker true old_disk broker-IsSmooth a_b-AreRoots tt
