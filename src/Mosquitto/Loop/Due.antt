-- ===== src/Mosquitto/Loop/Due.antt =====
-- When an autosave is due.
use double_swap.Base.{◌+◌, ◌<◌, ◌≤◌, ◌≡◌, ◌⊎◌, Bool, true, false, if◌then◌else◌, ltb, leb}
use double_swap.Mosquitto.Chunks.{Writer}
use double_swap.Mosquitto.Backup.{Config, System, backup}
use double_swap.Mosquitto.Loop.{Loop}

-- The autosave that is due by the changes, or by the time since the last one.
abbrev pub is_due : {w : Writer} → Config → Loop w → Bool
is_due config s =
    if config.autosave_on_changes
    then leb config.autosave_interval s.broker.persistence_changes
    else ltb (s.last_backup + config.autosave_interval) s.broker.now_s

-- Of an autosave from `s` to `t`: the files are those of a backup of the broker if it was due, and
-- the old ones if not; nothing is due any more, and two saves are far apart.
pub record IsTimely (w : Writer) (sys : System w) (config : Config) (s t : Loop w) : Type 0 where
  pub backed_up : is_due config s ≡ true → t.disk ≡ (backup w sys false s.broker s.disk).disk
  pub left_alone : is_due config s ≡ false → t ≡ s
  pub few :
      config.autosave_on_changes ≡ true → t.broker.persistence_changes < config.autosave_interval
  pub recent :
      config.autosave_on_changes ≡ false → t.broker.now_s ≤ t.last_backup + config.autosave_interval
  pub apart :
      (t.last_backup ≡ s.last_backup) ⊎ (s.last_backup + config.autosave_interval < t.last_backup)
