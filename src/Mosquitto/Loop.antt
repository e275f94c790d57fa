-- ===== src/Mosquitto/Loop.antt =====
-- mosquitto files/loop.c: the saves of `mosquitto_main_loop`. `db.config` is set before the loop, and
-- its interval and the clocks are not negative.
pub mod Database
pub mod Due
pub mod Expiry
pub mod Disconnect
mod Runs
use double_swap.Base.{
  ℕ, ◌+◌, ◌≡◌, Bool, true, false, ◌&&◌, ◌||◌, Option, none, some, List, [], ◌∷◌, ltb, leb, ◌==◌,
  if◌then◌else◌,
}
use double_swap.Mosquitto.Chunks.{Writer}
use double_swap.Mosquitto.Backup.{Config, Broker, System, Disk, Backup, backup}

module _ (w : Writer) where
  -- The broker with its files, the time of the last autosave and the flag that a signal sets.
  pub record Loop : Type 0 where
    pub broker : Broker
    pub disk : Disk w
    pub last_backup : ℕ
    pub flag_db_backup : Bool

  -- The answers of the system to the three backups of one round.
  pub record Answers : Type 0 where
    pub to_key : System w
    pub to_autosave : System w
    pub to_flag : System w

  -- `persist__backup(false)`
  unfoldable pub save_now : System w → Loop → Loop
  save_now sys s = record s { disk = (backup w sys false s.broker s.disk).disk }

  -- The character that was typed, if `select` tells of one: 'K' or 'k' asks for a backup.
  unfoldable pub key_backup : System w → Option ℕ → Loop → Loop
  unfolding save_now
  key_backup sys none s = s
  key_backup sys (some input) s = if input == 75 || input == 107 then save_now sys s else s

  unfoldable pub autosave_with : System w → Config → Loop → Loop
  unfolding save_now
  autosave_with sys config s =
      let b = s.broker in
      if config.persistence && ltb 0 config.autosave_interval
      then if config.autosave_on_changes
        then if leb config.autosave_interval b.persistence_changes
          then record (save_now sys s) { broker = record b { persistence_changes = 0 } }
          else s
        else if ltb (s.last_backup + config.autosave_interval) b.now_s
        then record (save_now sys s) { last_backup = b.now_s }
        else s
      else s

  unfoldable pub autosave : System w → Loop → Loop
  unfolding autosave_with
  autosave sys s = elim s.broker.config [ none ↦ s | some config ↦ autosave_with sys config s ]

  unfoldable pub flag_backup : System w → Loop → Loop
  unfolding save_now
  flag_backup sys s =
      if s.flag_db_backup then record (save_now sys s) { flag_db_backup = false } else s

  -- The saves of one round, in their order.
  unfoldable pub round : Answers → Option ℕ → Loop → Loop
  unfolding key_backup autosave flag_backup
  round answers input s =
      flag_backup answers.to_flag (autosave answers.to_autosave (key_backup answers.to_key input s))

  -- What may happen from `p` to `q`: the other handlers change the broker as they like, and a
  -- signal the flag; a round saves. `bs` are the brokers at the rounds, the latest first.
  pub data Run : Loop → List Broker → Loop → Type 0 where
    begin : (p : Loop) → Run p [] p
    serve :
        {p q : Loop} {bs : List Broker} (b : Broker) (flag : Bool)
        → Run p bs q
        → Run p bs (record q { broker = b; flag_db_backup = flag })
    save :
        {p q : Loop} {bs : List Broker} (answers : Answers) (input : Option ℕ)
        → Run p bs q
        → Run p (q.broker ∷ bs) (round answers input q)
