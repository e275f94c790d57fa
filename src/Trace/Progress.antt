-- ===== src/Trace/Progress.antt =====
-- redis/rdb.c: the counters by which `rdbSaveDb` reports each tenth of the keys, at the end of a
-- round of its loop. `unsigned long long` wraps at 2 ^ 64; a report is the line that goes to
-- dump_percentage.txt if that file opens.
pub mod Tenths
use double_swap.Base.{
  ℕ, zero, suc, ◌+◌, ◌-◌, ◌*◌, ◌/◌, ◌%◌, ◌^◌, List, [], ◌∷◌, ◌++◌, leb, if◌then◌else◌,
}

pub record Progress : Type 0 where
  pub keys_processed : ℕ
  pub keys_to_process : ℕ
  pub current_percentage : ℕ
  pub reports : List (ℕ × ℕ)  -- elapsed seconds and percentage, oldest first

unfoldable pub start_progress : ℕ → Progress
start_progress db_size = record {
  keys_processed = 0;
  keys_to_process = db_size / 10;
  current_percentage = 10;
  reports = [];
}

-- One key more, at `now` seconds after the start.
unfoldable pub count_key : ℕ → ℕ → Progress → Progress
count_key db_size now p =
    let processed = (p.keys_processed + 1) % 2 ^ 64 in
    let percentage = p.current_percentage + 10 in
    if leb p.keys_to_process processed
    then record {
      keys_processed = processed;
      keys_to_process = db_size * percentage % 2 ^ 64 / 100;
      current_percentage = percentage;
      reports = p.reports ++ (now, p.current_percentage) ∷ [];
    }
    else record p { keys_processed = processed }

-- The state after `k` keys, the i-th of them finished at `clock i`.
unfoldable pub after_keys : ℕ → (ℕ → ℕ) → ℕ → Progress
unfolding start_progress count_key
after_keys db_size clock zero = start_progress db_size
after_keys db_size clock (suc k) = count_key db_size (clock (suc k)) (after_keys db_size clock k)
