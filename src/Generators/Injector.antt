-- ===== src/Generators/Injector.antt =====
-- redis/redis_injector.c: `injectKeys`. A thread appends the SET commands of a batch, each under a
-- random key of its own, and then takes their replies.
pub mod Loop
pub mod Counter
use double_swap.Base.{
  ℕ, zero, suc, ◌+◌, ◌-◌, ◌%◌, ◌^◌, ◌<◌, Bool, true, false, Option, none, some, List, [], ◌∷◌, ◌++◌,
  ltb, ◌==◌, if◌then◌else◌,
}
use double_swap.Generators.Ranges.{thread_range}

abbrev pub max_threads : ℕ
max_threads = 10

abbrev pub batch_size : ℕ
batch_size = 100

abbrev pub progress_interval : ℕ
progress_interval = 200000

-- A thread's connection: the indices of the keys it has appended, and the replies it has had.
pub record Client : Type 0 where
  pub appended : List ℕ
  pub replies : ℕ

-- `for (j = 0; j < BATCH_SIZE && (i + j) < end; j++)` over the appends, from some `j` on with so
-- many rounds left.
unfoldable pub append_batch : ℕ → ℕ → ℕ → ℕ → List ℕ
append_batch zero i j end = []
append_batch (suc rounds) i j end =
    let rest = append_batch rounds i (j + 1) end in if ltb (i + j) end then (i + j) ∷ rest else []

-- What `redisGetReply` does: it sets `reply` to a reply or to NULL, or it fails and does not set it.
pub data Answer : Type 0 where
  reply null_reply unset : Answer

-- How a thread goes on: through the loop, out by `pthread_exit`, or in a way that C leaves open, as
-- it reads a `reply` that is not set or an `int` overflows.
pub data Exit : Type 0 where
  through stopped undefined : Exit

abbrev pub is_through : Exit → Bool
is_through through = true
is_through _ = false

-- The same loop over the replies: how many there are, and how it ends.
unfoldable pub reply_batch : ℕ → (ℕ → Answer) → ℕ → ℕ → ℕ → ℕ → ℕ × Exit
reply_batch zero answers i j end replies = (replies, through)
reply_batch (suc rounds) answers i j end replies =
    let rest = reply_batch rounds answers i (j + 1) end (replies + 1) in
    if ltb (i + j) end
    then elim (answers replies) [
      | reply ↦ rest
      | null_reply ↦ (replies, stopped)
      | unset ↦ (replies, undefined)
    ]
    else (replies, through)

-- A batch from `i` on: the client behind it, and how it ends.
unfoldable pub inject_batch : (ℕ → Answer) → ℕ → ℕ → Client → Client × Exit
inject_batch answers i end c =
    let replied = reply_batch batch_size answers i 0 end c.replies in
    (
      record { appended = c.appended ++ append_batch batch_size i 0 end; replies = replied.0 },
      replied.1,
    )

-- `for (int i = start; i < end; i += BATCH_SIZE)`: the client, and how the loop ends. No result is a
-- lack of fuel.
unfoldable pub inject_loop : ℕ → (ℕ → Answer) → ℕ → ℕ → Client → Option (Client × Exit)
inject_loop zero answers i end c = none
inject_loop (suc fuel) answers i end c =
    let next = inject_batch answers i end c in
    let rest = inject_loop fuel answers (i + batch_size) end next.0 in
    if ltb i end
    then (if is_through next.1
        then (if ltb (i + batch_size) (2 ^ 31) then rest else some (next.0, undefined))
        else some next)
    else some (c, through)

abbrev pub new_client : Client
new_client = record { appended = []; replies = 0 }

-- `injectKeys` with a connection, of thread `id` for `n` keys in all.
unfoldable pub inject_keys : (ℕ → Answer) → ℕ → ℕ → Option (Client × Exit)
unfolding thread_range
inject_keys answers n id =
    let (start, end) = thread_range max_threads n id in
    inject_loop (end - start + 1) answers start end new_client
