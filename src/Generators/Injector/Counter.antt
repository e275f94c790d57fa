-- ===== src/Generators/Injector/Counter.antt =====
-- redis/redis_injector.c: `total_injected`, which the threads count up under a mutex, in any
-- interleaving. That `redisGetReply` leaves a reply unset does not occur here.
use double_swap.Base.{
  ℕ, zero, suc, ◌+◌, ◌-◌, ◌*◌, ◌/◌, ◌%◌, ◌≡◌, List, [], ◌∷◌, ◌++◌, ◌==◌, if◌then◌else◌,
}
use double_swap.Generators.Injector.{max_threads, progress_interval}
use double_swap.Generators.Ranges.{thread_range}

pub record Shared : Type 0 where
  pub total_injected : ℕ
  pub progress : List ℕ  -- the numbers printed, oldest first

abbrev pub nothing_injected : Shared
nothing_injected = record { total_injected = 0; progress = [] }

-- The critical section of one reply.
unfoldable pub count_reply : Shared → Shared
count_reply s =
    let total = s.total_injected + 1 in
    record {
      total_injected = total;
      progress = if total % progress_interval == 0 then s.progress ++ total ∷ [] else s.progress;
    }

-- A thread with the replies that it has still to take, or would have had to when it left.
pub data Thread : Type 0 where
  waits : ℕ → Thread
  gone : ℕ → Thread

abbrev pub replies_missing : Thread → ℕ
replies_missing (waits r) = r
replies_missing (gone r) = r

-- The threads in their order, and what they share.
pub record Pool : Type 0 where
  pub threads : List Thread
  pub shared : Shared

-- One reply taken by one of the threads.
pub data Takes : List Thread → List Thread → Type 0 where
  here : (r : ℕ) (ts : List Thread) → Takes (waits (suc r) ∷ ts) (waits r ∷ ts)
  there : (t : Thread) {ts ts' : List Thread} → Takes ts ts' → Takes (t ∷ ts) (t ∷ ts')

-- `pthread_exit` of a thread whose connection fails, or of which a reply is NULL.
pub data Leaves : List Thread → List Thread → Type 0 where
  leaves : (r : ℕ) (ts : List Thread) → Leaves (waits (suc r) ∷ ts) (gone (suc r) ∷ ts)
  behind : (t : Thread) {ts ts' : List Thread} → Leaves ts ts' → Leaves (t ∷ ts) (t ∷ ts')

-- Some thread has left with replies missing.
pub data HasLeft : List Thread → Type 0 where
  this : (r : ℕ) (ts : List Thread) → HasLeft (gone (suc r) ∷ ts)
  other : (t : Thread) {ts : List Thread} → HasLeft ts → HasLeft (t ∷ ts)

-- Steps in which `k` replies are taken, and threads leave.
pub data Steps : ℕ → Pool → Pool → Type 0 where
  done : (p : Pool) → Steps zero p p
  more :
      (k : ℕ) {p q : Pool} {ts : List Thread}
      → Steps k p q
      → Takes q.threads ts
      → Steps (suc k) p (record { threads = ts; shared = count_reply q.shared })
  exit :
      {k : ℕ} {p q : Pool} {ts : List Thread}
      → Steps k p q
      → Leaves q.threads ts
      → Steps k p (record { threads = ts; shared = q.shared })

unfoldable pub sum : List Thread → ℕ
sum [] = 0
sum (t ∷ ts) = replies_missing t + sum ts

-- The numbers to print for `k` intervals.
unfoldable pub marks : ℕ → List ℕ
marks zero = []
marks (suc k) = marks k ++ progress_interval * suc k ∷ []

-- What is counted stays in step with the counter.
record IsCounted (n : ℕ) (p : Pool) : Type 0 where
  pub conserved : sum p.threads + p.shared.total_injected ≡ n
  pub printed : p.shared.progress ≡ marks (p.shared.total_injected / progress_interval)

-- What the threads of `injectKeys` wait for at the start, for `n` keys.
unfoldable pub shares : ℕ → ℕ → List Thread
unfolding thread_range
shares n zero = []
shares n (suc k) =
    waits ((thread_range max_threads n k).1 - (thread_range max_threads n k).0) ∷ shares n k
