-- ===== src/Generators/Publisher.antt =====
-- mosquitto/mosquitto_injector.c: `publisher`, and the time that `main` prints. The client library
-- is a parameter: whether it connects, and which messages it publishes.
use double_swap.Base.{
  ℕ, zero, suc, ◌+◌, ◌-◌, ◌*◌, ◌<◌, ◌≤◌, ◌≡◌, refl, ap, Bool, true, List, [], ◌∷◌, ◌++◌, map,
  map-append, append_assoc, leb, ◌∙◌, Bool-cases, inl, inr, if◌then◌else◌, arith,
}
use double_swap.Base.Int.{ℤ, pos, ◌-ℤ◌, ◌+ℤ◌, leb_ℤ}
use double_swap.Generators.Ranges.{
  thread_range, interval, thread_indices, all_indices, all_indices_lem,
}

abbrev pub num_publishers : ℕ
num_publishers = 3

-- What is printed of a message, by its index.
pub data Report : Type 0 where
  published failed : ℕ → Report

-- `for (int i = start_index; i < end_index; i++)`, with so many rounds left. A failure is only
-- reported.
unfoldable pub publish_loop : (ℕ → Bool) → ℕ → ℕ → List Report
publish_loop accepts i zero = []
publish_loop accepts i (suc rounds) =
    (if accepts i then published (i + 1) else failed (i + 1)) ∷ publish_loop accepts (i + 1) rounds

-- `publisher`, of NUM_MESSAGES messages: without a connection nothing is published.
unfoldable pub publisher : ℕ → Bool → (ℕ → Bool) → ℕ → List Report
publisher num_messages connects accepts id =
    let (start, end) = thread_range num_publishers num_messages id in
    if connects then publish_loop accepts start (end - start) else []

-- `struct timespec`
pub record Time : Type 0 where
  pub tv_sec : ℤ
  pub tv_nsec : ℤ

-- The duration that `main` prints, in seconds and nanoseconds.
unfoldable pub duration : Time → Time → ℤ × ℤ
duration start end =
    let seconds = end.tv_sec -ℤ start.tv_sec in
    let nanoseconds = end.tv_nsec -ℤ start.tv_nsec in
    if leb_ℤ (pos 0) nanoseconds
    then (seconds, nanoseconds)
    else (seconds -ℤ pos 1, nanoseconds +ℤ pos 1000000000)

-- The report of one message.
unfoldable pub report : (ℕ → Bool) → ℕ → Report
report accepts i = if accepts i then published (i + 1) else failed (i + 1)

publish_loop-interval :
    (accepts : ℕ → Bool) (i k : ℕ) → publish_loop accepts i k ≡ map (report accepts) (interval i k)
unfolding publish_loop interval report
publish_loop-interval accepts i zero = refl
publish_loop-interval accepts i (suc k) =
    ap (λ l. report accepts i ∷ l) (publish_loop-interval accepts (i + 1) k)

publisher-interval :
    (n : ℕ) (accepts : ℕ → Bool) (id : ℕ)
    → publisher n true accepts id ≡ map (report accepts) (thread_indices num_publishers n id)
unfolding publisher
publisher-interval n accepts id = publish_loop-interval accepts _ _

map_three :
    (f : ℕ → Report) (a b c : List ℕ)
    → map f a ++ (map f b ++ map f c) ≡ map f ((([] ++ a) ++ b) ++ c)
map_three f a b c = simp (map-append, append_assoc)

-- The three publishers, connected, report on each of the messages once, and together in their
-- order, whichever of them fail.
pub publishers_cover :
    (n : ℕ) (accepts : ℕ → Bool)
    → publisher n true accepts 0 ++ (publisher n true accepts 1 ++ publisher n true accepts 2)
      ≡ map (report accepts) (interval 0 n)
unfolding all_indices
publishers_cover n accepts =
    rw
      (
        publisher-interval n accepts 0,
        publisher-interval n accepts 1,
        publisher-interval n accepts 2,
      )
      (map_three (report accepts) (thread_indices num_publishers n 0)
          (thread_indices num_publishers n 1) (thread_indices num_publishers n 2)
        ∙ ap (map (report accepts)) (all_indices_lem num_publishers n (omega arith)))

-- For two clock readings with nanoseconds below 10 ^ 9, the second not before the first: the
-- duration has nanoseconds below 10 ^ 9, and with the first reading it makes up the second.
pub duration_lem :
    (s n s' n' : ℕ)
    → n < 1000000000
    → n' < 1000000000
    → s * 1000000000 + n ≤ s' * 1000000000 + n'
    → (d m : ℕ) × (duration
          (record { tv_sec = pos s; tv_nsec = pos n })
          (record { tv_sec = pos s'; tv_nsec = pos n' })
        ≡ (pos d, pos m))
      × (m < 1000000000)
      × (s * 1000000000 + n + (d * 1000000000 + m) ≡ s' * 1000000000 + n')
unfolding duration
duration_lem s n s' n' small small' later = elim (Bool-cases (leb n n')) [
  | inl up ↦ (s' - s, n' - n, ground arith, ground arith, ground arith)
  | inr down ↦ (s' - s - 1, n' + 1000000000 - n, ground arith, ground arith, ground arith)
]
