-- ===== src/Generators/Runs.antt =====
-- Runs of the load generators, and their theorems at concrete input.
use double_swap.Base.{ℕ, ◌*◌, ◌≡◌, refl, true, some, List, [], ◌∷◌, ◌++◌, map, ltb, arith}
use double_swap.Generators.Ranges.{thread_range, interval, all_indices, all_indices_lem}
use double_swap.Generators.Injector.{max_threads, reply, through, inject_keys}
use double_swap.Generators.Injector.Loop.{inject_keys_full}
use double_swap.Generators.Injector.Counter.{
  Thread, waits, Pool, count_reply, nothing_injected, shares,
}
use double_swap.Generators.Publisher.{publisher, publish_loop, report, failed, publishers_cover}
use double_swap.Generators.Touch.{fill_memory_threaded}
use double_swap.Generators.Touch.Cover.{AllBelow, IsNear, fill_memory_threaded_lem}

last_takes_the_rest : thread_range 10 25 9 ≡ (18, 25)
unfolding thread_range
last_takes_the_rest = refl

one_fails : publisher 4 true (λ i. ltb i 2) 2 ≡ failed 3 ∷ failed 4 ∷ []
unfolding publisher publish_loop thread_range
one_fails = refl

all_indices_lem_example : all_indices 3 7 3 ≡ interval 0 7
all_indices_lem_example = all_indices_lem 3 7 (omega arith)

inject_keys_full_example :
    inject_keys (λ k. reply) 25 9 ≡ some (record { appended = interval 18 7; replies = 7 }, through)
unfolding thread_range
inject_keys_full_example = inject_keys_full (λ k. reply) 25 9 (λ k h. refl) (omega arith)

-- Ten keys, one for each thread; the last thread is the first to have its reply.
abbrev ten_keys : Pool
ten_keys = record { threads = shares 10 max_threads; shared = nothing_injected }

abbrev nine_waiting : List Thread
nine_waiting =
    waits 1 ∷ waits 1 ∷ waits 1 ∷ waits 1 ∷ waits 1 ∷ waits 1 ∷ waits 1 ∷ waits 1 ∷ waits 1 ∷ []

abbrev nine_left : Pool
nine_left = record { threads = waits 0 ∷ nine_waiting; shared = count_reply nothing_injected }

publishers_cover_example :
    publisher 4 true (λ i. ltb i 2) 0
      ++ (publisher 4 true (λ i. ltb i 2) 1 ++ publisher 4 true (λ i. ltb i 2) 2)
    ≡ map (report (λ i. ltb i 2)) (interval 0 4)
publishers_cover_example = publishers_cover 4 (λ i. ltb i 2)

fill_memory_threaded_lem_example :
    (offsets : List ℕ) × (fill_memory_threaded (λ size. true) 4096 1 ≡ some offsets)
    × AllBelow (1 * 1073741824) offsets
    × IsNear 4096 700000000 offsets
fill_memory_threaded_lem_example =
    fill_memory_threaded_lem (λ size. true) 4096 1 700000000 (omega arith) (omega arith)
      (omega arith) refl (omega arith)
