-- ===== src/Generators/Injector/Loop.antt =====
-- What a thread has appended when it ends with all its replies.
use Prim.Native.Nat.{min}
use double_swap.Base.{
  ℕ, zero, suc, ◌+◌, ◌-◌, ◌^◌, ◌<◌, ◌≤◌, ◌≡◌, refl, ap, ◌∙◌, inl, inr, sym, true, false, Bool-cases,
  some, List, ◌∷◌, ◌++◌, append_assoc, append-nil, ltb, arith,
}
use native.Mathlib.Decide.{dec_lt}
use double_swap.Generators.Ranges.{thread_range, interval, interval-append}
use double_swap.Generators.Injector.{
  batch_size, max_threads, Client, Answer, reply, through, append_batch, reply_batch, inject_batch,
  inject_loop, new_client, inject_keys,
}

append_batch-interval :
    (rounds i j end : ℕ)
    → append_batch rounds i j end ≡ interval (i + j) (min rounds (end - (i + j)))
unfolding append_batch interval
append_batch-interval zero i j end = let e : min 0 (end - (i + j)) ≡ 0 = omega arith in rw e
append_batch-interval (suc rounds) i j end = elim (Bool-cases (ltb (i + j) end)) [
  | inl more ↦
      let size : min (suc rounds) (end - (i + j)) ≡ suc (min rounds (end - (i + (j + 1)))) =
        ground arith in
      let next : i + (j + 1) ≡ i + j + 1 = omega arith in
      rw (more, size) (ap (λ l. (i + j) ∷ l) (append_batch-interval rounds i (j + 1) end ∙ rw next))
  | inr over ↦ let size : min (suc rounds) (end - (i + j)) ≡ 0 = ground arith in rw (over, size)
]

-- All replies of a batch come, if `answers` says so of its part.
reply_batch_full :
    (rounds : ℕ) (answers : ℕ → Answer) (i j end replies : ℕ)
    → ((k : ℕ) → replies ≤ k → k < replies + min rounds (end - (i + j)) → answers k ≡ reply)
    → reply_batch rounds answers i j end replies ≡ (replies + min rounds (end - (i + j)), through)
unfolding reply_batch
reply_batch_full zero answers i j end replies h =
    let e : replies ≡ replies + min 0 (end - (i + j)) = omega arith in ap (λ n. (n, through)) e
reply_batch_full (suc rounds) answers i j end replies h = elim (Bool-cases (ltb (i + j) end)) [
  | inl more ↦
      let size : min (suc rounds) (end - (i + j)) ≡ suc (min rounds (end - (i + (j + 1)))) =
        ground arith in
      let total : replies + 1 + min rounds (end - (i + (j + 1)))
          ≡ replies + suc (min rounds (end - (i + (j + 1)))) =
        omega arith in
      rw (more, h replies (omega arith) (omega arith), size)
        (reply_batch_full rounds answers i (j + 1) end (replies + 1)
            (λ k lo hi. h k (omega arith) (omega arith))
          ∙ ap (λ n. (n, through)) total)
  | inr over ↦
      let e : replies ≡ replies + min (suc rounds) (end - (i + j)) = ground arith in
      rw over (ap (λ n. (n, through)) e)
]

abbrev ahead : Client → ℕ → ℕ → Client
ahead c i k = record { appended = c.appended ++ interval i k; replies = c.replies + k }

joined :
    (l : List ℕ) (i a b n : ℕ)
    → n ≡ a + b
    → (l ++ interval i a) ++ interval (i + a) b ≡ l ++ interval i n
joined l i a b n total =
    append_assoc l (interval i a) (interval (i + a) b)
    ∙ ap (λ r. l ++ r) (interval-append i a b ∙ ap (interval i) (sym total))

client_eq :
    {l l' : List ℕ} {r r' : ℕ}
    → l ≡ l'
    → r ≡ r'
    → ◌≡◌ {A = Client}
        (record { appended = l; replies = r })
        (record { appended = l'; replies = r' })
client_eq e e' = λ j. record { appended = e j; replies = e' j }

ahead_none : (c : Client) (i : ℕ) → c ≡ ahead c i 0
unfolding interval
ahead_none c i = client_eq (sym (append-nil c.appended)) (omega arith)

inject_batch_full :
    (answers : ℕ → Answer) (i end : ℕ) (c : Client)
    → ((k : ℕ) → c.replies ≤ k → k < c.replies + min batch_size (end - i) → answers k ≡ reply)
    → inject_batch answers i end c ≡ (ahead c i (min batch_size (end - i)), through)
unfolding inject_batch
inject_batch_full answers i end c h =
    let e : i + 0 ≡ i = omega arith in
    let replied =
      reply_batch_full batch_size answers i 0 end c.replies (λ k lo hi. h k lo (ground arith)) in
    rw (replied, append_batch-interval batch_size i 0 end, e) refl

inject_loop_over :
    (fuel : ℕ) (answers : ℕ → Answer) (i end : ℕ) (c : Client)
    → 0 < fuel
    → end ≤ i
    → inject_loop fuel answers i end c ≡ some (c, through)
unfolding inject_loop
inject_loop_over zero answers i end c enough over = absurd (omega arith)
inject_loop_over (suc fuel) answers i end c enough over =
    let z : ltb i end ≡ false = ground arith in rw z refl

inject_loop_full :
    (fuel : ℕ) (answers : ℕ → Answer) (i end : ℕ) (c : Client)
    → ((k : ℕ) → c.replies ≤ k → k < c.replies + (end - i) → answers k ≡ reply)
    → end - i < fuel
    → end + batch_size ≤ 2 ^ 31
    → inject_loop fuel answers i end c ≡ some (ahead c i (end - i), through)
unfolding inject_loop
inject_loop_full zero answers i end c h enough small = absurd (omega arith)
inject_loop_full (suc fuel) answers i end c h enough small = elim (Bool-cases (ltb i end)) [
  | inr over ↦
      let z : end - i ≡ 0 = ground arith in
      rw (over, z) (ap (λ x. some (x, through)) (ahead_none c i))
  | inl more ↦
      let fits : ltb (i + batch_size) (2 ^ 31) ≡ true = ground arith in
      rw (more, inject_batch_full answers i end c (λ k lo hi. h k lo (omega arith)), fits)
        (elim (dec_lt (end - i) batch_size) [
          | yes last ↦
              let size : min batch_size (end - i) ≡ end - i = omega arith in
              rw size
                (inject_loop_over fuel answers (i + batch_size) end _ (ground arith) (omega arith))
          | no full ↦
              let size : min batch_size (end - i) ≡ batch_size = omega arith in
              rw size (
                inject_loop_full fuel answers (i + batch_size) end (ahead c i batch_size)
                  (λ k lo hi. h k (omega arith) (omega arith)) (omega arith) small
                ∙ ap (λ x. some (x, through))
                    (client_eq
                      (joined c.appended i batch_size (end - (i + batch_size)) (end - i)
                        (omega arith))
                      (omega arith)))
        ])
]

-- Thread `id` of the ten, connected, for `n` keys, if each of its replies comes and its range ends a
-- batch below 2 ^ 31: it appends the commands of its range, each once and in order, takes as many
-- replies, and comes to its end.
pub inject_keys_full :
    (answers : ℕ → Answer) (n id : ℕ)
    → let (start, end) = thread_range max_threads n id in
      ((k : ℕ) → k < end - start → answers k ≡ reply)
      → end + batch_size ≤ 2 ^ 31
      → inject_keys answers n id
        ≡ some (record { appended = interval start (end - start); replies = end - start }, through)
unfolding inject_keys
inject_keys_full answers n id h small =
    let (start, end) = thread_range max_threads n id in
    inject_loop_full (end - start + 1) answers start end new_client (λ k lo hi. h k (omega arith))
      (omega arith) small
    ∙ ap (λ x. some (x, through)) (client_eq refl (omega arith))
