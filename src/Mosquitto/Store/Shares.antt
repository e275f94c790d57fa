-- ===== src/Mosquitto/Store/Shares.antt =====
-- The shares of the store that are reported.
use Prim.Native.Nat.{min}
use double_swap.Base.{
  ℕ, zero, suc, ◌+◌, ◌-◌, ◌*◌, ◌/◌, ◌%◌, ◌^◌, ◌<◌, ◌≤◌, ◌≡◌, refl, ap, ◌∙◌, inl, inr, true,
  Bool-cases, sym, leb, arith,
}
use double_swap.Base.Int.{ℤ, pos, negsuc, ◌-ℤ◌, leb_ℤ}
use native.Mathlib.Nat.{mod-eq_of_lt, mul-le-mul, zero-div}
use double_swap.Mosquitto.Store.{Counters, start_counters, count_message, divide, times, wrap32}
use double_swap.Trace.Progress.{Progress, start_progress, count_key, after_keys}
use double_swap.Trace.Progress.Tenths.{
  percentages, percentages-snoc, tens, percentage_low, reports_lem,
}

-- The counters after `k` messages, the i-th of them finished at `clock i`.
unfoldable pub after_messages : ℤ → (ℕ → ℕ) → ℕ → Counters
unfolding start_counters count_message
after_messages msg_store_count clock zero = start_counters msg_store_count
after_messages msg_store_count clock (suc k) =
    count_message msg_store_count (clock (suc k)) (after_messages msg_store_count clock k)

pub keys_processed-after_messages :
    (count : ℤ) (clock : ℕ → ℕ) (k : ℕ) → (after_messages count clock k).keys_processed ≡ k
unfolding after_messages start_counters count_message
keys_processed-after_messages count clock zero = refl
keys_processed-after_messages count clock (suc k) =
    let c = after_messages count clock k in
    let ih = keys_processed-after_messages count clock k in
    elim (Bool-cases (leb_ℤ c.keys_to_process (pos (c.keys_processed + 1)))) [
      | inl z ↦ rw z (omega (arith, ih))
      | inr z ↦ rw z (omega (arith, ih))
    ]

-- The counters stand for those of Redis.
pub record IsAlike (c : Counters) (p : Progress) : Type 0 where
  pub counted : c.keys_processed ≡ p.keys_processed
  pub waits : c.keys_to_process ≡ pos p.keys_to_process
  pub next : c.current_percentage ≡ p.current_percentage
  pub said : c.reports ≡ p.reports

size_of : (n : ℕ) → pos (53 + n) -ℤ pos 53 ≡ pos n
size_of n = ground arith

-- What fits an `int` does not wrap.
wrap32-pos : (x : ℕ) → x < 2 ^ 31 → wrap32 (pos x) ≡ pos x
unfolding wrap32
wrap32-pos x h = ground arith

wrap32-opposite : (x : ℕ) → x < 2 ^ 31 → wrap32 (pos 0 -ℤ pos x) ≡ pos 0 -ℤ pos x
unfolding wrap32
wrap32-opposite x h = ground arith

count-IsAlike :
    (n now k : ℕ) (c : Counters) (p : Progress)
    → k + 1 < 2 ^ 64
    → p.keys_processed ≡ k
    → n * (p.current_percentage + 10) < 2 ^ 31
    → IsAlike c p
    → IsAlike (count_message (pos (53 + n)) now c) (count_key n now p)
unfolding count_message count_key divide times
count-IsAlike n now k c p fits at room h =
    let wide : n * (p.current_percentage + 10) < 2 ^ 64 = omega arith in
    let tests : leb_ℤ c.keys_to_process (pos (c.keys_processed + 1))
        ≡ leb p.keys_to_process ((p.keys_processed + 1) % 2 ^ 64) =
      rw (h.waits, h.counted)
        (let a : p.keys_to_process + 0 ≡ p.keys_to_process = omega arith in
          let b : p.keys_processed + 1 + 0 ≡ (p.keys_processed + 1) % 2 ^ 64 = omega arith in
          rw (a, b) refl) in
    rw (tests, size_of n)
      (elim (Bool-cases (leb p.keys_to_process ((p.keys_processed + 1) % 2 ^ 64))) [
        | inl z ↦ rw z (record {
          counted = omega (arith, h.counted);
          waits =
              rw (h.next, wrap32-pos _ room)
                (ap (λ (t : ℕ). pos (t / 100)) (sym (mod-eq_of_lt wide)));
          next = omega (arith, h.next);
          said = rw (h.said, h.next) refl;
        })
        | inr z ↦ rw z (record {
          counted = omega (arith, h.counted);
          waits = h.waits;
          next = h.next;
          said = h.said;
        })
      ])

-- With 53 + n messages in the store, 120 * n below 2 ^ 31, the counters run like those of Redis over
-- a database of n keys, at every point up to the n-th message.
pub after-IsAlike :
    (n : ℕ) (clock : ℕ → ℕ) (k : ℕ)
    → n * 120 < 2 ^ 31
    → k ≤ n
    → IsAlike (after_messages (pos (53 + n)) clock k) (after_keys n clock k)
unfolding after_messages after_keys start_counters start_progress divide
after-IsAlike n clock zero small h = record {
  counted = refl;
  waits = rw (size_of n) refl;
  next = refl;
  said = refl;
}
after-IsAlike n clock (suc k) small h =
    let alike = after-IsAlike n clock k small (omega arith) in
    let p = after_keys n clock k in
    let at : p.keys_processed ≡ k =
      sym alike.counted ∙ keys_processed-after_messages (pos (53 + n)) clock k in
    let low = percentage_low n (omega arith) clock k (omega arith) in
    let room : n * (p.current_percentage + 10) ≤ n * 120 =
      mul-le-mul {n₂ = n} {m₂ = 120} (omega arith) (omega arith) in
    count-IsAlike n (clock (suc k)) k _ p (omega arith) at (omega arith) alike

-- Then the first n messages report ten percentages, 10 to 100, or n of them if n is below ten.
pub mosquitto_reports :
    (n : ℕ) (clock : ℕ → ℕ)
    → n * 120 < 2 ^ 31
    → percentages (after_messages (pos (53 + n)) clock n).reports ≡ tens (min n 10)
mosquitto_reports n clock small =
    ap percentages (after-IsAlike n clock n small (omega arith)).said
    ∙ reports_lem n (omega arith) clock

-- No tenth is waited for.
record IsHasty (k : ℕ) (c : Counters) : Type 0 where
  early : leb_ℤ c.keys_to_process (pos 0) ≡ true
  next : c.current_percentage ≡ 10 * k + 10
  said : percentages c.reports ≡ tens k

opposite : (x : ℕ) → leb_ℤ (pos 0 -ℤ pos x) (pos 0) ≡ true
opposite x = ground arith

not_positive : (z : ℤ) (k : ℕ) → leb_ℤ z (pos 0) ≡ true → leb_ℤ (divide z k) (pos 0) ≡ true
unfolding divide
not_positive (pos zero) k h = let e : 0 / k ≡ 0 = zero-div k in rw e refl
not_positive (pos (suc n)) k h = ground arith
not_positive (negsuc n) k h = opposite (suc n / k)

count-IsHasty :
    (m now k : ℕ) (c : Counters)
    → m < 53
    → k < 2 ^ 20
    → IsHasty k c
    → IsHasty (suc k) (count_message (pos m) now c)
unfolding count_message tens times
count-IsHasty m now k c few short h =
    let size : pos m -ℤ pos 53 ≡ negsuc (52 - m) = ground arith in
    let room : suc (52 - m) * (c.current_percentage + 10) ≤ 53 * 10485780 =
      mul-le-mul {n₂ = 53} {m₂ = 10485780} (omega arith) (omega (arith, h.next)) in
    let test : leb_ℤ c.keys_to_process (pos (c.keys_processed + 1)) ≡ true =
      ground (arith, h.early) in
    rw (size, test)
      (record {
        early = rw (wrap32-opposite (suc (52 - m) * (c.current_percentage + 10)) (omega arith)) (
            not_positive (times (negsuc (52 - m)) (c.current_percentage + 10)) 100
              (opposite (suc (52 - m) * (c.current_percentage + 10))));
        next = omega (arith, h.next);
        said = percentages-snoc c.reports now c.current_percentage ∙ rw (h.said, h.next) refl;
      })

hasty :
    (m : ℕ) (clock : ℕ → ℕ) (k : ℕ)
    → m < 53
    → k ≤ 2 ^ 20
    → IsHasty k (after_messages (pos m) clock k)
unfolding after_messages start_counters tens percentages
hasty m clock zero few short =
    let size : pos m -ℤ pos 53 ≡ negsuc (52 - m) = ground arith in
    record { early = rw size (opposite (suc (52 - m) / 10)); next = refl; said = refl }
hasty m clock (suc k) few short =
    count-IsHasty m (clock (suc k)) k _ few (omega arith) (hasty m clock k few (omega arith))

-- With fewer than 53 messages in the store, every message that is saved is reported as a tenth
-- more, for as many as 2 ^ 20 messages.
pub few_messages_reported :
    (m : ℕ) (clock : ℕ → ℕ) (k : ℕ)
    → m < 53
    → k ≤ 2 ^ 20
    → percentages (after_messages (pos m) clock k).reports ≡ tens k
few_messages_reported m clock k few short = (hasty m clock k few short).said
