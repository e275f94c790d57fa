-- ===== src/Redis/Load/Packed/Rows.antt =====
-- The rows of a hash with expire times, and what the tests of one row mean.
use double_swap.Base.{ℕ, ◌≤◌, ◌≡◌, ◌≢◌, ◌↔◌, true, false, some, List, [], ◌∷◌, Bytes, All, arith}
use double_swap.Base.Int.{ℤ, pos, negsuc}
use double_swap.Redis.Load.{Entry, Structures, holds_key, bytes_eq}
use double_swap.Redis.Load.Packed.{ttl_valid}

-- Each pair of entries, the earlier one first.
unfoldable pub Pairwise : {A : Type 0} → (A → A → Type 0) → List A → Type 0
Pairwise R [] = Unit {0}
Pairwise R (x ∷ xs) = All (R x) xs × Pairwise R xs

-- A name, a value and an expire time of a hash.
pub record Row : Type 0 where
  pub name : Entry
  pub value : Entry
  pub ttl_text : Bytes
  pub ttl : ℕ

unfoldable pub row_entries : List Row → List Entry
row_entries [] = []
row_entries (w ∷ ws) =
    w.name ∷ w.value ∷ record { text = w.ttl_text; integer = some (pos w.ttl) } ∷ row_entries ws

-- Behind the time `last`; 0 is no time, and -1 in front of the first.
unfoldable pub Follows : ℤ → ℕ → Type 0
Follows (pos s) t = t ≢ 0 → (s ≢ 0) × (s ≤ t)
Follows (negsuc n) t = Unit {0}

-- The names differ, no time is above the limit, and those that have one come first, in order.
pub record IsTable (c : Structures) (ws : List Row) : Type 0 where
  pub distinct : Pairwise (λ a b. a.name.text ≢ b.name.text) ws
  pub limited : All (λ w. w.ttl ≤ c.eb_expire_time_max) ws
  pub ordered : Pairwise (λ a b. Follows (pos a.ttl) b.ttl) ws

pub bytes_eq_iff : (p q : Bytes) → (bytes_eq p q ≡ true) ↔ (p ≡ q)
unfolding bytes_eq
bytes_eq_iff [] [] = ground arith
bytes_eq_iff [] (c ∷ q) = ground arith
bytes_eq_iff (b ∷ p) [] = ground arith
bytes_eq_iff (b ∷ p) (c ∷ q) = ground (arith, bytes_eq_iff p q)

pub holds_key_iff : (ks : List Bytes) (k : Bytes) → (holds_key ks k ≡ false) ↔ All (λ j. j ≢ k) ks
unfolding holds_key
holds_key_iff [] k = ground arith
holds_key_iff (j ∷ ks) k = ground (arith, bytes_eq_iff j k, holds_key_iff ks k)

pub ttl_valid_iff :
    (c : Structures) (last : ℤ) (t : ℕ)
    → (ttl_valid c 3 last (pos t) ≡ true) ↔ ((t ≤ c.eb_expire_time_max) × Follows last t)
unfolding ttl_valid Follows
ttl_valid_iff c (pos s) t = ground arith
ttl_valid_iff c (negsuc n) t = ground arith

pub ttl_valid_negative : (c : Structures) (last : ℤ) (n : ℕ) → ttl_valid c 3 last (negsuc n) ≡ false
unfolding ttl_valid
ttl_valid_negative c last n = ground arith

pub Follows-trans : (last : ℤ) (t u : ℕ) → Follows last t → Follows (pos t) u → Follows last u
unfolding Follows
Follows-trans (pos s) t u a b =
    λ nonzero. let (x, y) = b nonzero in let (z, w) = a x in (z, omega arith)
Follows-trans (negsuc n) t u a b = tt
