-- ===== src/Redis/Object/Expiry.antt =====
-- The relative TTL of a hash field says which field has none, and gives the others' times back.
use double_swap.Base.{ℕ, ◌+◌, ◌-◌, ◌^◌, ◌<◌, ◌≤◌, ◌≡◌, ◌≢◌, none, some, arith}
use double_swap.Redis.Object.{saved_ttl}

-- A field's time below 2 ^ 64 - 1, with a minimum not above it, is saved as a TTL other than 0,
-- from which the minimum gives it back; and no time is saved as 0.
pub saved_ttl_faithful :
    (m t : ℕ)
    → m ≤ t
    → t < 2 ^ 64 - 1
    → (saved_ttl m none ≡ 0) × (saved_ttl m (some t) ≢ 0) × (saved_ttl m (some t) - 1 + m ≡ t)
unfolding saved_ttl
saved_ttl_faithful m t h small = ground arith
