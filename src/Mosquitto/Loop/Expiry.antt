-- ===== src/Mosquitto/Loop/Expiry.antt =====
-- mosquitto files/loop.c: `read_message_expiry_interval`.
use double_swap.Base.{
  ℕ, ◌≡◌, refl, ◌∙◌, sym, inl, inr, false, List, [], ◌∷◌, ◌++◌, append_assoc, append-nil, All, ◌==◌,
  ==_iff, Bool-cases, if◌then◌else◌,
}

-- `mosquitto_property`, as far as it is read here.
pub record Property : Type 0 where
  pub identifier : ℕ
  pub i32 : ℕ

-- MQTT_PROP_MESSAGE_EXPIRY_INTERVAL, as MQTT has it.
abbrev pub expiry_interval : ℕ
expiry_interval = 2

-- The loop at `p`, with the properties that it has passed: the interval, and the list behind it.
unfoldable pub expiry_loop : List Property → List Property → ℕ × List Property
expiry_loop passed [] = (0, passed)
expiry_loop passed (p ∷ next) =
    let rest = expiry_loop (passed ++ p ∷ []) next in
    if p.identifier == expiry_interval then (p.i32, passed ++ next) else rest

unfoldable pub read_message_expiry_interval : List Property → ℕ × List Property
unfolding expiry_loop
read_message_expiry_interval proplist = expiry_loop [] proplist

abbrev pub IsOther : Property → Type 0
IsOther p = (p.identifier == expiry_interval) ≡ false

-- The first such property is taken out of the list, or there is none.
pub data IsTaken (ps : List Property) : ℕ × List Property → Type 0 where
  taken :
      (before : List Property) (p : Property) (after : List Property)
      → All IsOther before
      → p.identifier ≡ expiry_interval
      → ps ≡ before ++ p ∷ after
      → IsTaken ps (p.i32, before ++ after)
  absent : All IsOther ps → IsTaken ps (0, ps)

All-snoc :
    (ps : List Property) (p : Property) → All IsOther ps → IsOther p → All IsOther (ps ++ p ∷ [])
All-snoc [] p h k = (k, tt)
All-snoc (q ∷ ps) p (h, hs) k = (h, All-snoc ps p hs k)

expiry_loop-IsTaken :
    (all passed ps : List Property)
    → All IsOther passed
    → all ≡ passed ++ ps
    → IsTaken all (expiry_loop passed ps)
unfolding expiry_loop
expiry_loop-IsTaken all passed [] others e =
    let same : all ≡ passed = e ∙ append-nil passed in rw same (absent others)
expiry_loop-IsTaken all passed (p ∷ next) others e =
    elim (Bool-cases (p.identifier == expiry_interval)) [
      | inl z ↦ rw (expiry_loop, z) (taken passed p next others ((==_iff _ _).0 z) e)
      | inr z ↦
          rw (expiry_loop, z)
            (expiry_loop-IsTaken all (passed ++ p ∷ []) next (All-snoc passed p others z)
              (e ∙ sym (append_assoc passed (p ∷ []) next)))
    ]

-- For every list of properties: either the first one with the identifier of the expiry interval is
-- taken out, and nothing else, and its value is the result; or there is none, the result is 0 and
-- the list stays as it is.
pub read_message_expiry_interval_lem :
    (ps : List Property) → IsTaken ps (read_message_expiry_interval ps)
unfolding read_message_expiry_interval
read_message_expiry_interval_lem ps = expiry_loop-IsTaken ps [] ps tt refl
