-- ===== src/Mosquitto/Subs/Topics.antt =====
-- The topic of a subscription, read off the levels that lead to it.
use double_swap.Base.{
  ℕ, suc, ◌+◌, ◌≡◌, refl, ap, ◌∙◌, sym, true, false, not, ◌||◌, List, [], ◌∷◌, ◌++◌, append_assoc,
  take, take-length, length, length-append, Bytes, ltb, ◌==◌, arith,
}
use double_swap.Mosquitto.Subs.{this_topic}

-- The levels with a slash between each two.
unfoldable pub joined : List Bytes → Bytes
joined [] = []
joined (l ∷ []) = l
joined (l ∷ m ∷ ls) = l ++ 47 ∷ joined (m ∷ ls)

-- The topic of a path: an empty level at its head is the root of the tree and no level of a topic.
unfoldable pub full_topic : List Bytes → Bytes
unfolding joined
full_topic [] = []
full_topic ([] ∷ ls) = joined ls
full_topic ((b ∷ l) ∷ ls) = joined ((b ∷ l) ∷ ls)

joined-snoc :
    (l : Bytes) (ls : List Bytes) (m : Bytes)
    → joined (l ∷ (ls ++ m ∷ [])) ≡ joined (l ∷ ls) ++ 47 ∷ m
unfolding joined
joined-snoc l [] m = refl
joined-snoc l (k ∷ ls) m =
    ap (λ t. l ++ 47 ∷ t) (joined-snoc k ls m)
    ∙ sym (append_assoc l (47 ∷ joined (k ∷ ls)) (47 ∷ m))

room : (topic m : Bytes) → take (length topic + length m + 1) (topic ++ 47 ∷ m) ≡ topic ++ 47 ∷ m
room topic m =
    let e : length topic + length m + 1 ≡ length (topic ++ 47 ∷ m) =
      omega (arith, length-append topic (47 ∷ m)) in
    rw e (take-length (topic ++ 47 ∷ m))

room_first : (m : Bytes) → take (length m + 1) m ≡ m
room_first [] = refl
room_first (b ∷ m) =
    let e : suc (length m) + 1 ≡ suc (length m + 1) = omega arith in
    rw e (ap (λ l. b ∷ l) (room_first m))

first_level : (m : Bytes) (level : ℕ) → ltb 1 level ≡ false → this_topic [] m (length m) level ≡ m
unfolding this_topic
first_level m level h =
    let e : 0 + length m + 1 ≡ length m + 1 = omega arith in rw (h, e) (room_first m)

deeper_level :
    (topic m : Bytes) (level : ℕ)
    → (ltb 1 level || not (length topic == 0)) ≡ true
    → this_topic topic m (length m) level ≡ topic ++ 47 ∷ m
unfolding this_topic
deeper_level topic m level h = rw h (room topic m)

some_level :
    (l m : Bytes) (ls : List Bytes) (level : ℕ) (b : ℕ)
    → (ltb 1 (suc level) || not (length (joined ((b ∷ l) ∷ ls)) == 0)) ≡ true
unfolding joined
some_level l m [] level b = ground arith
some_level l m (k ∷ ls) level b = ground arith

-- The step down to a level goes from the topic of a path to the topic of the longer path.
pub this_topic-full_topic :
    (p : List Bytes) (m : Bytes)
    → this_topic (full_topic p) m (length m) (length p) ≡ full_topic (p ++ m ∷ [])
unfolding full_topic joined
this_topic-full_topic [] [] = first_level [] 0 refl
this_topic-full_topic [] (b ∷ m) = first_level (b ∷ m) 0 refl
this_topic-full_topic ([] ∷ []) m = first_level m 1 refl
this_topic-full_topic ([] ∷ l ∷ ls) m =
    let deep : ltb 1 (suc (suc (length ls))) ≡ true = ground arith in
    deeper_level (joined (l ∷ ls)) m (suc (suc (length ls))) (rw deep refl)
    ∙ sym (joined-snoc l ls m)
this_topic-full_topic ((b ∷ l) ∷ ls) m =
    deeper_level (joined ((b ∷ l) ∷ ls)) m (suc (length ls)) (some_level l m ls (length ls) b)
    ∙ sym (joined-snoc (b ∷ l) ls m)
