-- ===== src/Mosquitto/Store/Saved.antt =====
-- What a save of the store leaves in the file and in the logs.
use double_swap.Base.{
  ℕ, suc, ◌+◌, ◌≡◌, ◌≢◌, refl, ap, ◌∙◌, sym, ◌⊎◌, inl, inr, true, false, Option, none, some, List,
  [], ◌∷◌, ◌++◌, append_assoc, append-nil, map, Bytes, length, ◌==◌, ==_iff, ==_ne, arith,
}
use native.Mathlib.Decide.{dec_lt}
use double_swap.Base.Int.{ℤ}
use double_swap.Trace.Pages.{Tag, out_g_star, out_g}
use double_swap.Mosquitto.Chunks.{Chunk, msg_store, Writer}
use double_swap.Mosquitto.Store.{
  Stored, start_counters, count_message, persistent_topic, store_chunk, message_pages, StoreState,
  log_message, save_message, save_messages, message_store_save,
}
use double_swap.Mosquitto.Store.Shares.{after_messages, keys_processed-after_messages}

-- The messages that are saved, with their topics.
unfoldable pub persistent : List Stored → List (Stored × Bytes)
persistent [] = []
persistent (m ∷ ms) = elim (persistent_topic m) [
  | none ↦ persistent ms
  | some topic ↦ (m, topic) ∷ persistent ms
]

unfoldable pub store_chunks : List (Stored × Bytes) → List Chunk
store_chunks [] = []
store_chunks ((m, topic) ∷ ms) = msg_store (store_chunk m topic) ∷ store_chunks ms

-- The lines of one message with a tag, and those of whole messages, each with both tags.
abbrev pub tagged : ℕ → Stored → Tag → List (ℕ × Tag)
tagged page_size m tag = map (λ p. (p, tag)) (message_pages page_size m)

unfoldable pub message_brackets : ℕ → List (Stored × Bytes) → List (ℕ × Tag)
message_brackets page_size [] = []
message_brackets page_size ((m, topic) ∷ ms) =
    tagged page_size m out_g_star ++ (tagged page_size m out_g ++ message_brackets page_size ms)

module _ (w : Writer) (page_size : ℕ) (count : ℤ) (clock : ℕ → ℕ) where
  -- From `s` to `s'` the messages `ms` were saved, the first of them as number `j`.
  pub record HasSaved (j : ℕ) (ms : List (Stored × Bytes)) (s s' : StoreState w) : Type 0 where
    pub held : w.chunks s'.file ≡ w.chunks s.file ++ store_chunks ms
    pub logged : s'.page_log ≡ s.page_log ++ message_brackets page_size ms
    pub shares : s'.counters ≡ after_messages count clock (j + length ms)

  -- The save stopped at a message whose write failed with `rc`: those before it were saved, and its
  -- own pages are logged with the first tag only.
  pub record HasStopped (j : ℕ) (ms : List (Stored × Bytes)) (rc : ℕ) (s s' : StoreState w)
      : Type 0 where
    pub before : List (Stored × Bytes)
    pub after : List (Stored × Bytes)
    pub at : Stored
    pub topic : Bytes
    pub split : ms ≡ before ++ (at, topic) ∷ after
    pub file : w.File
    pub held : w.chunks file ≡ w.chunks s.file ++ store_chunks before
    pub failed : w.write (msg_store (store_chunk at topic)) file ≡ (rc, s'.file)
    pub logged :
        s'.page_log
        ≡ s.page_log ++ (message_brackets page_size before ++ tagged page_size at out_g_star)
    pub shares : s'.counters ≡ after_messages count clock (j + length before)

  abbrev pub Outcome : ℕ → List (Stored × Bytes) → StoreState w → ℕ × StoreState w → Type 0
  Outcome j ms s r = ((r.0 ≡ 0) × HasSaved j ms s r.1) ⊎ ((r.0 ≢ 0) × HasStopped j ms r.0 s r.1)

  count_after :
      (j : ℕ)
      → count_message count
          (clock ((after_messages count clock j).keys_processed + 1))
          (after_messages count clock j)
        ≡ after_messages count clock (suc j)
  unfolding after_messages
  count_after j =
      let e : (after_messages count clock j).keys_processed + 1 ≡ suc j =
        omega (arith, keys_processed-after_messages count clock j) in
      ap (λ i. count_message count (clock i) (after_messages count clock j)) e

  one-HasSaved :
      (j : ℕ) (m : Stored) (topic : Bytes) (s : StoreState w)
      → s.counters ≡ after_messages count clock j
      → (w.write (msg_store (store_chunk m topic)) s.file).0 ≡ 0
      → ((save_message w page_size count clock m topic s).0 ≡ 0)
        × HasSaved j ((m, topic) ∷ []) s (save_message w page_size count clock m topic s).1
  unfolding save_message log_message store_chunks message_brackets
  one-HasSaved j m topic s at ok =
      let e : suc j ≡ j + 1 = omega arith in
      let test : ((w.write (msg_store (store_chunk m topic)) s.file).0 == 0) ≡ true =
        (==_iff _ 0).1 ok in
      rw test (
        refl,
        record {
          held = w.chunks-write (msg_store (store_chunk m topic)) s.file ok;
          logged =
              append_assoc s.page_log (tagged page_size m out_g_star) (tagged page_size m out_g)
              ∙ ap (λ l. s.page_log ++ (tagged page_size m out_g_star ++ l)) (sym (append-nil _));
          shares =
              ap (λ c. count_message count (clock (c.keys_processed + 1)) c) at
              ∙ count_after j
              ∙ ap (after_messages count clock) e;
        },
      )

  one-HasStopped :
      (j : ℕ) (m : Stored) (topic : Bytes) (s : StoreState w)
      → s.counters ≡ after_messages count clock j
      → (w.write (msg_store (store_chunk m topic)) s.file).0 ≢ 0
      → ((save_message w page_size count clock m topic s).0 ≢ 0)
        × ((after : List (Stored × Bytes))
            → HasStopped j
                ((m, topic) ∷ after)
                (save_message w page_size count clock m topic s).0
                s
                (save_message w page_size count clock m topic s).1)
  unfolding save_message log_message store_chunks message_brackets
  one-HasStopped j m topic s at failed =
      let test : ((w.write (msg_store (store_chunk m topic)) s.file).0 == 0) ≡ false =
        ==_ne failed in
      let e : j ≡ j + 0 = omega arith in
      rw test (
        failed,
        (λ after. record {
          before = [];
          after = after;
          at = m;
          topic = topic;
          split = refl;
          file = s.file;
          held = sym (append-nil _);
          failed = refl;
          logged = refl;
          shares = at ∙ ap (after_messages count clock) e;
        }),
      )

  join-HasSaved :
      {m : Stored × Bytes} {ms : List (Stored × Bytes)} {s t u : StoreState w} (j : ℕ)
      → HasSaved j (m ∷ []) s t
      → HasSaved (j + 1) ms t u
      → HasSaved j (m ∷ ms) s u
  unfolding store_chunks message_brackets
  join-HasSaved {m} {ms} {s} j x y =
      let e : j + 1 + length ms ≡ j + suc (length ms) = omega arith in
      record {
        held =
            y.held
            ∙ ap (λ l. l ++ store_chunks ms) x.held
            ∙ append_assoc (w.chunks s.file) _ (store_chunks ms);
        logged =
            y.logged
            ∙ ap (λ l. l ++ message_brackets page_size ms) x.logged
            ∙ append_assoc s.page_log _ (message_brackets page_size ms)
            ∙ ap (λ l. s.page_log ++ l) (bracket_first m ms);
        shares = y.shares ∙ ap (after_messages count clock) e;
      }
    where
      bracket_first :
          (m : Stored × Bytes) (ms : List (Stored × Bytes))
          → message_brackets page_size (m ∷ []) ++ message_brackets page_size ms
            ≡ message_brackets page_size (m ∷ ms)
      bracket_first (m, topic) ms = simp (append_assoc, append-nil)

  join-HasStopped :
      {m : Stored × Bytes} {ms : List (Stored × Bytes)} {rc : ℕ} {s t u : StoreState w} (j : ℕ)
      → HasSaved j (m ∷ []) s t
      → HasStopped (j + 1) ms rc t u
      → HasStopped j (m ∷ ms) rc s u
  unfolding store_chunks message_brackets
  join-HasStopped {m} {ms} {s} j x y =
      let e : j + 1 + length y.before ≡ j + suc (length y.before) = omega arith in
      record {
        before = m ∷ y.before;
        after = y.after;
        at = y.at;
        topic = y.topic;
        split = ap (λ l. m ∷ l) y.split;
        file = y.file;
        held =
            y.held
            ∙ ap (λ l. l ++ store_chunks y.before) x.held
            ∙ append_assoc (w.chunks s.file) _ (store_chunks y.before);
        failed = y.failed;
        logged =
            y.logged
            ∙ ap
                (λ l.
                  l ++ (message_brackets page_size y.before ++ tagged page_size y.at out_g_star))
                x.logged
            ∙ stopped_first m y.before s.page_log (tagged page_size y.at out_g_star);
        shares = y.shares ∙ ap (after_messages count clock) e;
      }
    where
      stopped_first :
          (m : Stored × Bytes) (ms : List (Stored × Bytes)) (l t : List (ℕ × Tag))
          → (l ++ message_brackets page_size (m ∷ [])) ++ (message_brackets page_size ms ++ t)
            ≡ l ++ (message_brackets page_size (m ∷ ms) ++ t)
      stopped_first (m, topic) ms l t = simp (append_assoc, append-nil)

  none_HasSaved :
      (j : ℕ) (s : StoreState w) → s.counters ≡ after_messages count clock j → HasSaved j [] s s
  unfolding store_chunks message_brackets
  none_HasSaved j s at =
      let e : j ≡ j + 0 = omega arith in
      record {
        held = sym (append-nil _);
        logged = sym (append-nil _);
        shares = at ∙ ap (after_messages count clock) e;
      }

  joined :
      {m : Stored × Bytes} {ms : List (Stored × Bytes)} {s t : StoreState w} {r : ℕ × StoreState w}
      (j : ℕ)
      → HasSaved j (m ∷ []) s t
      → Outcome (j + 1) ms t r
      → Outcome j (m ∷ ms) s r
  joined j x (inl (ok, y)) = inl (ok, join-HasSaved j x y)
  joined j x (inr (failed, y)) = inr (failed, join-HasStopped j x y)

  -- For every store, from counters that stand at message `j`.
  save_messages_lem :
      (j : ℕ) (ms : List Stored) (s : StoreState w)
      → s.counters ≡ after_messages count clock j
      → Outcome j (persistent ms) s (save_messages w page_size count clock ms s)
  unfolding save_messages persistent
  save_messages_lem j [] s at = inl (refl, none_HasSaved j s at)
  save_messages_lem j (m ∷ ms) s at =
      by_topic (persistent_topic m) refl (λ i t x. save_messages_lem i ms t x)
    where
      by_topic :
          (o : Option Bytes)
          → persistent_topic m ≡ o
          → ((i : ℕ) (t : StoreState w)
              → t.counters ≡ after_messages count clock i
              → Outcome i (persistent ms) t (save_messages w page_size count clock ms t))
          → Outcome j (persistent (m ∷ ms)) s (save_messages w page_size count clock (m ∷ ms) s)
      by_topic none e ih = rw (save_messages, persistent, e) (ih j s at)
      by_topic (some topic) e ih =
          rw (save_messages, persistent, e)
            (elim (dec_lt 0 (w.write (msg_store (store_chunk m topic)) s.file).0) [
              | no ok ↦
                  let (zero_rc, x) = one-HasSaved j m topic s at (omega arith) in
                  rw ((==_iff _ 0).1 zero_rc) (joined j x (ih (j + 1) _ x.shares))
              | yes failed ↦
                  let (rc, x) = one-HasStopped j m topic s at (λ p. omega arith) in
                  rw (==_ne rc) (inr (rc, x (persistent ms)))
            ])

-- For every store and every writer: either the save returns 0, the file holds behind its old chunks
-- those of the persistent messages in their order, each of them is logged with both tags, and the
-- counters are those after as many messages; or the save returns what the write of a persistent
-- message failed with, to a file that held the chunks of those before, these are logged with both
-- tags and counted, and the pages of that one are logged with the first tag only.
pub message_store_save_lem :
    (w : Writer) (page_size : ℕ) (count : ℤ) (clock : ℕ → ℕ) (ms : List Stored) (file : w.File)
    (log : List (ℕ × Tag))
    → Outcome w page_size count clock 0
        (persistent ms)
        (record { file = file; page_log = log; counters = start_counters count })
        (message_store_save w page_size count clock ms file log)
unfolding message_store_save after_messages
message_store_save_lem w page_size count clock ms file log =
    save_messages_lem w page_size count clock 0 ms _ refl
