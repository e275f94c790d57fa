-- ===== src/Redis/Dump/Noted.antt =====
-- What the rounds of `rdbSaveDb` add to the notes, entry by entry.
use double_swap.Base.{
  ℕ, zero, suc, ◌+◌, ◌-◌, ◌%◌, ◌^◌, ◌<◌, ◌≡◌, refl, sym, ap, ◌∙◌, inl, inr, false, Bool-cases, List,
  [], ◌∷◌, ◌++◌, map, append_assoc, append-nil, ◌==◌, if◌then◌else◌, leb, ◌&&◌, length, arith,
}
use double_swap.Redis.Format.{Format}
use double_swap.Redis.Host.{Host}
use double_swap.Redis.Opcodes.{Opcodes}
use double_swap.Redis.Dump.State.{Tag, out_g_star, out_g, Notes}
use double_swap.Redis.Dump.{
  Server, KeyEntry, Database, entry_pair, log_pages, update_child_info, dismiss,
}
use double_swap.Redis.Entries.Code.{pair_code}
use double_swap.Redis.Dump.Code.{logged, entry_notes, entries_notes, db_notes}
use double_swap.Trace.Progress.{start_progress, count_key, after_keys}

-- The lines of one entry: its pages with the first tag, and the same pages with the second.
unfoldable pub bracket : Server → KeyEntry → List (ℕ × Tag)
bracket v k = map (λ p. (p, out_g_star)) (logged v k) ++ map (λ p. (p, out_g)) (logged v k)

unfoldable pub brackets : Server → List KeyEntry → List (ℕ × Tag)
brackets v [] = []
brackets v (k ∷ ks) = bracket v k ++ brackets v ks

keys_processed-after_keys :
    (n : ℕ) (clock : ℕ → ℕ) (k : ℕ) → (after_keys n clock k).keys_processed ≡ k % 2 ^ 64
unfolding after_keys start_progress count_key
keys_processed-after_keys n clock zero = refl
keys_processed-after_keys n clock (suc k) =
    let ih = keys_processed-after_keys n clock k in
    let p = after_keys n clock k in
    elim (Bool-cases (leb p.keys_to_process ((p.keys_processed + 1) % 2 ^ 64))) [
      | inl z ↦ rw z (omega (arith, ih))
      | inr z ↦ rw z (omega (arith, ih))
    ]

-- The hints of `dismissObject`: for each value, the bytes that its pair took in the file.
unfoldable pub hints : Format → Opcodes → Host → Server → List KeyEntry → List (ℕ × ℕ)
hints f c e v [] = []
hints f c e v (k ∷ ks) =
    (k.value_address, length (pair_code f c e v.policy (entry_pair k))) ∷ hints f c e v ks

module _ (f : Format) (c : Opcodes) (e : Host) (v : Server) (mstime : ℕ → ℕ) where
  -- How the notes of `n` become those of `n'` over the entries `ks`.
  pub record Noted (ks : List KeyEntry) (n n' : Notes) : Type 0 where
    pub pages : n'.page_log ≡ n.page_log ++ brackets v ks
    pub keys : n'.key_counter ≡ n.key_counter + length ks
    pub freed : n'.dismissed ≡ n.dismissed ++ (if v.in_fork_child then hints f c e v ks else [])

  dismiss_hint :
      (address size : ℕ) (n : Notes)
      → (dismiss v address size n).dismissed
        ≡ n.dismissed ++ (if v.in_fork_child then (address, size) ∷ [] else [])
  unfolding dismiss
  dismiss_hint address size n = elim (Bool-cases v.in_fork_child) [
    | inl z ↦ rw z refl
    | inr z ↦ rw z (sym (append-nil n.dismissed))
  ]

  dismiss_rest :
      (address size : ℕ) (n : Notes)
      → ((dismiss v address size n).page_log ≡ n.page_log)
        × ((dismiss v address size n).key_counter ≡ n.key_counter)
        × ((dismiss v address size n).progress ≡ n.progress)
  unfolding dismiss
  dismiss_rest address size n = elim (Bool-cases v.in_fork_child) [
    | inl z ↦ rw z (refl, refl, refl)
    | inr z ↦ rw z (refl, refl, refl)
  ]

  counted_rest :
      (n : Notes)
      → ((update_child_info mstime n).page_log ≡ n.page_log)
        × ((update_child_info mstime n).key_counter ≡ n.key_counter + 1)
        × ((update_child_info mstime n).dismissed ≡ n.dismissed)
        × ((update_child_info mstime n).progress ≡ n.progress)
  unfolding update_child_info
  counted_rest n =
      elim (Bool-cases
        (n.key_counter % 1024 == 0 && leb 1000 (mstime n.key_counter - n.info_updated_time))) [
          | inl z ↦ rw z (refl, refl, refl, refl)
          | inr z ↦ rw z (refl, refl, refl, refl)
        ]

  entry-Noted :
      (db_size : ℕ) (elapsed : ℕ → ℕ) (k : KeyEntry) (n : Notes)
      → Noted (k ∷ []) n (entry_notes f c e v mstime db_size elapsed k n)
  unfolding entry_notes brackets bracket hints log_pages
  entry-Noted db_size elapsed k n =
      let noted = log_pages (logged v k) out_g (log_pages (logged v k) out_g_star n) in
      let size = length (pair_code f c e v.policy (entry_pair k)) in
      let freed = dismiss v k.value_address size noted in
      let (page, key, rest) = dismiss_rest k.value_address size noted in
      let (page', key', dismissed, rest') = counted_rest freed in
      record {
        pages =
            page'
            ∙ page
            ∙ append_assoc n.page_log (map (λ p. (p, out_g_star)) (logged v k)) _
            ∙ ap (λ l. n.page_log ++ l) (sym (append-nil (bracket v k)));
        keys = key' ∙ ap (λ (x : ℕ). x + 1) key;
        freed = dismissed ∙ dismiss_hint k.value_address size noted;
      }

  entries-Noted :
      (db_size : ℕ) (elapsed : ℕ → ℕ) (ks : List KeyEntry) (n : Notes)
      → Noted ks n (entries_notes f c e v mstime db_size elapsed ks n)
  unfolding entries_notes brackets hints
  entries-Noted db_size elapsed [] n = record {
    pages = sym (append-nil n.page_log);
    keys = omega arith;
    freed = elim (Bool-cases v.in_fork_child) [
      | inl z ↦ rw z (sym (append-nil n.dismissed))
      | inr z ↦ rw z (sym (append-nil n.dismissed))
    ];
  }
  entries-Noted db_size elapsed (k ∷ ks) n =
      let one = entry-Noted db_size elapsed k n in
      let more =
        entries-Noted db_size elapsed ks (entry_notes f c e v mstime db_size elapsed k n) in
      record {
        pages =
            more.pages
            ∙ ap (λ l. l ++ brackets v ks) one.pages
            ∙ append_assoc n.page_log (bracket v k ++ []) (brackets v ks)
            ∙ ap (λ l. n.page_log ++ (l ++ brackets v ks)) (append-nil (bracket v k));
        keys = omega (arith, more.keys, one.keys);
        freed = elim (Bool-cases v.in_fork_child) [
          | inl z ↦ rw z (
              (rw z at more.freed)
              ∙ ap (λ l. l ++ hints f c e v ks) (rw z at one.freed)
              ∙ append_assoc n.dismissed _ (hints f c e v ks))
          | inr z ↦ rw z ((rw z at more.freed) ∙ append-nil _ ∙ (rw z at one.freed))
        ];
      }

  entry_progress :
      (db_size : ℕ) (elapsed : ℕ → ℕ) (k : KeyEntry) (n : Notes) (j : ℕ)
      → j < 2 ^ 64
      → n.progress ≡ after_keys db_size elapsed j
      → (entry_notes f c e v mstime db_size elapsed k n).progress
        ≡ after_keys db_size elapsed (suc j)
  unfolding entry_notes after_keys log_pages
  entry_progress db_size elapsed k n j room at_j =
      let noted = log_pages (logged v k) out_g (log_pages (logged v k) out_g_star n) in
      let size = length (pair_code f c e v.policy (entry_pair k)) in
      let freed = dismiss v k.value_address size noted in
      let same = (counted_rest freed).3 ∙ (dismiss_rest k.value_address size noted).2 ∙ at_j in
      let counted : (after_keys db_size elapsed j).keys_processed + 1 ≡ suc j =
        omega (arith, keys_processed-after_keys db_size elapsed j) in
      rw (same, counted) refl

  entries_progress :
      (db_size : ℕ) (elapsed : ℕ → ℕ) (ks : List KeyEntry) (n : Notes) (j : ℕ)
      → j + length ks < 2 ^ 64
      → n.progress ≡ after_keys db_size elapsed j
      → (entries_notes f c e v mstime db_size elapsed ks n).progress
        ≡ after_keys db_size elapsed (j + length ks)
  unfolding entries_notes
  entries_progress db_size elapsed [] n j room at_j =
      let z : j ≡ j + 0 = omega arith in at_j ∙ ap (after_keys db_size elapsed) z
  entries_progress db_size elapsed (k ∷ ks) n j room at_j =
      let z : suc j + length ks ≡ j + suc (length ks) = omega arith in
      entries_progress db_size elapsed ks (entry_notes f c e v mstime db_size elapsed k n) (suc j)
        (omega arith) (entry_progress db_size elapsed k n j (omega arith) at_j)
      ∙ ap (after_keys db_size elapsed) z

  -- The notes of a whole database.
  abbrev begun : Notes → ℕ → Notes
  begun n db_size = record n {
    earlier_reports = n.earlier_reports ++ n.progress.reports;
    progress = start_progress db_size;
  }

  pub db-Noted :
      (db : Database) (elapsed : ℕ → ℕ) (n : Notes)
      → 0 < length db.entries
      → Noted db.entries n (db_notes f c e v mstime db elapsed n)
  unfolding db_notes
  db-Noted db elapsed n some_key =
      let z : (length db.entries == 0) ≡ false = ground arith in
      let x = entries-Noted (length db.entries) elapsed db.entries (begun n (length db.entries)) in
      rw z (record { pages = x.pages; keys = x.keys; freed = x.freed })

  pub db_progress :
      (db : Database) (elapsed : ℕ → ℕ) (n : Notes)
      → 0 < length db.entries
      → length db.entries < 2 ^ 64
      → (db_notes f c e v mstime db elapsed n).progress
        ≡ after_keys (length db.entries) elapsed (length db.entries)
  unfolding db_notes after_keys
  db_progress db elapsed n some_key room =
      let z : (length db.entries == 0) ≡ false = ground arith in
      let l : 0 + length db.entries ≡ length db.entries = omega arith in
      rw z (
        entries_progress (length db.entries) elapsed db.entries (begun n (length db.entries)) 0
          (omega arith) refl
        ∙ ap (after_keys (length db.entries) elapsed) l)
