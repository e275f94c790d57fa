-- ===== src/Redis/Dump/State.antt =====
-- The state of a dump: the stream, and beside it what `rdbSaveDb` notes down for others.
use mathlib.Core.Path.{subst}
use double_swap.Base.{
  ℕ, Option, or_fail, ◌+◌, ◌-◌, ◌≡◌, refl, sym, ◌∙◌, ap, ◌⊎◌, inl, inr, none, some, List, [], ◌++◌,
  Bytes, length, length-append, append_assoc, append-nil, Step, pure, ◌>>=◌, >>=-some, >>=-none,
  arith,
}
use double_swap.Redis.Rio.{Sink, Rdb, Refusal, Writes}
use double_swap.Redis.Counting.{◌⊕◌}
use double_swap.Trace.Progress.{Progress}
pub use double_swap.Trace.Pages.{Tag, out_g_star, out_g}

pub record Notes : Type 0 where
  pub page_log : List (ℕ × Tag)  -- the lines of guest_data.txt without their time
  pub key_counter : ℕ
  pub info_updated_time : ℕ
  pub child_infos : List ℕ  -- the key counts of `sendChildInfo`
  pub dismissed : List (ℕ × ℕ)  -- `dismissObject`: the value's address and the size hint
  pub earlier_reports : List (ℕ × ℕ)  -- dump_percentage.txt before this database
  pub progress : Progress  -- of this database, with its lines of dump_percentage.txt

module _ (w : Sink) where
  abbrev pub Dump : Type 0
  Dump = Rdb w × Notes

  -- A function on the `rio` alone. What it does to the stream in failing is not kept: nothing is
  -- done with the stream afterwards.
  unfoldable pub on_rdb : {A : Type 0} → Step (Rdb w) A → Step Dump A
  on_rdb m (r, n) = elim (m r) [ none ↦ none | some (a, r') ↦ some (a, (r', n)) ]

  unfoldable pub note : (Notes → Notes) → Step Dump ℕ
  note g (r, n) = some (0, (r, g n))

  -- `rdb->processed_bytes`: the bytes sent so far.
  abbrev pub processed_bytes : Rdb w → ℕ
  processed_bytes none = 0
  processed_bytes (some s) = length (w.sent s)

  -- A step, and the bytes that it sent by `rdb->processed_bytes` before and after.
  unfoldable pub sized : {A : Type 0} → Step Dump A → Step Dump (A × ℕ)
  sized m (r, n) = elim (m (r, n)) [
    | none ↦ none
    | some (a, (r', n')) ↦ some ((a, processed_bytes r' - processed_bytes r), (r', n'))
  ]

  -- `m` returns `a` having sent the bytes `p` and changed the notes by `g`, and fails only where
  -- the sink refuses a write.
  pub record Saves {A : Type 0} (m : Step Dump A) (p : Bytes) (g : Notes → Notes) (a : A)
      : Type 0 where
    pub outcome :
        (s : w.Stream) (n : Notes)
        → ((t : w.Stream) × (m (some s, n) ≡ some (a, (some t, g n))) × (w.sent t ≡ w.sent s ++ p))
          ⊎ ((m (some s, n) ≡ none) × Refusal w)

  pub on_rdb-Saves :
      {A : Type 0} {m : Step (Rdb w) A} {p : Bytes} {a : A}
      → Writes w m p a
      → Saves (on_rdb m) p (λ n. n) a
  unfolding on_rdb
  on_rdb-Saves x = record {
    outcome = λ s n. elim (x.on_stream s) [
      | inl (t, run, sent) ↦ inl (t, rw (run, on_rdb) refl, sent)
      | inr (stop, why) ↦ inr (rw (stop, on_rdb) refl, why)
    ];
  }

  pub note-Saves : (g : Notes → Notes) → Saves (note g) [] g 0
  unfolding note
  note-Saves g = record { outcome = λ s n. inl (s, refl, sym (append-nil (w.sent s))) }

  pub pure-Saves : {A : Type 0} (a : A) → Saves (pure a) [] (λ n. n) a
  pure-Saves a = record { outcome = λ s n. inl (s, refl, sym (append-nil (w.sent s))) }

  pub bind-Saves :
      {A B : Type 0} {m : Step Dump A} (k : A → Step Dump B) {p q : Bytes} {g g' : Notes → Notes}
      {a : A} {b : B}
      → Saves m p g a
      → Saves (k a) q g' b
      → Saves (m >>= k) (p ++ q) (λ n. g' (g n)) b
  bind-Saves {m} k {p} {q} {g} x y = record {
    outcome = λ s n. elim (x.outcome s n) [
      | inr (stop, why) ↦ inr (>>=-none m k stop, why)
      | inl (t, run, sent) ↦ elim (y.outcome t (g n)) [
        | inr (stop, why) ↦ inr (>>=-some m k run ∙ stop, why)
        | inl (u, run', sent') ↦ inl (
          u,
          >>=-some m k run ∙ run',
          sent' ∙ ap (λ l. l ++ q) sent ∙ append_assoc (w.sent s) p q,
        )
      ]
    ];
  }

  pub or_fail-Saves :
      {A B : Type 0} {o : Option A} {a : A} (k : A → Step Dump B) {p : Bytes} {g : Notes → Notes}
      {b : B}
      → o ≡ some a
      → Saves (k a) p g b
      → Saves (or_fail o k) p g b
  or_fail-Saves k {p} {g} {b} e x = subst (λ o. Saves (or_fail o k) p g b) (sym e) x

  pub sized-Saves :
      {A : Type 0} {m : Step Dump A} {p : Bytes} {g : Notes → Notes} {a : A}
      → Saves m p g a
      → Saves (sized m) p g (a, length p)
  unfolding sized
  sized-Saves {m} {p} {g} {a} x = record {
    outcome = λ s n. elim (x.outcome s n) [
      | inr (stop, why) ↦ inr (rw (stop, sized) refl, why)
      | inl (t, run, sent) ↦
          inl (t, rw (run, sized) (ap (λ k. some ((a, k), (some t, g n))) (grown s t sent)), sent)
    ];
  }
    where
      grown :
          (s t : w.Stream)
          → w.sent t ≡ w.sent s ++ p
          → length (w.sent t) - length (w.sent s) ≡ length p
      grown s t sent = omega (arith, ap length sent, length-append (w.sent s) p)

  pub ⊕-Saves :
      {m k : Step Dump ℕ} {p q : Bytes} {g g' : Notes → Notes} {a b : ℕ}
      → Saves m p g a
      → Saves k q g' b
      → Saves (m ⊕ k) (p ++ q) (λ n. g' (g n)) (a + b)
  ⊕-Saves {m} {k} {p} {q} {g} {g'} {a} {b} x y =
      subst (λ z. Saves (m ⊕ k) (p ++ z) (λ n. g' (g n)) (a + b)) (append-nil q)
        (bind-Saves _ x (bind-Saves _ y (pure-Saves (a + b))))
