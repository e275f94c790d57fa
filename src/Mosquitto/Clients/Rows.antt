-- ===== src/Mosquitto/Clients/Rows.antt =====
-- The chunks that a save of the clients writes.
use double_swap.Base.{
  ℕ, ◌≡◌, ◌≢◌, refl, All, inl, inr, not, ◌&&◌, Bool-cases, List, [], ◌∷◌, ◌==◌, if◌then◌else◌,
}
use mathlib.Core.Path.{subst}
use double_swap.Mosquitto.Chunks.{ClientMsgChunk, Chunk, client, Writer, and_then, or_one, len16}
use double_swap.Mosquitto.Writes.{
  Writes, none-Writes, write-Writes, then-Writes, Extends, same-Extends, write-Extends,
  then-Extends,
}
use double_swap.Mosquitto.Clients.{
  ClientMsg, Context, is_unsaved, client_msg_chunk, is_persistent, client_chunk,
  client_messages_save, queues_save, client_save,
}

-- The queued messages that are saved.
unfoldable pub saved_messages : List ClientMsg → List ClientMsg
saved_messages [] = []
saved_messages (m ∷ ms) = if is_unsaved m then saved_messages ms else m ∷ saved_messages ms

unfoldable pub saved_contexts : List Context → List Context
saved_contexts [] = []
saved_contexts (c ∷ cs) =
    if is_persistent c && not (len16 c.id == 0) then c ∷ saved_contexts cs else saved_contexts cs

-- No message of a client is one to be saved.
pub record IsQuiet (c : Context) : Type 0 where
  pub in_inflight : saved_messages c.in_inflight ≡ []
  pub in_queued : saved_messages c.in_queued ≡ []
  pub out_inflight : saved_messages c.out_inflight ≡ []
  pub out_queued : saved_messages c.out_queued ≡ []

-- The chunks of the clients.
unfoldable pub client_rows : ℕ → List Context → List Chunk
client_rows now [] = []
client_rows now (c ∷ cs) = client (client_chunk now c) ∷ client_rows now cs

cons-ne-nil : {A : Type 0} {x : A} {xs : List A} → (x ∷ xs) ≢ []
cons-ne-nil e = absurd cc

module _ (w : Writer) (misread : ClientMsgChunk → w.File → ℕ × w.File) where
  quiet_queue :
      (c : Context) (ms : List ClientMsg) (f : w.File)
      → saved_messages ms ≡ []
      → client_messages_save w misread c ms f ≡ (0, f)
  unfolding client_messages_save saved_messages
  quiet_queue c [] f h = refl
  quiet_queue c (m ∷ ms) f h = elim (Bool-cases (is_unsaved m)) [
    | inl z ↦ rw (client_messages_save, z) (quiet_queue c ms f (rw (saved_messages, z) at h))
    | inr z ↦ absurd (cons-ne-nil (rw (saved_messages, z) at h))
  ]

  quiet_queues : (c : Context) (f : w.File) → IsQuiet c → queues_save w misread c f ≡ (0, f)
  unfolding queues_save and_then or_one
  quiet_queues c f h =
      rw
        (
          quiet_queue c c.in_inflight f h.in_inflight,
          quiet_queue c c.in_queued f h.in_queued,
          quiet_queue c c.out_inflight f h.out_inflight,
          quiet_queue c c.out_queued f h.out_queued,
        )
        refl

  after_queues :
      (c : Context) (f : w.File) (next : w.File → ℕ × w.File)
      → IsQuiet c
      → next f ≡ and_then (queues_save w misread c f) next
  unfolding and_then
  after_queues c f next h = rw (and_then, quiet_queues c f h) refl

  -- For every writer and all clients, if no persistent client with an identifier that is not counted
  -- as empty has a message to be saved in its four queues: either the save returns 0 and the file
  -- holds, behind its old chunks, the chunk of each of these clients in their order; or it returns
  -- another number, some of these writes failed, and the file holds those before it.
  pub client_save-Writes :
      (now : ℕ) (cs : List Context) (f : w.File)
      → All IsQuiet (saved_contexts cs)
      → Writes w (client_rows now (saved_contexts cs)) f (client_save w misread now cs f)
  unfolding client_save saved_contexts client_rows
  client_save-Writes now [] f quiet = none-Writes w f
  client_save-Writes now (c ∷ cs) f quiet =
      elim (Bool-cases (is_persistent c && not (len16 c.id == 0))) [
        | inl z ↦
            let (one, rest) = rw (saved_contexts, z) at quiet in
            rw (client_save, saved_contexts, z)
              (then-Writes w _ _ (write-Writes w _ f) (λ g.
                subst (Writes w (client_rows now (saved_contexts cs)) g)
                  (after_queues c g (client_save w misread now cs) one)
                  (client_save-Writes now cs g rest)))
        | inr z ↦
            rw (client_save, saved_contexts, z)
              (client_save-Writes now cs f (rw (saved_contexts, z) at quiet))
      ]

  -- Whatever the misread chunks are, the clients only add chunks, if these do.
  module _ (appends : (c : ClientMsgChunk) (f : w.File) → Extends w f (misread c f).1) where
    client_messages_save-Extends :
        (c : Context) (ms : List ClientMsg) (f : w.File)
        → Extends w f (client_messages_save w misread c ms f).1
    unfolding client_messages_save
    client_messages_save-Extends c [] f = same-Extends w f
    client_messages_save-Extends c (m ∷ ms) f = elim (Bool-cases (is_unsaved m)) [
      | inl z ↦ rw (client_messages_save, z) (client_messages_save-Extends c ms f)
      | inr z ↦
          rw (client_messages_save, z)
            (then-Extends w f _ (client_messages_save w misread c ms)
              (appends (client_msg_chunk c m) f) (λ g. client_messages_save-Extends c ms g))
    ]

    one-Extends : (f : w.File) (r : ℕ × w.File) → Extends w f r.1 → Extends w f (or_one r).1
    unfolding or_one
    one-Extends f (rc, g) h = elim (Bool-cases (rc == 0)) [
      | inl z ↦ rw (or_one, z) h
      | inr z ↦ rw (or_one, z) h
    ]

    queues_save-Extends : (c : Context) (f : w.File) → Extends w f (queues_save w misread c f).1
    unfolding queues_save
    queues_save-Extends c f =
        then-Extends w f (saved c.in_inflight f)
          (λ g.
            and_then (saved c.in_queued g)
              (λ h. and_then (saved c.out_inflight h) (λ i. saved c.out_queued i)))
          (queue c.in_inflight f)
          (λ g.
            then-Extends w g (saved c.in_queued g)
              (λ h. and_then (saved c.out_inflight h) (λ i. saved c.out_queued i))
              (queue c.in_queued g)
              (λ h.
                then-Extends w h (saved c.out_inflight h) (λ i. saved c.out_queued i)
                  (queue c.out_inflight h) (λ i. queue c.out_queued i)))
      where
        saved : List ClientMsg → w.File → ℕ × w.File
        saved ms g = or_one (client_messages_save w misread c ms g)

        queue : (ms : List ClientMsg) (g : w.File) → Extends w g (saved ms g).1
        queue ms g = one-Extends g _ (client_messages_save-Extends c ms g)

    pub client_save-Extends :
        (now : ℕ) (cs : List Context) (f : w.File) → Extends w f (client_save w misread now cs f).1
    unfolding client_save
    client_save-Extends now [] f = same-Extends w f
    client_save-Extends now (c ∷ cs) f =
        elim (Bool-cases (is_persistent c && not (len16 c.id == 0))) [
          | inl z ↦
              rw (client_save, z)
                (then-Extends w f (w.write (client (client_chunk now c)) f)
                  (λ g. and_then (queues_save w misread c g) (client_save w misread now cs))
                  (write-Extends w (client (client_chunk now c)) f)
                  (λ g.
                    then-Extends w g (queues_save w misread c g) (client_save w misread now cs)
                      (queues_save-Extends c g) (λ h. client_save-Extends now cs h)))
          | inr z ↦ rw (client_save, z) (client_save-Extends now cs f)
        ]
