-- ===== src/Mosquitto/Clients.antt =====
-- mosquitto files/persist_write.c: `persist__client_save` and `persist__client_messages_save`, with
-- WITH_BRIDGE.
pub mod Rows
use double_swap.Base.{
  ℕ, ◌+◌, ◌-◌, ◌*◌, ◌%◌, ◌^◌, Bool, true, false, not, ◌&&◌, ◌||◌, Option, none, some, List, [], ◌∷◌,
  Bytes, leb, ◌==◌, if◌then◌else◌,
}
use double_swap.Mosquitto.Chunks.{
  ClientChunk, ClientMsgChunk, client, Writer, and_then, or_one, len16, optional_len16, is_sys,
}
use double_swap.Mosquitto.Store.{Stored, port_of}

-- `struct mosquitto_client_msg`; its `store` has a topic, as `strncmp` needs one.
pub record ClientMsg : Type 0 where
  pub store : Stored
  pub store_topic : Bytes
  pub mid : ℕ
  pub qos : ℕ
  pub retain : ℕ
  pub dup : ℕ
  pub direction : ℕ
  pub state : ℕ
  pub properties : Bytes

-- `struct mosquitto`, as far as it is saved; `bridge` is its `clean_start_local`, if it is a bridge.
pub record Context : Type 0 where
  pub id : Bytes
  pub username : Option Bytes
  pub listener_port : Option ℕ
  pub bridge : Option Bool
  pub clean_start : Bool
  pub session_expiry_time : ℕ
  pub session_expiry_interval : ℕ
  pub last_mid : ℕ
  pub in_inflight : List ClientMsg
  pub in_queued : List ClientMsg
  pub out_inflight : List ClientMsg
  pub out_queued : List ClientMsg

-- A $SYS message that has not been saved either.
unfoldable pub is_unsaved : ClientMsg → Bool
is_unsaved m = is_sys m.store_topic && leb m.store.ref_count 1 && m.store.dest_id_count == 0

unfoldable pub client_msg_chunk : Context → ClientMsg → ClientMsgChunk
client_msg_chunk c m = record {
  store_id = m.store.db_id;
  mid = m.mid;
  id_len = len16 c.id;
  qos = m.qos;
  retain_dup = (m.retain % 16 * 16 + m.dup % 16) % 2 ^ 8;
  direction = m.direction % 2 ^ 8;
  state = m.state % 2 ^ 8;
  client_id = c.id;
  properties = m.properties;
}

unfoldable pub is_persistent : Context → Bool
is_persistent c = elim c.bridge [
  | none ↦ not c.clean_start
  | some clean_start_local ↦ not clean_start_local
]

-- The time at which the session of a client ends, when it is saved at `now`.
unfoldable pub session_end : ℕ → Context → ℕ
session_end now c =
    if not (c.session_expiry_interval == 0)
      && not (c.session_expiry_interval == 2 ^ 32 - 1)
      && c.session_expiry_time == 0
    then c.session_expiry_interval + now
    else c.session_expiry_time

unfoldable pub client_chunk : ℕ → Context → ClientChunk
unfolding session_end optional_len16 port_of
client_chunk now c = record {
  session_expiry_time = session_end now c;
  session_expiry_interval = c.session_expiry_interval;
  last_mid = c.last_mid;
  id_len = len16 c.id;
  username_len = optional_len16 c.username;
  listener_port = port_of c.listener_port;
  client_id = c.id;
  username = c.username;
}

-- `misread` is `persist__chunk_message_store_write_v6` on a `struct P_client_msg`, which is not its
-- structure: it reads past the end of it, so that neither what it writes nor its result is known.
module _ (w : Writer) (misread : ClientMsgChunk → w.File → ℕ × w.File) where
  unfoldable pub client_messages_save : Context → List ClientMsg → w.File → ℕ × w.File
  unfolding is_unsaved and_then
  client_messages_save c [] f = (0, f)
  client_messages_save c (m ∷ queue) f =
      if is_unsaved m
      then client_messages_save c queue f
      else and_then (misread (client_msg_chunk c m) f) (client_messages_save c queue)

  -- The four queues of a client.
  unfoldable pub queues_save : Context → w.File → ℕ × w.File
  unfolding client_messages_save and_then or_one
  queues_save c f = and_then (or_one (client_messages_save c c.in_inflight f)) (λ g.
      and_then (or_one (client_messages_save c c.in_queued g)) (λ h.
        and_then (or_one (client_messages_save c c.out_inflight h))
          (λ i. or_one (client_messages_save c c.out_queued i))))

  unfoldable pub client_save : ℕ → List Context → w.File → ℕ × w.File
  unfolding is_persistent client_chunk queues_save and_then
  client_save now [] f = (0, f)
  client_save now (c ∷ contexts) f =
      if is_persistent c && not (len16 c.id == 0)
      then and_then (w.write (client (client_chunk now c)) f)
          (λ g. and_then (queues_save c g) (client_save now contexts))
      else client_save now contexts f
