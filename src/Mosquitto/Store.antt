-- ===== src/Mosquitto/Store.antt =====
-- mosquitto files/persist_write.c: `persist__message_store_save`. The product of the counts wraps as
-- an `int` of 32 bits, pointers have 8 bytes, and the files of both logs can be opened.
pub mod Saved
pub mod Shares
use double_swap.Base.{
  ℕ, suc, ◌+◌, ◌*◌, ◌/◌, ◌-◌, ◌%◌, ◌^◌, Bool, true, false, not, ◌&&◌, ◌||◌, Option, none, some,
  List, [], ◌∷◌, ◌++◌, map, Bytes, ltb, leb, ◌==◌, if◌then◌else◌,
}
use double_swap.Base.Int.{signed, ℤ, pos, negsuc, ◌-ℤ◌, leb_ℤ}
use double_swap.Trace.Pages.{mask_page, logged_pages, Tag, out_g_star, out_g}
use double_swap.Mosquitto.Chunks.{
  StoreChunk, Chunk, msg_store, Writer, len16, optional_len16, is_sys,
}

-- `struct mosquitto_msg_store`, with the addresses of the structure and of its payload.
pub record Stored : Type 0 where
  pub address : ℕ
  pub payload_address : ℕ
  pub db_id : ℕ
  pub message_expiry_time : ℕ
  pub payloadlen : ℕ
  pub payload : Bytes
  pub source_mid : ℕ
  pub source_id : Option Bytes
  pub source_username : Option Bytes
  pub topic : Option Bytes
  pub source_port : Option ℕ  -- `source_listener->port`, if there is a listener
  pub qos : ℕ
  pub retain : ℕ
  pub ref_count : ℕ
  pub dest_id_count : ℕ
  pub properties : Bytes

-- The counters of the share that is done, with the lines of dump_percentage.txt.
pub record Counters : Type 0 where
  pub keys_processed : ℕ
  pub keys_to_process : ℤ
  pub current_percentage : ℕ
  pub reports : List (ℕ × ℕ)

-- `/` of C, which rounds towards 0.
unfoldable pub divide : ℤ → ℕ → ℤ
divide (pos n) k = pos (n / k)
divide (negsuc n) k = pos 0 -ℤ pos (suc n / k)

unfoldable pub times : ℤ → ℕ → ℤ
times (pos n) k = pos (n * k)
times (negsuc n) k = pos 0 -ℤ pos (suc n * k)

-- A number as an `int` of 32 bits, which wraps.
unfoldable pub wrap32 : ℤ → ℤ
wrap32 (pos n) = signed (2 ^ 32) (n % 2 ^ 32)
wrap32 (negsuc n) = signed (2 ^ 32) (2 ^ 32 - 1 - n % 2 ^ 32)

unfoldable pub start_counters : ℤ → Counters
unfolding divide
start_counters msg_store_count = record {
  keys_processed = 0;
  keys_to_process = divide (msg_store_count -ℤ pos 53) 10;
  current_percentage = 10;
  reports = [];
}

-- One message more, at `now` seconds after the start.
unfoldable pub count_message : ℤ → ℕ → Counters → Counters
unfolding divide times wrap32
count_message msg_store_count now c =
    let processed = c.keys_processed + 1 in
    let percentage = c.current_percentage + 10 in
    if leb_ℤ c.keys_to_process (pos processed)
    then record {
      keys_processed = processed;
      keys_to_process = divide (wrap32 (times (msg_store_count -ℤ pos 53) percentage)) 100;
      current_percentage = percentage;
      reports = c.reports ++ (now, c.current_percentage) ∷ [];
    }
    else record c { keys_processed = processed }

-- The message with its topic, if the loop does not pass it over: it is referenced and has a topic,
-- and it is no $SYS message that is only retained.
unfoldable pub persistent_topic : Stored → Option Bytes
persistent_topic m = elim m.topic [
  | none ↦ none
  | some topic ↦
      if ltb m.ref_count 1 || (is_sys topic && leb m.ref_count 1 && m.dest_id_count == 0)
      then none
      else some topic
]

unfoldable pub port_of : Option ℕ → ℕ
port_of none = 0
port_of (some port) = port

unfoldable pub store_chunk : Stored → Bytes → StoreChunk
unfolding port_of optional_len16 is_sys
store_chunk m topic = record {
  store_id = m.db_id;
  expiry_time = m.message_expiry_time;
  payloadlen = m.payloadlen;
  source_mid = m.source_mid;
  source_id_len = optional_len16 m.source_id;
  source_username_len = optional_len16 m.source_username;
  topic_len = len16 topic;
  source_port = port_of m.source_port;
  qos = m.qos;
  retain = if is_sys topic then 0 else m.retain;
  payload = m.payload;
  source_id = m.source_id;
  source_username = m.source_username;
  topic = topic;
  properties = m.properties;
}

-- The pages that are logged of a message: those of its payload, and those of the first
-- `sizeof(stored)` bytes of its structure, which is the size of the pointer.
unfoldable pub message_pages : ℕ → Stored → List ℕ
message_pages page_size m =
    logged_pages page_size (mask_page page_size m.payload_address) m.payloadlen
    ++ logged_pages page_size (mask_page page_size m.address) 8

module _ (w : Writer) where
  pub record StoreState : Type 0 where
    pub file : w.File
    pub page_log : List (ℕ × Tag)
    pub counters : Counters

  unfoldable pub log_message : ℕ → Stored → Tag → StoreState → StoreState
  log_message page_size m tag s = record s {
    page_log = s.page_log ++ map (λ p. (p, tag)) (message_pages page_size m);
  }

  module _ (page_size : ℕ) (msg_store_count : ℤ) (clock : ℕ → ℕ) where
    -- One message that is saved, with the result of its write.
    unfoldable pub save_message : Stored → Bytes → StoreState → ℕ × StoreState
    unfolding log_message message_pages
    save_message m topic s =
        let before = log_message page_size m out_g_star s in
        let (rc, file') = w.write (msg_store (store_chunk m topic)) before.file in
        let written : StoreState = record before { file = file' } in
        let after = log_message page_size m out_g written in
        if rc == 0
        then (
          0,
          record after {
            counters =
                count_message msg_store_count (clock (s.counters.keys_processed + 1)) s.counters;
          },
        )
        else (rc, written)

    -- The loop over the store, which a write that fails ends.
    unfoldable pub save_messages : List Stored → StoreState → ℕ × StoreState
    save_messages [] s = (0, s)
    save_messages (m ∷ ms) s = elim (persistent_topic m) [
      | none ↦ save_messages ms s
      | some topic ↦
          let saved = save_message m topic s in
          let rest = save_messages ms saved.1 in if saved.0 == 0 then rest else saved
    ]

    -- `persist__message_store_save`, from an open file and a log on.
    unfoldable pub message_store_save : List Stored → w.File → List (ℕ × Tag) → ℕ × StoreState
    unfolding save_messages start_counters
    message_store_save ms file log =
        save_messages ms
          (record { file = file; page_log = log; counters = start_counters msg_store_count })
