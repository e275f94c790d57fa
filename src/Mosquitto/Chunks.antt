-- ===== src/Mosquitto/Chunks.antt =====
-- mosquitto files/persist_write.c: the chunks of the database file, and the functions that write
-- them, which the repository does not hold, as an interface.
use double_swap.Base.{
  ℕ, ◌%◌, ◌^◌, ◌≡◌, ◌≢◌, Bool, ◌&&◌, Option, none, some, List, [], ◌∷◌, ◌++◌, Bytes, length, get_or,
  ◌==◌, if◌then◌else◌,
}

-- `struct P_msg_store`
pub record StoreChunk : Type 0 where
  pub store_id : ℕ
  pub expiry_time : ℕ
  pub payloadlen : ℕ
  pub source_mid : ℕ
  pub source_id_len : ℕ
  pub source_username_len : ℕ
  pub topic_len : ℕ
  pub source_port : ℕ
  pub qos : ℕ
  pub retain : ℕ
  pub payload : Bytes
  pub source_id : Option Bytes
  pub source_username : Option Bytes
  pub topic : Bytes
  pub properties : Bytes

-- `struct P_client`
pub record ClientChunk : Type 0 where
  pub session_expiry_time : ℕ
  pub session_expiry_interval : ℕ
  pub last_mid : ℕ
  pub id_len : ℕ
  pub username_len : ℕ
  pub listener_port : ℕ
  pub client_id : Bytes
  pub username : Option Bytes

-- `struct P_client_msg`
pub record ClientMsgChunk : Type 0 where
  pub store_id : ℕ
  pub mid : ℕ
  pub id_len : ℕ
  pub qos : ℕ
  pub retain_dup : ℕ
  pub direction : ℕ
  pub state : ℕ
  pub client_id : Bytes
  pub properties : Bytes

-- `struct P_sub`
pub record SubChunk : Type 0 where
  pub identifier : ℕ
  pub id_len : ℕ
  pub topic_len : ℕ
  pub qos : ℕ
  pub options : ℕ
  pub client_id : Bytes
  pub topic : Bytes

-- `struct PF_cfg`
pub record CfgChunk : Type 0 where
  pub last_db_id : ℕ
  pub shutdown : Bool
  pub dbid_size : ℕ

-- What is handed to `persist__chunk_*_write_v6`, by the function.
pub data Chunk : Type 0 where
  cfg : CfgChunk → Chunk
  msg_store : StoreChunk → Chunk
  client : ClientChunk → Chunk
  client_msg : ClientMsgChunk → Chunk
  sub : SubChunk → Chunk
  retain : ℕ → Chunk

-- An open database file: `write` gives the function's result, 0 for success, and the file behind
-- it; `chunks` are the chunks that were written whole. A write that succeeds adds its chunk, one
-- that fails adds none.
pub record Writer : Type 1 where
  pub File : Type 0
  pub write : Chunk → File → ℕ × File
  pub chunks : File → List Chunk
  pub chunks-write :
      (c : Chunk) (f : File) → (write c f).0 ≡ 0 → chunks (write c f).1 ≡ chunks f ++ c ∷ []
  pub chunks-failed : (c : Chunk) (f : File) → (write c f).0 ≢ 0 → chunks (write c f).1 ≡ chunks f

-- What follows a call that returns its result unless it is 0.
unfoldable pub and_then : {A : Type 0} → ℕ × A → (A → ℕ × A) → ℕ × A
and_then (rc, f) next = if rc == 0 then next f else (rc, f)

-- `if(...) return 1;`
unfoldable pub or_one : {A : Type 0} → ℕ × A → ℕ × A
or_one (rc, f) = if rc == 0 then (0, f) else (1, f)

-- `(uint16_t)strlen(s)`
abbrev pub len16 : Bytes → ℕ
len16 s = length s % 2 ^ 16

-- `!strncmp(topic, "$SYS", 4)`
unfoldable pub is_sys : Bytes → Bool
is_sys t = get_or t 0 0 == 36 && get_or t 1 0 == 83 && get_or t 2 0 == 89 && get_or t 3 0 == 83

-- The length of a string that may be NULL.
unfoldable pub optional_len16 : Option Bytes → ℕ
optional_len16 none = 0
optional_len16 (some s) = len16 s
