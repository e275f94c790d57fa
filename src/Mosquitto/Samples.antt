-- ===== src/Mosquitto/Samples.antt =====
-- Files, messages and brokers for the runs.
use double_swap.Base.{
  ℕ, ◌≡◌, ◌≢◌, refl, sym, ap, Bool, true, false, Option, none, some, List, [], ◌∷◌, ◌++◌, Bytes,
  length, ltb, arith,
}
use double_swap.Base.Int.{pos}
use double_swap.Mosquitto.Chunks.{StoreChunk, ClientMsgChunk, Chunk, msg_store, Writer}
use double_swap.Mosquitto.Writes.{write-Extends}
use double_swap.Mosquitto.Store.{Stored}
use double_swap.Mosquitto.Clients.{ClientMsg, Context}
use double_swap.Mosquitto.Subs.{Subleaf, Subhier, subhier, leafless, branch}
use double_swap.Mosquitto.Backup.{Broker, missing, removed, System, Disk}

-- A file that has room for `n` chunks.
abbrev pub put : Bool → Chunk → List Chunk → ℕ × List Chunk
put true c f = (0, f ++ c ∷ [])
put false c f = (1, f)

pub put-zero :
    (b : Bool) (c : Chunk) (f : List Chunk) → (put b c f).0 ≡ 0 → (put b c f).1 ≡ f ++ c ∷ []
put-zero true c f h = refl
put-zero false c f h = absurd (omega (arith, h))

pub put-failed : (b : Bool) (c : Chunk) (f : List Chunk) → (put b c f).0 ≢ 0 → (put b c f).1 ≡ f
put-failed true c f h = absurd (h refl)
put-failed false c f h = refl

abbrev pub room_for : ℕ → Writer
room_for n = record {
  File = List Chunk;
  write = λ c f. put (ltb (length f) n) c f;
  chunks = λ f. f;
  chunks-write = λ c f. put-zero (ltb (length f) n) c f;
  chunks-failed = λ c f. put-failed (ltb (length f) n) c f;
}

-- A file that takes every chunk.
abbrev pub endless : Writer
endless = record {
  File = List Chunk;
  write = λ c f. (0, f ++ c ∷ []);
  chunks = λ f. f;
  chunks-write = λ c f h. refl;
  chunks-failed = λ c f h. absurd (h refl);
}

abbrev pub message : ℕ → Bytes → Stored
message k t = record {
  address = 8192;
  payload_address = 12288;
  db_id = k;
  message_expiry_time = 0;
  payloadlen = 2;
  payload = 104 ∷ 105 ∷ [];
  source_mid = 7;
  source_id = some (99 ∷ []);
  source_username = none;
  topic = some t;
  source_port = some 1883;
  qos = 1;
  retain = 1;
  ref_count = 1;
  dest_id_count = 0;
  properties = [];
}

-- "a", and "$SYS", which is only retained.
abbrev pub two_messages : List Stored
two_messages = message 1 (97 ∷ []) ∷ message 2 (36 ∷ 83 ∷ 89 ∷ 83 ∷ []) ∷ []

-- What the writer of stored messages could read off a client message.
abbrev garbage : ClientMsgChunk → StoreChunk
garbage c = record {
  store_id = c.store_id;
  expiry_time = 0;
  payloadlen = c.mid;
  source_mid = 0;
  source_id_len = c.id_len;
  source_username_len = 0;
  topic_len = 0;
  source_port = 0;
  qos = 0;
  retain = 0;
  payload = [];
  source_id = none;
  source_username = none;
  topic = [];
  properties = [];
}

abbrev pub waiting : ClientMsg
waiting = record {
  store = message 1 (97 ∷ []);
  store_topic = 36 ∷ 83 ∷ 89 ∷ 83 ∷ [];
  mid = 3;
  qos = 1;
  retain = 0;
  dup = 0;
  direction = 1;
  state = 2;
  properties = [];
}

abbrev pub subscriber : Context
subscriber = record {
  id = 99 ∷ [];
  username = none;
  listener_port = some 1883;
  bridge = none;
  clean_start = false;
  session_expiry_time = 0;
  session_expiry_interval = 60;
  last_mid = 3;
  in_inflight = [];
  in_queued = [];
  out_inflight = waiting ∷ [];
  out_queued = [];
}

abbrev pub durable : Subleaf
durable = record {
  identifier = 5;
  id = some (99 ∷ []);
  clean_start = false;
  qos = 1;
  no_local = true;
  retain_as_published = false;
}

-- The root of the topics without "$", with a subscription to "a/b".
abbrev pub a_b : Subhier
a_b = subhier [] 0 [] (
    branch
      (subhier [] 0 [] (
        branch
          (subhier (97 ∷ []) 1 [] (branch (subhier (98 ∷ []) 1 (durable ∷ []) leafless) leafless))
          leafless))
      leafless)

abbrev pub broker : Broker
broker = record {
  config = some (record {
    persistence = true;
    persistence_filepath = some (100 ∷ []);
    autosave_interval = 1800;
    autosave_on_changes = false;
  });
  last_db_id = 2;
  now_s = 500;
  now_real_s = 1000;
  persistence_changes = 4;
  msg_store_count = pos 54;
  msg_store = two_messages;
  contexts_by_id = subscriber ∷ [];
  normal_subs = a_b ∷ [];
  shared_subs = [];
  retains = [];
}

abbrev pub or_empty : Option (List Chunk) → List Chunk
or_empty none = []
or_empty (some f) = f

-- Room for `n` chunks, and a `rename` that succeeds or not.
abbrev pub answers : (n : ℕ) → Bool → System (room_for n)
answers n renames = record {
  unlink = missing;
  opened = some [];
  opened-chunks = λ f h. sym (ap or_empty h);
  header = λ f. (true, f);
  header-chunks = λ f. refl;
  renames = renames;
  outfile_memory = true;
  topic_memory = λ k. true;
  misread = λ c f. (room_for n).write (msg_store (garbage c)) f;
  misread-appends = λ c f. write-Extends (room_for n) (msg_store (garbage c)) f;
  flushes = true;
  syncs = true;
  closes = true;
  torn = λ f. [];
  page_size = 4096;
  clock = λ i. i;
  dbid_size = 8;
}

abbrev pub empty_disk : (n : ℕ) → Disk (room_for n)
empty_disk n = record { database = none; outfile = none; page_log = []; reports = [] }

-- Nothing fails, on a file that takes every chunk.
abbrev pub willing : System endless
willing = record {
  unlink = removed;
  opened = some [];
  opened-chunks = λ f h. sym (ap or_empty h);
  header = λ f. (true, f);
  header-chunks = λ f. refl;
  renames = true;
  outfile_memory = true;
  topic_memory = λ k. true;
  misread = λ c f. endless.write (msg_store (garbage c)) f;
  misread-appends = λ c f. write-Extends endless (msg_store (garbage c)) f;
  flushes = true;
  syncs = true;
  closes = true;
  torn = λ f. [];
  page_size = 4096;
  clock = λ i. i;
  dbid_size = 8;
}
