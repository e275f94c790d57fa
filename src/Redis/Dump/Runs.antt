-- ===== src/Redis/Dump/Runs.antt =====
-- The theorems on the dump at concrete input.
use double_swap.Base.{
  ℕ, ◌≡◌, refl, ◌⊎◌, Bool, true, false, none, some, [], ◌∷◌, Bytes, Step, pure, arith,
}
use double_swap.Base.Int.{pos, negsuc}
use double_swap.Redis.Samples.{
  rdb_format, rdb_format-IsFormat, rdb_opcodes, memory_sink, plain_host, plain_host-IsHost,
}
use double_swap.Redis.Rio.{Rdb, Refusal, pure-Writes}
use double_swap.Redis.Text.{sds_encoded}
use double_swap.Redis.Object.{string}
use double_swap.Redis.Dump.State.{Notes}
use double_swap.Redis.Dump.{Server, KeyEntry, Database, save_db}
use double_swap.Redis.Dump.Log.{Dumped, save_db-Dumped}
use double_swap.Redis.Dump.File.{Checksum, Snapshot, save_rio}
use double_swap.Redis.Dump.Code.{IsLoggable}
use double_swap.Redis.Dump.{value_sdslen}
use double_swap.Redis.Dump.Layout.{file_code, Ends, save_rio-Ends}

abbrev child : Server
child = record {
  policy = record { savelru = true; savelfu = false };
  cluster_enabled = true;
  in_fork_child = true;
  page_size = 4096;
}

abbrev greeting : KeyEntry
greeting = record {
  slot = 7;
  keystr = 107 ∷ [];
  key_address = 0x7000;
  value = string (sds_encoded (104 ∷ 105 ∷ []));
  value_address = 0x9ff0;
  foreign_size = none;
  expire = negsuc 0;
  idle_time = 3500;
  frequency = 0;
}

abbrev one_key : Database
one_key = record {
  entries = greeting ∷ [];
  expires_size = 0;
  slot_size = λ slot. 1;
  slot_expires = λ slot. 0;
}

abbrev blank : Notes
blank = record {
  page_log = [];
  key_counter = 0;
  info_updated_time = 0;
  child_infos = [];
  dismissed = [];
  earlier_reports = [];
  progress = record {
    keys_processed = 0;
    keys_to_process = 0;
    current_percentage = 0;
    reports = [];
  };
}

greeting-IsLoggable : IsLoggable child greeting
unfolding value_sdslen
greeting-IsLoggable = record {
  size = 2;
  readable = refl;
  page = omega arith;
  key_room = omega arith;
  value_room = omega arith;
}

save_db-Dumped_example :
    ((a : ℕ) × (t : Bytes) × (n' : Notes) × (save_db rdb_format rdb_opcodes plain_host memory_sink
          child
          (λ k. k)
          0
          one_key
          (λ k. k)
          (some [], blank)
        ≡ some (a, (some t, n')))
      × Dumped rdb_format rdb_opcodes plain_host child 0 one_key [] t blank n')
    ⊎ ((save_db rdb_format rdb_opcodes plain_host memory_sink child
            (λ k. k)
            0
            one_key
            (λ k. k)
            (some [], blank)
          ≡ none)
        × Refusal memory_sink)
save_db-Dumped_example =
    save_db-Dumped rdb_format rdb_format-IsFormat rdb_opcodes plain_host plain_host-IsHost
      memory_sink child (λ k. k) (λ k. k) 0 one_key [] blank (omega arith) (omega arith)
      (greeting-IsLoggable, tt)

-- A `rio` whose checksum stays 0.
abbrev no_checksum : Checksum memory_sink
no_checksum = record { start = λ s. s; cksum = λ s. 0; sent-start = λ s. refl }

abbrev small : Snapshot
small = record {
  rdb_version = 12;
  rdb_checksum = false;
  exclude_data = false;
  exclude_functions = false;
  info = record {
    redis_version = 55 ∷ [];
    wide_pointers = true;
    ctime = pos 9;
    used_memory = pos 4;
    rsi = none;
    aof_preamble = false;
  };
  functions = (35 ∷ []) ∷ [];
  databases = (one_key, (λ k. k)) ∷ [];
}

abbrev no_modules : Bool → Step (Rdb memory_sink) ℕ
no_modules before = pure 0

abbrev no_data : Bool → Bytes
no_data before = []

save_rio-Ends_example :
    (g : Notes → Notes) × Ends rdb_format rdb_format-IsFormat rdb_opcodes plain_host
      plain_host-IsHost memory_sink no_checksum child
      (λ k. k)
      no_modules
      no_data
      (λ b. (0, pure-Writes memory_sink 0))
      (save_rio rdb_format rdb_opcodes plain_host memory_sink no_checksum child
        (λ k. k)
        no_modules
        small)
      (file_code rdb_format rdb_opcodes plain_host child no_data small)
      g
save_rio-Ends_example =
    save_rio-Ends rdb_format rdb_format-IsFormat rdb_opcodes plain_host plain_host-IsHost
      memory_sink no_checksum child (λ k. k) no_modules no_data
      (λ b. (0, pure-Writes memory_sink 0)) small ((greeting-IsLoggable, tt), tt)
