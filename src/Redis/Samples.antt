-- ===== src/Redis/Samples.antt =====
-- Concrete constants, streams and helpers, at which the hypotheses on what this repository does
-- not hold are met.
use Prim.Native.Nat.{ℕ, zero, suc, ◌+◌, ◌-◌, ◌^◌, ◌≤◌, ◌<◌}
use double_swap.Base.{
  ◌≡◌, refl, Bool, true, false, ◌&&◌, Option, none, some, [], ◌∷◌, ◌++◌, Bytes, ltb, leb, ◌==◌,
  if◌then◌else◌, length, arith,
}
use double_swap.Base.Int.{ℤ, pos, negsuc}
use double_swap.Redis.Format.{Format, IsFormat}
use double_swap.Redis.Opcodes.{Opcodes}
use double_swap.Redis.Host.{Host, IsHost}
use double_swap.Redis.Rio.{Sink, Source}
use double_swap.Redis.Scalars.{Floats}

abbrev pub rdb_format : Format
rdb_format = record {
  rdb_6bitlen = 0;
  rdb_14bitlen = 1;
  rdb_encval = 3;
  rdb_32bitlen = 0x80;
  rdb_64bitlen = 0x81;
  rdb_lenerr = 2 ^ 64 - 1;
  rdb_enc_int8 = 0;
  rdb_enc_int16 = 1;
  rdb_enc_int32 = 2;
  rdb_enc_lzf = 3;
}

pub rdb_format-IsFormat : IsFormat rdb_format
rdb_format-IsFormat = omega arith

abbrev pub rdb_opcodes : Opcodes
rdb_opcodes = record {
  rdb_type_string = 0;
  rdb_type_list = 1;
  rdb_type_list_quicklist_2 = 18;
  rdb_type_set_intset = 11;
  rdb_type_set = 2;
  rdb_type_set_listpack = 20;
  rdb_type_zset_listpack = 17;
  rdb_type_zset_2 = 5;
  rdb_type_hash_listpack = 16;
  rdb_type_hash_listpack_ex = 25;
  rdb_type_hash = 4;
  rdb_type_hash_metadata = 24;
  rdb_type_hash_listpack_ex_pre_ga = 23;
  rdb_type_hash_metadata_pre_ga = 22;
  rdb_type_stream_listpacks_3 = 21;
  quicklist_node_container_packed = 2;
  rdb_opcode_expiretime = 253;
  rdb_opcode_module_aux = 247;
  rdb_opcode_function_pre_ga = 246;
  rdb_opcode_expiretime_ms = 252;
  rdb_opcode_idle = 248;
  rdb_opcode_freq = 249;
  rdb_opcode_aux = 250;
  rdb_opcode_selectdb = 254;
  rdb_opcode_resizedb = 251;
  rdb_opcode_slot_info = 244;
  rdb_opcode_function2 = 245;
  rdb_opcode_eof = 255;
}

pub some_bytes_eq : {s t : Bytes} → some s ≡ some t → t ≡ s
some_bytes_eq e = cc

abbrev pub memory_sink : Sink
memory_sink = record {
  Stream = Bytes;
  write = λ p s. some (s ++ p);
  sent = λ s. s;
  sent-write = λ p s t e. some_bytes_eq e;
}

-- The first `n` bytes and the rest, if there are so many.
abbrev pub split_at : ℕ → Bytes → Option (Bytes × Bytes)
split_at zero s = some ([], s)
split_at (suc n) [] = none
split_at (suc n) (b ∷ s) = elim (split_at n s) [ none ↦ none | some (p, q) ↦ some (b ∷ p, q) ]

split_at-append : (p rest : Bytes) → split_at (length p) (p ++ rest) ≡ some (p, rest)
split_at-append [] rest = refl
split_at-append (b ∷ p) rest = ground (arith, split_at-append p rest)

pub memory_read :
    (p rest s : Bytes)
    → s ≡ p ++ rest
    → (t : Bytes) × (split_at (length p) s ≡ some (p, t)) × (t ≡ rest)
memory_read p rest s e = (rest, rw e (split_at-append p rest), refl)

abbrev pub memory_source : Source
memory_source = record {
  Stream = Bytes;
  read = split_at;
  pending = λ s. s;
  read-pending = memory_read;
}

abbrev digits_of : ℤ → Bytes
digits_of (pos n) = if ltb n 10 then (n + 48) ∷ [] else []
digits_of (negsuc n) = []

abbrev number_of : Bytes → Option ℤ
number_of [] = none
number_of (c ∷ []) = if leb 48 c && ltb c 58 then some (pos (c - 48)) else none
number_of (c ∷ d ∷ s) = none

abbrev all_are : ℕ → Bytes → Bool
all_are b [] = true
all_are b (c ∷ s) = c == b && all_are b s

abbrev pub repeat : ℕ → ℕ → Bytes
repeat zero b = []
repeat (suc n) b = b ∷ repeat n b

repeat-all_are : (b : ℕ) (s : Bytes) → all_are b s ≡ true → repeat (length s) b ≡ s
repeat-all_are b [] h = refl
repeat-all_are b (c ∷ s) h = ground (arith, repeat-all_are b s)

-- Compresses only a run of one byte, to that byte.
abbrev squeeze : Bytes → ℕ → Option Bytes
squeeze [] k = none
squeeze (b ∷ s) k = if all_are b s && leb 1 k then some (b ∷ []) else none

abbrev unsqueeze : Bytes → ℕ → Option Bytes
unsqueeze [] n = none
unsqueeze (b ∷ c) n = some (repeat n b)

abbrev pub plain_host : Host
plain_host = record {
  rdb_compression = true;
  allocates = λ n. true;
  ll2string = digits_of;
  string2ll = number_of;
  lzf_compress = squeeze;
  lzf_decompress = unsqueeze;
}

digits_canonical : (s : Bytes) {v : ℤ} → number_of s ≡ some v → digits_of v ≡ s
digits_canonical [] e = cc
digits_canonical (c ∷ []) e = ground arith
digits_canonical (c ∷ d ∷ s) e = cc

digits_short : (v : ℤ) → length (digits_of v) < 32
digits_short v = ground arith

squeeze_back : (s c : Bytes) (k : ℕ) → squeeze s k ≡ some c → unsqueeze c (length s) ≡ some s
squeeze_back [] c k e = cc
squeeze_back (b ∷ s) c k e = ground (arith, repeat-all_are b s)

squeeze_small : (s c : Bytes) (k : ℕ) → squeeze s k ≡ some c → (0 < length c) × (length c ≤ k)
squeeze_small [] c k e = absurd (ground arith)
squeeze_small (b ∷ s) c k e = ground arith

pub plain_host-IsHost : IsHost plain_host
plain_host-IsHost = record {
  canonical = λ s e. digits_canonical s e;
  printed = digits_short;
  inflates = squeeze_back;
  deflated = squeeze_small;
}

-- Doubles that are the digits 0 to 9, and nothing else.
abbrev pub digit_floats : Floats
digit_floats = record {
  Double = ℕ;
  is_nan = λ n. false;
  is_finite = λ n. ltb n 10;
  is_negative = λ n. false;
  print = λ n. (n + 48) ∷ [];
  scan = λ s. elim s [ [] ↦ none | c ∷ t ↦ some (c - 48) ];
  r_nan = 10;
  r_pos_inf = 11;
  r_neg_inf = 12;
}
