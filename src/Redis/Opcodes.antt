-- ===== src/Redis/Opcodes.antt =====
-- The type and opcode bytes of rdb.h that the writer emits or that the loader knows. The kinds of value and the kinds of
-- entry of a file are told apart by them.
use double_swap.Base.{ℕ}

pub record Opcodes : Type 0 where
  pub rdb_type_string : ℕ
  pub rdb_type_list : ℕ
  pub rdb_type_list_quicklist_2 : ℕ
  pub rdb_type_set_intset : ℕ
  pub rdb_type_set : ℕ
  pub rdb_type_set_listpack : ℕ
  pub rdb_type_zset_listpack : ℕ
  pub rdb_type_zset_2 : ℕ
  pub rdb_type_hash_listpack : ℕ
  pub rdb_type_hash_listpack_ex : ℕ
  pub rdb_type_hash : ℕ
  pub rdb_type_hash_metadata : ℕ
  pub rdb_type_hash_listpack_ex_pre_ga : ℕ
  pub rdb_type_hash_metadata_pre_ga : ℕ
  pub rdb_type_stream_listpacks_3 : ℕ
  pub quicklist_node_container_packed : ℕ
  pub rdb_opcode_expiretime : ℕ
  pub rdb_opcode_module_aux : ℕ
  pub rdb_opcode_function_pre_ga : ℕ
  pub rdb_opcode_expiretime_ms : ℕ
  pub rdb_opcode_idle : ℕ
  pub rdb_opcode_freq : ℕ
  pub rdb_opcode_aux : ℕ
  pub rdb_opcode_selectdb : ℕ
  pub rdb_opcode_resizedb : ℕ
  pub rdb_opcode_slot_info : ℕ
  pub rdb_opcode_function2 : ℕ
  pub rdb_opcode_eof : ℕ
