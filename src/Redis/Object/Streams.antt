-- ===== src/Redis/Object/Streams.antt =====
-- redis/rdb.c: the stream branch of `rdbSaveObject`, with `rdbSaveStreamPEL` and
-- `rdbSaveStreamConsumers`. Radix trees are lists in the order of their iterators.
pub mod Code
use double_swap.Base.{
  ℕ, ◌+◌, Option, none, some, List, [], ◌∷◌, Bytes, ◌==◌, if◌then◌else◌, length, Step, pure, ◌>>=◌,
}
use double_swap.Base.Int.{ℤ}
use double_swap.Redis.Format.{Format}
use double_swap.Redis.Host.{Host}
use double_swap.Redis.Rio.{Sink, Rdb, write_raw}
use double_swap.Redis.Counting.{◌⊕◌, save_each}
use double_swap.Redis.Length.{save_len}
use double_swap.Redis.Text.{save_raw_string}
use double_swap.Redis.Scalars.{save_millisecond_time}

pub record StreamId : Type 0 where
  pub ms : ℕ
  pub seq : ℕ

-- An entry of a pending list: the key of 16 bytes, and its NACK.
pub record Nack : Type 0 where
  pub id : Bytes
  pub delivery_time : ℤ
  pub delivery_count : ℕ

pub record Consumer : Type 0 where
  pub name : Bytes
  pub seen_time : ℤ
  pub active_time : ℤ
  pub pel : List Nack

pub record Group : Type 0 where
  pub name : Bytes
  pub last_id : StreamId
  pub entries_read : ℕ  -- the uint64_t image of a long long
  pub pel : List Nack
  pub consumers : List Consumer

-- No `cgroups` tree is an empty list, as `num_cgroups` makes it.
pub record StreamObject : Type 0 where
  pub listpacks : List (Bytes × Bytes)
  pub size : ℕ
  pub last_id : StreamId
  pub first_id : StreamId
  pub max_deleted_entry_id : StreamId
  pub entries_added : ℕ
  pub cgroups : List Group

module _ (f : Format) (w : Sink) where
  -- A pending entry with its NACK, and its identifier alone.
  unfoldable pub save_nack : Nack → Step (Rdb w) ℕ
  save_nack n =
      write_raw w n.id ⊕ save_millisecond_time w n.delivery_time ⊕ save_len f w n.delivery_count

  unfoldable pub save_nack_id : Nack → Step (Rdb w) ℕ
  save_nack_id n = write_raw w n.id

  -- `rdbSaveStreamPEL` with `nacks` and without
  unfoldable pub save_pel : List Nack → Step (Rdb w) ℕ
  save_pel ns = save_len f w (length ns) ⊕ save_each save_nack ns

  unfoldable pub save_pel_ids : List Nack → Step (Rdb w) ℕ
  save_pel_ids ns = save_len f w (length ns) ⊕ save_each save_nack_id ns

  unfoldable pub save_id : StreamId → Step (Rdb w) ℕ
  save_id i = save_len f w i.ms ⊕ save_len f w i.seq

module _ (f : Format) (e : Host) (w : Sink) where
  unfoldable pub save_consumer : Consumer → Step (Rdb w) ℕ
  save_consumer c =
      save_raw_string f e w c.name
      ⊕ save_millisecond_time w c.seen_time
      ⊕ save_millisecond_time w c.active_time
      ⊕ save_pel_ids f w c.pel

  -- `rdbSaveStreamConsumers`
  unfoldable pub save_consumers : List Consumer → Step (Rdb w) ℕ
  save_consumers cs = save_len f w (length cs) ⊕ save_each save_consumer cs

  unfoldable pub save_group : Group → Step (Rdb w) ℕ
  save_group g =
      save_raw_string f e w g.name
      ⊕ save_id f w g.last_id
      ⊕ save_len f w g.entries_read
      ⊕ save_pel f w g.pel
      ⊕ save_consumers g.consumers

  unfoldable pub save_listpack : Bytes × Bytes → Step (Rdb w) ℕ
  save_listpack (key, lp) = save_raw_string f e w key ⊕ save_raw_string f e w lp

  -- The stream branch of `rdbSaveObject`.
  unfoldable pub save_stream : StreamObject → Step (Rdb w) ℕ
  save_stream s =
      save_len f w (length s.listpacks)
      ⊕ save_each save_listpack s.listpacks
      ⊕ save_len f w s.size
      ⊕ save_id f w s.last_id
      ⊕ save_id f w s.first_id
      ⊕ save_id f w s.max_deleted_entry_id
      ⊕ save_len f w s.entries_added
      ⊕ save_len f w (length s.cgroups)
      ⊕ save_each save_group s.cgroups
