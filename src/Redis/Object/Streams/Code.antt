-- ===== src/Redis/Object/Streams/Code.antt =====
-- The bytes of a stream, and that the stream branch writes and counts them.
use double_swap.Base.{List, ◌++◌, Bytes, length}
use double_swap.Base.Int.{ℤ}
use double_swap.Redis.Format.{Format, IsFormat}
use double_swap.Redis.Host.{Host, IsHost}
use double_swap.Redis.Rio.{Sink, write_raw-Writes}
use double_swap.Redis.Endian.{little_endian}
use double_swap.Redis.Counting.{all_codes, Counts, ⊕-Counts, save_each-Counts}
use double_swap.Redis.Length.Code.{len_code, save_len-Writes}
use double_swap.Redis.Text.Code.{string_code, save_raw_string-Writes}
use double_swap.Redis.Scalars.{word64, save_millisecond_time}
use double_swap.Redis.Object.Streams.{
  StreamId, Nack, Consumer, Group, StreamObject, save_nack, save_nack_id, save_pel, save_pel_ids,
  save_id, save_consumer, save_consumers, save_group, save_listpack, save_stream,
}

abbrev pub time_code : ℤ → Bytes
time_code t = little_endian 8 (word64 t)

abbrev pub nack_id : Nack → Bytes
nack_id n = n.id

module _ (f : Format) where
  abbrev pub nack_code : Nack → Bytes
  nack_code n = n.id ++ (time_code n.delivery_time ++ len_code f n.delivery_count)

  abbrev pub id_code : StreamId → Bytes
  id_code i = len_code f i.ms ++ len_code f i.seq

  abbrev pub pel_code : List Nack → Bytes
  pel_code ns = len_code f (length ns) ++ all_codes nack_code ns

  abbrev pub pel_ids_code : List Nack → Bytes
  pel_ids_code ns = len_code f (length ns) ++ all_codes nack_id ns

module _ (f : Format) (e : Host) where
  abbrev pub consumer_code : Consumer → Bytes
  consumer_code c =
      string_code f e c.name
      ++ (time_code c.seen_time ++ (time_code c.active_time ++ pel_ids_code f c.pel))

  abbrev pub group_code : Group → Bytes
  group_code g =
      string_code f e g.name
      ++ (id_code f g.last_id
          ++ (len_code f g.entries_read
              ++ (pel_code f g.pel
                  ++ (len_code f (length g.consumers) ++ all_codes consumer_code g.consumers))))

  abbrev pub listpack_code : Bytes × Bytes → Bytes
  listpack_code (key, lp) = string_code f e key ++ string_code f e lp

  abbrev pub stream_code : StreamObject → Bytes
  stream_code s =
      len_code f (length s.listpacks)
      ++ (all_codes listpack_code s.listpacks
          ++ (len_code f s.size
              ++ (id_code f s.last_id
                  ++ (id_code f s.first_id
                      ++ (id_code f s.max_deleted_entry_id
                          ++ (len_code f s.entries_added
                              ++ (len_code f (length s.cgroups)
                                  ++ all_codes group_code s.cgroups)))))))

module _ (w : Sink) where
  pub save_time-Counts : (t : ℤ) → Counts w (save_millisecond_time w t) (time_code t)
  unfolding save_millisecond_time
  save_time-Counts t = write_raw-Writes w (time_code t)

module _ (f : Format) (h : IsFormat f) (w : Sink) where
  save_nack-Counts : (n : Nack) → Counts w (save_nack f w n) (nack_code f n)
  unfolding save_nack
  save_nack-Counts n =
      ⊕-Counts w (write_raw-Writes w n.id)
        (⊕-Counts w (save_time-Counts w n.delivery_time) (save_len-Writes f h w n.delivery_count))

  save_nack_id-Counts : (n : Nack) → Counts w (save_nack_id f w n) (nack_id n)
  unfolding save_nack_id
  save_nack_id-Counts n = write_raw-Writes w n.id

  save_pel-Counts : (ns : List Nack) → Counts w (save_pel f w ns) (pel_code f ns)
  unfolding save_pel
  save_pel-Counts ns =
      ⊕-Counts w (save_len-Writes f h w (length ns))
        (save_each-Counts w _ (nack_code f) save_nack-Counts ns)

  save_pel_ids-Counts : (ns : List Nack) → Counts w (save_pel_ids f w ns) (pel_ids_code f ns)
  unfolding save_pel_ids
  save_pel_ids-Counts ns =
      ⊕-Counts w (save_len-Writes f h w (length ns))
        (save_each-Counts w _ nack_id save_nack_id-Counts ns)

  save_id-Counts : (i : StreamId) → Counts w (save_id f w i) (id_code f i)
  unfolding save_id
  save_id-Counts i = ⊕-Counts w (save_len-Writes f h w i.ms) (save_len-Writes f h w i.seq)

module _ (f : Format) (h : IsFormat f) (e : Host) (i : IsHost e) (w : Sink) where
  save_consumer-Counts : (c : Consumer) → Counts w (save_consumer f e w c) (consumer_code f e c)
  unfolding save_consumer
  save_consumer-Counts c = ⊕-Counts w (save_raw_string-Writes f h e i w c.name) (
      ⊕-Counts w (save_time-Counts w c.seen_time)
        (⊕-Counts w (save_time-Counts w c.active_time) (save_pel_ids-Counts f h w c.pel)))

  save_group-Counts : (g : Group) → Counts w (save_group f e w g) (group_code f e g)
  unfolding save_group save_consumers
  save_group-Counts g = ⊕-Counts w (save_raw_string-Writes f h e i w g.name) (
      ⊕-Counts w (save_id-Counts f h w g.last_id) (
        ⊕-Counts w (save_len-Writes f h w g.entries_read) (
          ⊕-Counts w (save_pel-Counts f h w g.pel) (
            ⊕-Counts w (save_len-Writes f h w (length g.consumers))
              (save_each-Counts w _ (consumer_code f e) save_consumer-Counts g.consumers)))))

  save_listpack-Counts :
      (l : Bytes × Bytes) → Counts w (save_listpack f e w l) (listpack_code f e l)
  unfolding save_listpack
  save_listpack-Counts (key, lp) =
      ⊕-Counts w (save_raw_string-Writes f h e i w key) (save_raw_string-Writes f h e i w lp)

  pub save_stream-Counts : (s : StreamObject) → Counts w (save_stream f e w s) (stream_code f e s)
  unfolding save_stream
  save_stream-Counts s = ⊕-Counts w (save_len-Writes f h w (length s.listpacks)) (
      ⊕-Counts w (save_each-Counts w _ (listpack_code f e) save_listpack-Counts s.listpacks) (
        ⊕-Counts w (save_len-Writes f h w s.size) (
          ⊕-Counts w (save_id-Counts f h w s.last_id) (
            ⊕-Counts w (save_id-Counts f h w s.first_id) (
              ⊕-Counts w (save_id-Counts f h w s.max_deleted_entry_id) (
                ⊕-Counts w (save_len-Writes f h w s.entries_added) (
                  ⊕-Counts w (save_len-Writes f h w (length s.cgroups))
                    (save_each-Counts w _ (group_code f e) save_group-Counts s.cgroups))))))))
