-- ===== src/Redis/Load/File/RoundTrip.antt =====
-- A file that `rdbSaveRio` wrote, loaded by `rdbLoadRioWithLoadingCtx`.
use double_swap.Base.{
  ℕ, ◌^◌, ◌<◌, ◌≤◌, ◌≡◌, sym, ◌∙◌, ap, Bool, true, false, not, some, [], ◌∷◌, ◌++◌, append_assoc,
  Bytes, length, length-append, ◌%◌, if◌then◌else◌, Step, arith,
}
use double_swap.Redis.Format.{Format, IsFormat}
use double_swap.Redis.Opcodes.{Opcodes}
use double_swap.Redis.Host.{Host, IsHost}
use double_swap.Redis.Rio.{Sink, Source, Rdb, Writes}
use double_swap.Redis.Endian.{little_endian}
use double_swap.Redis.Counting.{all_codes}
use double_swap.Redis.Entries.Code.{when, info_code, function_code}
use double_swap.Redis.Dump.{Server}
use double_swap.Redis.Dump.State.{Notes}
use double_swap.Redis.Dump.File.{Checksum, Snapshot, magic, save_rio}
use double_swap.Redis.Dump.Layout.{IsLoggableData, databases_code, file_code, Ends, save_rio-Ends}
use double_swap.Redis.Load.{Structures, Outcome}
use double_swap.Redis.Load.Values.{Object, load_typed}
use double_swap.Redis.Load.File.{Loading, Config, ended, load_rio}
use double_swap.Redis.Load.File.Branches.{IsOpcodes}
use double_swap.Redis.Load.File.Rounds.{Advances, EndsIn, eof-EndsIn}
use double_swap.Redis.Load.File.Loadable.{IsLoadableFile, IsBlank}
use double_swap.Redis.Load.File.Framed.{IsAgreed, load_rio-framed}
use double_swap.Redis.Load.File.Content.{no_module_data, content, IsRestored, content-Advances}

-- The groups of a file for a request that leaves nothing out.
whole_file :
    (b d : Bool) (m i fs dbs end : Bytes)
    → b ≡ false
    → d ≡ false
    → m
        ++ (i
            ++ (when (not b) []
                ++ (when (not d) fs ++ ((if b then [] else dbs) ++ (when (not b) [] ++ end)))))
      ≡ m ++ ((i ++ (fs ++ dbs)) ++ end)
whole_file true d m i fs dbs end z y = absurd cc
whole_file false true m i fs dbs end z y = absurd cc
whole_file false false m i fs dbs end z y =
    ap (λ q. m ++ q)
      (sym (append_assoc i (fs ++ dbs) end ∙ ap (λ q. i ++ q) (append_assoc fs dbs end)))

module _ (f : Format) (h : IsFormat f) (o : Opcodes) (ho : IsOpcodes o) (e : Host) (i : IsHost e)
    (c : Structures) (r : Source) (g : Config) (others : ℕ → Step r.Stream (Outcome Object))
    (module_aux : Step r.Stream (Unit {0})) (cksum : r.Stream → ℕ) (v : Server) where
  content-loads :
      (x : Snapshot) (s : Loading Object) (fuel ck : ℕ) (rest : Bytes) (st : r.Stream)
      → IsLoadableFile o e c g x
      → IsBlank s
      → length (file_code f o e v no_module_data x) ≤ fuel
      → ck < 2 ^ 64
      → IsAgreed f o e r g (load_typed f o e c r others) module_aux cksum ck rest
      → r.pending st ≡ file_code f o e v no_module_data x ++ (little_endian 8 ck ++ rest)
      → (t : Loading Object) × (u : r.Stream) × (load_rio f o e r g
            (load_typed f o e c r others)
            module_aux
            cksum
            fuel
            s
            st
          ≡ some (ended t, u))
        × (r.pending u ≡ rest)
        × IsRestored f h o ho e i c r g others module_aux cksum v x t
  unfolding Advances EndsIn file_code
  content-loads x s fuel ck rest st file blank enough small agreed pending =
      let loader = load_typed f o e c r others in
      let (t, goes, restored) =
        content-Advances f h o ho e i c r g others module_aux cksum v x s file blank in
      let body = content f h o ho e i c r g others module_aux cksum v x in
      let end = o.rdb_opcode_eof % 256 ∷ [] in
      let ends = goes 1 end t (eof-EndsIn f o e r g loader module_aux cksum x.rdb_version t ho) in
      let shape =
        whole_file x.exclude_data x.exclude_functions (magic x.rdb_version) (info_code f o e x.info)
          (all_codes (function_code f o e) x.functions)
          (databases_code f o e v no_module_data 0 x.databases) end file.all_data
          file.all_functions in
      let (u, run, left) =
        load_rio-framed f o e r g loader module_aux cksum x.rdb_version ck fuel (body ++ end) rest s
          t st file.digits (omega (arith, file.recent)) file.known small agreed
          (λ m le. ends m (
            omega (
              arith,
              ap length shape,
              length-append (magic x.rdb_version) (body ++ end),
              length-append body end,
            )))
          (pending
            ∙ ap (λ p. p ++ (little_endian 8 ck ++ rest)) shape
            ∙ append_assoc (magic x.rdb_version) (body ++ end) _) in
      (t, u, run, left, restored)

-- With the type bytes and opcodes in the order of rdb.h, for a file of version 9 or more whose four
-- digits `atoi` reads back, with no data of modules, of which nothing is left out, on a server that
-- knows the version, has the databases, fewer than 2 ^ 63, a limit of expire times below 2 ^ 64 - 1
-- and as much memory as it asks for: where names and texts are shorter than 2 ^ 63, sizes, slots
-- and idle times below 2 ^ 63 and times of 64 bits, each name comes once in its database, no key
-- has expired, the values can be loaded and functions.c takes the functions, `sdslen` on each value
-- reads a size, as on every sds string, and not on an integer-encoded one, and keys and values end
-- a page or more below 2 ^ 64, `rdbSaveRio` fails only where the sink refuses a write, and
-- otherwise sends the file's bytes with the checksum behind. And from a stream of these bytes with
-- a checksum that is not checked, is 0 or is the one of `rio.c` there, a server with nothing
-- loaded, whose loop has a round for each byte at least, comes to the file's end, takes no byte
-- more, and has in each database the keys that were saved, in their order, with the attributes that
-- the policy saves and objects that hold the values, and the saved functions as its libraries.
pub file_round_trip :
    (f : Format) (h : IsFormat f) (o : Opcodes) (ho : IsOpcodes o) (e : Host) (i : IsHost e)
    (c : Structures) (w : Sink) (k : Checksum w) (r : Source) (g : Config)
    (others : ℕ → Step r.Stream (Outcome Object)) (module_aux : Step r.Stream (Unit {0}))
    (cksum : r.Stream → ℕ) (v : Server) (mstime : ℕ → ℕ) (modules : Bool → Step (Rdb w) ℕ)
    (sends : (b : Bool) → (a : ℕ) × Writes w (modules b) [] a) (x : Snapshot) (s : Loading Object)
    (fuel ck : ℕ) (rest : Bytes) (st : r.Stream)
    → IsLoadableFile o e c g x
    → IsBlank s
    → IsLoggableData v x
    → length (file_code f o e v no_module_data x) ≤ fuel
    → ck < 2 ^ 64
    → IsAgreed f o e r g (load_typed f o e c r others) module_aux cksum ck rest
    → r.pending st ≡ file_code f o e v no_module_data x ++ (little_endian 8 ck ++ rest)
    → ((n : Notes → Notes) × Ends f h o e i w k v mstime modules no_module_data sends
          (save_rio f o e w k v mstime modules x)
          (file_code f o e v no_module_data x)
          n)
      × ((t : Loading Object) × (u : r.Stream) × (load_rio f o e r g
              (load_typed f o e c r others)
              module_aux
              cksum
              fuel
              s
              st
            ≡ some (ended t, u))
          × (r.pending u ≡ rest)
          × IsRestored f h o ho e i c r g others module_aux cksum v x t)
file_round_trip f h o ho e i c w k r g others module_aux cksum v mstime modules sends x s fuel ck
      rest st file blank loggable enough small agreed pending =
    (
      save_rio-Ends f h o e i w k v mstime modules no_module_data sends x loggable,
      content-loads f h o ho e i c r g others module_aux cksum v x s fuel ck rest st file blank
          enough small agreed pending,
    )
