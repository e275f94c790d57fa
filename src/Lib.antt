-- ===== src/Lib.antt =====
-- This library models the programs of the repository that were instrumented to follow a memory page
-- through a dump, the RDB writer of Redis and the persistence of Mosquitto, both with the log that was
-- added to them, and the programs that load them.
--
-- redis/rdb.c, the codec. `Redis.Rio` has the two sides of rio.c as interfaces: a Sink takes bytes or
-- refuses them, a Source gives bytes or ends. A saver or loader is a `Step`: a function of the
-- stream that returns a result and the next stream, or nothing where the C function returns -1 or
-- NULL. A null `rio` pointer, with which rdbSavedObjectLen counts without writing, is the `none` of
-- `Rdb`. `Redis.Length` is rdbSaveLen, rdbLoadLenByRef and rdbLoadLen; `Redis.Integer` is
-- rdbEncodeInteger, rdbTryIntegerEncoding and rdbLoadIntegerObject; `Redis.Text` is rdbSaveLzfBlob to
-- rdbSaveStringObject, rdbLoadLzfStringObject and rdbGenericLoadStringObject; `Redis.Scalars` has the
-- type bytes, times and floating point numbers; `Redis.Object` is rdbSaveObjectType, rdbSaveObject
-- and rdbSavedObjectLen, with streams in `Redis.Object.Streams`.
--
-- redis/rdb.c, the dump. `Redis.Entries` is rdbSaveKeyValuePair, the auxiliary fields and
-- rdbSaveFunctions; `Redis.Dump` is rdbSaveDb, over the stream and the `Notes` that it leaves for
-- others: the page log, the reports, the count of keys, the messages of the child and the hints of
-- dismissObject; `Redis.Dump.File` is rdbSaveRio and rdbSaveRioWithEOFMark. The clocks are
-- functions of the number of keys saved, and the lines of a log are kept without their time of
-- day. Where a save fails, the model keeps neither the stream nor the notes. The log calls sdslen
-- on values of every type: what it reads where the value is no sds is the entry's `foreign_size`,
-- and on an integer-encoded string, or where that read crashes, a save has no result.
--
-- redis/rdb.c, saving. `Redis.Saving.Disk` is rdbSaveInternal, rdbSaveToFile and rdbSave on a
-- directory, with the outcome of each call of the system given by `Calls`, and what a file holds
-- where its flush, sync or close fails; `Redis.Saving.Child` is rdbSaveBackground, the handlers of
-- the child's end and killRDBChild; `Redis.Saving.Commands` is SAVE, BGSAVE and
-- rdbPopulateSaveInfo; `Redis.Saving.Reach` is the relation of the steps that the parent may take.
-- redisFork and the child's bookkeeping in server.c are the interface `Children`.
--
-- redis/rdb.c, loading. `Redis.Load` has the branches of rdbLoadObject: `Redis.Load.Lists`,
-- `Sets`, `Sorted` and `Hashes` those that read entry by entry, with the choice between a compact
-- encoding and a table that each makes on the way, `Redis.Load.Packed` those that take one string,
-- with lpValidateIntegrityAndDups, and `Redis.Load.Values` the choice by the type byte.
-- `Structures` has what listpack.c, intset.c, dict.c and the configuration decide: which listpacks
-- are valid, how long they are, which tables can be expanded. A listpack is the list of its
-- entries, a table the list of what was added in this order. A report of a corrupt file is a
-- failure of the step, whether it ends the process or the branch returns NULL behind it.
-- `Redis.Load.File` is rdbLoadRioWithLoadingCtx: a round per opcode on the record `Loading`, over
-- any loader of values, with the function libraries, the fields that a file tells of its
-- replication, and the keyspace as a list of keys for each database. The loop runs on fuel, a unit
-- for each opcode; each takes a byte of the stream at least, so that the length of a file is
-- enough. `Redis.Load.File.Rounds` to `Content` follow a file group by group; `IsOpcodes` in
-- `Branches` is what they take from the constants of rdb.h.
--
-- redis/rdb.c, the log. `Trace.Pages` is the loop that logs the pages of a saved object, and
-- `Trace.Progress` the report of each tenth of the keys, both parts of rdbSaveDb.
--
-- Code that the repository does not hold is a parameter: the constants of rdb.h and server.h
-- (`Redis.Format`, `Redis.Opcodes`), rio.c (`Redis.Rio`), ll2string, string2ll, the LZF library
-- and the allocator (`Redis.Host`), the printing and parsing of doubles (`Floats` in
-- `Redis.Scalars`). What the code relies on is in `IsFormat`, `IsHost` and the laws of the
-- interfaces; `Redis.Samples` has an instance of each, on which the tests and examples run. Bytes
-- and lengths are natural numbers, with `% 2 ^ w` where the code's types wrap; signed integers are
-- `Base.Int.ℤ`.
--
-- The loops are recursions on the lists that they walk. The page loop runs on fuel, the length in
-- pages and two more, which covers every page between its bounds. Within a page of 2 ^ 64 the
-- code's loop would not end; the theorems on a dump leave such objects out.
--
-- The generators. `Generators.Ranges` is the share of each thread of redis/redis_injector.c and
-- mosquitto/mosquitto_injector.c; `Generators.Injector` is injectKeys of the first, a thread's
-- batches of commands and replies, with the counter that the threads share under
-- `Injector.Counter`, where a step is one reply of one thread; `Generators.Publisher` is publisher
-- of the second, and the duration that its main prints; `Generators.Texts` has the strings of
-- both. `Generators.Touch` is the filling of a buffer in test apps/test.c, loop.c and
-- multi_thread.c. Whether a server answers, accepts or allocates is a function; a thread whose
-- connection fails or that misses a reply leaves, and where the C leaves a pointer unset or an
-- `int` overflows its run is `undefined`. The batches of a thread run on fuel, as many rounds as
-- the thread has keys and one more, and the pages of a buffer on two rounds more than whole pages.
--
-- mosquitto/mosquitto files/persist_write.c. `Mosquitto.Chunks` has the chunks of the database
-- file and, as the interface `Writer`, the functions that write them: a write returns 0 and adds
-- its chunk, or it adds none. `Mosquitto.Store` is persist__message_store_save with the page log
-- and the report of each tenth, `Mosquitto.Clients` persist__client_save and
-- persist__client_messages_save, `Mosquitto.Subs` persist__subs_save and persist__subs_save_all on
-- the tree of topic levels, `Mosquitto.Retained` persist__retain_save and
-- persist__retain_save_all, and `Mosquitto.Backup` persist__backup, where `System` has the answers
-- of unlink, fopen, malloc, rename, of the writes of the header, and of fflush, fsync and fclose,
-- which the code does not read, with what is on the disk where one of them fails.
-- persist__client_messages_save hands its chunk to the writer of another structure, which reads
-- beyond it: that write is the parameter `misread`, of which only is taken that it adds to the
-- file.
--
-- mosquitto/mosquitto files/loop.c. `Mosquitto.Loop` is the part of mosquitto_main_loop that
-- saves: `round` is what a round does on a typed K, for the autosave and on a signal, and a `Run`
-- puts rounds between any changes that the other handlers make to the broker.
-- `Mosquitto.Loop.Expiry` is read_message_expiry_interval on the list of properties,
-- `Mosquitto.Loop.Disconnect` is do_disconnect by the calls that it makes. What a character holds
-- that read did not set is left to the input.
--
-- Not modelled: the loading of streams, of modules and of the types that the server does not write
-- any more (ziplists, zipmaps, scores in text form), which are the parameter `others`; rdbLoad,
-- which opens the file, and its statistics; rdbSaveToSlavesSockets, values and auxiliary data of
-- modules, whose code is a callback; the text of the server's log; queue_plugin_msgs and the
-- handlers that Mosquitto's main loop calls; rmap.c and memory.c of Linux and kvm-all.c of QEMU,
-- which are copies of the files of these projects with lines that log; the subscribers of the load
-- generator, which only call their library; the scripts and the measurements.
pub mod Base
pub mod Generators
pub mod Mosquitto
pub mod Redis
pub mod Trace
