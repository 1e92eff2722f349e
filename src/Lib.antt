-- ===== src/Lib.antt =====
-- A verification library for tsheadroom, the hook service that compresses the messages of a request
-- with headroom-ai before they go to a language model.
--
-- A hook call (handler.go) is a POST with a JSON object that holds the request's body. The handler
-- undoes the coding of the call's body (encoding.go), finds the messages in it, has a pool of Python
-- workers compress them (pool.go), under settings that an HTTP API changes at run time (config.go),
-- answers "allow" or "modify", and counts what it did (metrics.go).
--
-- Modules:
--   Prelude    shared names, Boolean tests, lists, maps as lists of pairs (Prelude/Dict), and
--              bytes as lines (Prelude/Lines).
--   Go         what the program uses of Go's standard library, as far as it is written out here:
--              strings (byte-wise, with ASCII case and white space), strconv, FNV-1a, int64 with its
--              wrap-around, float64 with its roundings, and encoding/json up to single values.
--   Summary    handler.go: `summary` and its reasons.
--   Metrics    metrics.go: the counters; Metrics/Export is the text of /metrics.
--   Encoding   encoding.go: `reqCodecs`, `decodeRequestBody` and the decoders.
--   Version    pool.go: `supportsSavingsProfile`.
--   Protocol   pool.go: `compressRequest` and `compressResult`.
--   Config     config.go: the settings and `validate`; Config/Json is their decoding, Config/Store
--              the `settingsStore`, Config/Api the `configHandler`, Config/Api/Text its replies.
--   Handler    handler.go: Handler/Process is `process`, Handler/Affinity `affinityKey`,
--              Handler/Serve `ServeHTTP`.
--   Pool       pool.go: the slots and their steps; Pool/Events is `Compress`, `dispatch` and `Shutdown`
--              and the runs of all of them together; Pool/Routing is `slotFor`; Pool/Worker is `do`,
--              `awaitReady` and `spawn`, Pool/Session `readLine` and the calls of one worker,
--              Pool/Wire the same with the text of the requests, Pool/Outcome what `Compress`
--              returns from a run of the pool to the hook handler;
--              Pool/Process (with procattr_linux.go and procattr_other.go) is `startWorker`, `kill`
--              and `shutdown`; Pool/Crew is `runSlot` with its processes, step for step with the slot of
--              Pool; the other modules below Pool prove.
--   Server     main.go: the mux with its three handlers, on the state that they share.
--   Program    main.go: `main` and `listen`, and what they take and give back.
--
-- State and concurrency. A method that holds a mutex for its whole body (of `Metrics` and of
-- `settingsStore`) is one step on the state, so every interleaving of callers is a sequence of steps,
-- and the theorems on `Metrics` are about any sequence. A pointer field of `CompressSettings` is the
-- number of a cell of a heap, since `merge` copies the struct and so shares the cells with the live
-- settings. `none` as `Option Metrics` is the nil pointer. In Server a request is not overtaken on the
-- settings and the counters, while the pool after it and the cells at the time when the worker's
-- request is encoded are arguments. In Pool the end of a spawn, which tries again for as long as
-- starts fail, is one event.
--
-- Numbers. An int or int64 is its bit pattern below 2 ^ 64, and sums wrap around. A duration comes as
-- a whole number of microseconds, the resolution of `msSince`; as milliseconds, and in sums, it is a
-- float64 with its roundings, in units of 2 ^ -62 (Go/Double). Loops run over a list, but for two: the
-- digits of a number are given as many steps as the number has, and a number has no more digits than
-- that; the exponent of a float64 is looked for among 1086, and the largest is below 2 ^ 1086 units.
--
-- Parameters. `Json` reads and writes single JSON values, `Decompressors` is gzip and zstd, and
-- `Compressor` the pool as the handler sees it; `Run` and the arguments of the store say how the
-- clock, the gzip writer and the file system behaved. A theorem that relies on more than their type
-- names that as a hypothesis.
--
-- Not modelled: the log, the goroutine that copies stderr to it, the text of the pool's error
-- messages, HTTP but for the status, the type and the body of a reply, the redirects
-- of the mux, the parsing of flags, and the tailnet, the file system and the kernel
-- themselves, whose answers are arguments. The pool is taken to have one slot at
-- least. A write to a worker, a read from it and a start are taken to come to an end;
-- their results are arguments.
pub mod Config
pub mod Encoding
pub mod Go
pub mod Handler
pub mod Metrics
pub mod Pool
pub mod Prelude
pub mod Program
pub mod Protocol
pub mod Server
pub mod Summary
pub mod Version
