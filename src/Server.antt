-- ===== src/Server.antt =====
-- main.go: the three handlers behind one mux, on the state that they share; and what they ask the pool.
pub mod Routes
pub mod Counting
mod CountingTests
pub mod Tracing
mod TracingTests
pub mod Tests
use tsheadroom.Prelude.{
  ℕ, Bytes, codes, bytes_eq, Bool, true, false, ◌&&◌, ◌||◌, ◌++◌, List, [], ◌∷◌, Option, none, some,
  length, if◌then◌else◌,
}
use tsheadroom.Go.Int64.{Int64}
use tsheadroom.Go.Json.{Json}
use tsheadroom.Encoding.{Stream, Decompressors}
use tsheadroom.Config.{Heap, CompressSettings, view, text_enabled}
use tsheadroom.Config.Store.{Store, get_settings}
use tsheadroom.Config.Api.{ConfigRequest, Reply, serve_config}
use tsheadroom.Protocol.{Compressor}
use tsheadroom.Metrics.Export.{MetricsReply, serve_metrics}
use tsheadroom.Handler.Serve.{Handler, HookRequest, Run, State, HookReply, serve_hook}
use tsheadroom.Pool.{Pool}

-- What `main` gives the handlers, once and for all.
pub record Setup : Type 0 where
  pub json : Json
  pub decompressors : Decompressors
  pub verbose : Bool
  pub gzip_response : Bool
  pub accept_compressed : Bool

-- The settings, the counters with the lines written, the pool, and the version that its workers
-- reported.
pub record Server : Type 0 where
  pub store : Store
  pub state : State
  pub pool : Pool
  pub headroom_version : Option Bytes

-- `Pool.stats` and `Pool.affinityStats`.
unfoldable pub stats : Pool → Int64 × Int64
stats p = (length p.slots, p.busy)

unfoldable pub affinity_stats : Pool → Int64 × Int64
affinity_stats p = (p.hits, p.spills)

-- A request with a clean path, which the mux does not redirect.
pub record ServerRequest : Type 0 where
  pub path : Bytes
  pub message : HookRequest

-- What happens while it is served: what the pool answers, and what becomes of it; how the cells of the
-- settings stand when the request to the worker is encoded, which other requests may have written by
-- then; what the clock reads and the disk does.
pub record Serving : Type 0 where
  pub comp : Compressor
  pub pool_after : Pool
  pub cells : Heap
  pub run : Run
  pub writable : Bool

pub data ServerReply : Type 0 where
  from_config : Reply → ServerReply
  from_metrics : MetricsReply → ServerReply
  from_hook : HookReply → ServerReply

-- The hook handler, which copies the settings for each request; what the copy points to is read only
-- when the worker's request is encoded.
unfoldable pub hook_handler : Setup → Serving → Store → Handler
hook_handler s x st = record {
  json = s.json;
  decompressors = s.decompressors;
  comp = x.comp;
  settings = view x.cells (get_settings st);
  verbose = s.verbose;
  gzip_response = s.gzip_response;
  accept_compressed = s.accept_compressed;
}

unfoldable pub config_request : HookRequest → ConfigRequest
config_request r = record { method = r.method; body = r.body }

unfoldable pub with_store : Server → Store × Reply → Server × ServerReply
with_store sv (st, reply) = (record sv { store = st }, from_config reply)

unfoldable pub with_state : Pool → Server → State × HookReply → Server × ServerReply
with_state p sv (st, reply) = (record sv { state = st; pool = p }, from_hook reply)

-- One request whose steps on the store and on the counters are not overtaken: those of other requests
-- come before or after it, but for the pool's and the cells, which `Serving` tells.
unfoldable pub serve : Setup → ServerRequest → Serving → Server → Server × ServerReply
serve s r x sv =
    if bytes_eq r.path (codes "/config")
    then with_store sv (
        serve_config s.json (some sv.headroom_version) x.writable (config_request r.message)
          sv.store)
    else if bytes_eq r.path (codes "/metrics")
    then (
      sv,
      from_metrics (
          serve_metrics r.message.method sv.state.metrics (some (stats sv.pool))
            (some (affinity_stats sv.pool))),
    )
    else with_state x.pool_after sv
        (serve_hook (hook_handler s x sv.store) r.message x.run sv.state)

-- Between two requests the pool goes on, and a worker may report its version.
pub data ServerEvent : Type 0 where
  gets : ServerRequest → Serving → ServerEvent
  pool_is : Pool → Option Bytes → ServerEvent

unfoldable pub serve_event : Setup → ServerEvent → Server → Server
serve_event s (gets r x) sv = (serve s r x sv).0
serve_event s (pool_is p ver) sv = record sv { pool = p; headroom_version = ver }

unfoldable pub serve_all : Setup → List ServerEvent → Server → Server
serve_all s [] sv = sv
serve_all s (e ∷ es) sv = serve_all s es (serve_event s e sv)

-- The command of a worker that is started now (`NewPool`): `environ` is the program's own environment.
pub record Command : Type 0 where
  pub name : Bytes
  pub arguments : List Bytes
  pub env : List Bytes

unfoldable pub worker_command : Bytes → Bytes → List Bytes → Store → Command
worker_command python script environ st = record {
  name = python;
  arguments = codes "-u" ∷ script ∷ [];
  env =
      environ
      ++ (codes "TSHEADROOM_PRELOAD=" ++ (if text_enabled st.cur then codes "1" else codes "0"))
        ∷ [];
}
