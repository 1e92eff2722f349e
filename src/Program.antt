-- ===== src/Program.antt =====
-- main.go: `main` from the flags to the exit, and `listen`. What the calls into other packages give is
-- an argument; the log is left out.
pub mod Closing
mod Tests
use tsheadroom.Prelude.{
  ℕ, Bytes, codes, bytes_eq, Bool, true, false, not, ◌++◌, List, [], ◌∷◌, Option, none, some,
  if◌then◌else◌,
}
use tsheadroom.Go.Json.{Json}
use tsheadroom.Encoding.{Decompressors}
use tsheadroom.Config.Store.{ReadResult, load_settings}
use tsheadroom.Metrics.{new_metrics}
use tsheadroom.Handler.Serve.{}
use tsheadroom.Pool.{new_pool}
use tsheadroom.Server.{Setup, Server}

-- The flags that steer the program; the others are only logged or passed on.
pub record Flags : Type 0 where
  pub hostname : Bytes
  pub pool_size : ℕ
  pub script : Bytes
  pub addr : Bytes
  pub state_dir : Bytes
  pub config : Bytes
  pub local_addr : Bytes
  pub verbose : Bool
  pub no_affinity : Bool
  pub gzip_response : Bool
  pub accept_compressed : Bool

-- What the calls give: `filepath.Abs`, TS_AUTHKEY, the config file, and whether Listen succeeds.
pub record Surroundings : Type 0 where
  pub absolute : Bytes → Option Bytes
  pub auth_key : Bytes
  pub read_file : Bytes → ReadResult
  pub listens : Bool

-- `tsnet.Server`, as `listen` fills it in; `none` leaves the field as it is.
pub record Node : Type 0 where
  pub hostname : Bytes
  pub dir : Option Bytes
  pub auth_key : Option Bytes

-- What the program takes and gives back, in the order in which it does.
pub data Resource : Type 0 where
  pool_slots node listener : Resource

pub data Act : Type 0 where
  takes : Resource → Act
  frees : Resource → Act
  serves drains_requests : Act

unfoldable pub non_empty : Bytes → Option Bytes
non_empty b = if bytes_eq b [] then none else some b

unfoldable pub tsnet_node : Flags → Surroundings → Node
tsnet_node f e = record {
  hostname = f.hostname;
  dir = non_empty f.state_dir;
  auth_key = non_empty e.auth_key;
}

-- How the program listens: on a local address, or on a node of the tailnet.
pub data Listening : Type 0 where
  on_local : Bytes → Listening
  on_node : Node → Bytes → Listening

unfoldable pub listening : Flags → Surroundings → Listening
listening f e =
    if not (bytes_eq f.local_addr [])
    then on_local f.local_addr
    else on_node (tsnet_node f e) f.addr

-- `listen`: what it does, and the cleanup that it returns, or `none` for an error.
unfoldable pub listen : Listening → Bool → List Act × Option (List Act)
listen (on_local addr) true = (takes listener ∷ [], some (frees listener ∷ []))
listen (on_local addr) false = ([], none)
listen (on_node n addr) true =
    (takes node ∷ takes listener ∷ [], some (frees listener ∷ frees node ∷ []))
listen (on_node n addr) false = (takes node ∷ frees node ∷ [], none)

unfoldable pub mode_name : Bytes → Bytes
mode_name local_addr = if not (bytes_eq local_addr []) then codes "local" else codes "tsnet"

unfoldable pub listen_addr : Bytes → Bytes → Bytes
listen_addr local_addr addr = if not (bytes_eq local_addr []) then local_addr else addr

-- The end of `main`, once a signal has come: the server drains its requests, and the deferred calls
-- run, the last one first. `os.Exit` runs none of them.
unfoldable pub after_listen : List Act × Option (List Act) → List Act × ℕ
after_listen (acts, none) = (acts, 1)
after_listen (acts, some cleanup) =
    (acts ++ (serves ∷ drains_requests ∷ (cleanup ++ frees pool_slots ∷ [])), 0)

unfoldable pub with_pool : List Act × ℕ → List Act × ℕ
with_pool (acts, code) = (takes pool_slots ∷ acts, code)

-- `main`: what it does with its resources, and its exit code.
unfoldable pub run_main : Flags → Surroundings → List Act × ℕ
run_main f e = elim (e.absolute f.script) [
  | none ↦ ([], 1)
  | some script ↦ elim (e.absolute f.config) [
    | none ↦ ([], 1)
    | some config ↦ with_pool (after_listen (listen (listening f e) e.listens))
  ]
]

-- The server that it starts, on the absolute path of the config file.
unfoldable pub start_server : Json → Flags → Surroundings → Bytes → Server
start_server j f e config = record {
  store = load_settings j config (e.read_file config);
  state = record { metrics = some new_metrics; out = [] };
  pool = new_pool (not f.no_affinity) f.pool_size;
  headroom_version = none;
}

unfoldable pub setup : Json → Decompressors → Flags → Setup
setup j d f = record {
  json = j;
  decompressors = d;
  verbose = f.verbose;
  gzip_response = f.gzip_response;
  accept_compressed = f.accept_compressed;
}
