-- ===== src/Program/Tests.antt =====
-- A program that cannot listen, and one on a local address.
use tsheadroom.Prelude.{codes, true, false, [], some}
use tsheadroom.Config.Store.{not_exist}
use tsheadroom.Program.{Flags, Surroundings, run_main}
use tsheadroom.Program.Closing.{IsEnd, run_main-IsEnd}

abbrev toy_flags : Flags
toy_flags = record {
  hostname = codes "tsheadroom";
  pool_size = 8;
  script = codes "worker.py";
  addr = codes ":80";
  state_dir = [];
  config = codes "c.json";
  local_addr = [];
  verbose = false;
  no_affinity = false;
  gzip_response = true;
  accept_compressed = true;
}

abbrev offline : Surroundings
offline = record {
  absolute = λ p. some p;
  auth_key = [];
  read_file = λ p. not_exist;
  listens = false;
}

run_main-IsEnd_example : IsEnd toy_flags offline (run_main toy_flags offline)
run_main-IsEnd_example = run_main-IsEnd toy_flags offline
