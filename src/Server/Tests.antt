-- ===== src/Server/Tests.antt =====
-- A PUT of the settings, a scrape, and a hook call.
use tsheadroom.Prelude.{codes, bytes_eq, true, false, List, [], ◌∷◌, none, ◌≡◌, refl}
use tsheadroom.Go.Json.{object, to_map, unmarshal, assign_all}
use tsheadroom.Prelude.Dict.{get}
use tsheadroom.Encoding.{read_limited}
use tsheadroom.Config.{view, empty_heap, default_settings, validate}
use tsheadroom.Config.Json.{unmarshal_settings}
use tsheadroom.Config.Store.{current, apply_locked, save, swap, merge, merge_decoded, merge_returns}
use tsheadroom.Config.Api.{
  settings, reply_merged, gate, setting_non_null_savings_profile, probe_profile, put_body,
  serve_config,
}
use tsheadroom.Handler.Serve.{serve_hook}
use tsheadroom.Handler.Serve.Tests.{empty_json, copying, toy_request, toy_run, fresh}
use tsheadroom.Pool.{new_pool}
use tsheadroom.Server.{
  Setup, Server, ServerRequest, Serving, from_config, from_hook, hook_handler, config_request,
  with_store, serve, gets, ServerEvent, serve_all, serve_event,
}
use tsheadroom.Server.Routes.{writes, settings-in_force}

abbrev pub toy_setup : Setup
toy_setup = record {
  json = empty_json;
  decompressors = copying;
  verbose = true;
  gzip_response = true;
  accept_compressed = true;
}

abbrev pub toy_server : Server
toy_server = record {
  store = record { cur = default_settings; heap = empty_heap; path = codes "/c"; file = none };
  state = fresh;
  pool = new_pool true 2;
  headroom_version = none;
}

abbrev pub put : ServerRequest
put = record { path = codes "/config"; message = record toy_request { method = codes "PUT" } }

abbrev pub scrape : ServerRequest
scrape = record { path = codes "/metrics"; message = record toy_request { method = codes "GET" } }

abbrev pub hook : ServerRequest
hook = record { path = codes "/"; message = toy_request }

abbrev pub toy_serving : Serving
toy_serving = record {
  comp = λ r. none;
  pool_after = new_pool true 2;
  cells = empty_heap;
  run = toy_run;
  writable = true;
}

put_shows :
    (serve toy_setup put toy_serving toy_server).1
    ≡ from_config (settings (view empty_heap default_settings) [])
unfolding serve with_store config_request serve_config bytes_eq put_body read_limited gate
    setting_non_null_savings_profile probe_profile object to_map get reply_merged merge
    merge_returns merge_decoded unmarshal_settings unmarshal assign_all apply_locked save swap
    validate view current
put_shows = refl

hook_path :
    (bytes_eq hook.path (codes "/config") ≡ false) × (bytes_eq hook.path (codes "/metrics") ≡ false)
unfolding bytes_eq
hook_path = (refl, refl)

scrape_reads : writes scrape ≡ false
unfolding writes bytes_eq
scrape_reads = refl

abbrev then_scraped : List ServerEvent
then_scraped = gets scrape toy_serving ∷ []

cells_kept :
    toy_serving.cells
    ≡ (serve_all toy_setup then_scraped (serve toy_setup put toy_serving toy_server).0).store.heap
unfolding serve serve_all serve_event with_store config_request serve_config bytes_eq put_body
    read_limited gate setting_non_null_savings_profile probe_profile object to_map get reply_merged
    merge merge_returns merge_decoded unmarshal_settings unmarshal assign_all apply_locked save swap
    validate view current
cells_kept = refl

settings-in_force_example :
    (serve toy_setup hook toy_serving
      (serve_all toy_setup then_scraped (serve toy_setup put toy_serving toy_server).0)).1
    ≡ from_hook
        (serve_hook
          (record (hook_handler toy_setup toy_serving
            (serve_all toy_setup then_scraped
              (serve toy_setup put toy_serving toy_server).0).store) {
                settings = view empty_heap default_settings;
              })
          toy_request
          toy_run
          (serve_all toy_setup then_scraped (serve toy_setup put toy_serving toy_server).0).state).1
settings-in_force_example =
    settings-in_force toy_setup put hook toy_serving toy_serving toy_server
      (view empty_heap default_settings) [] then_scraped put_shows (scrape_reads, tt) hook_path.0
      hook_path.1 cells_kept
