-- ===== src/Server/CountingTests.antt =====
-- A PUT of the settings, two hook calls, and a scrape.
use tsheadroom.Prelude.{List, [], ◌∷◌, refl}
use tsheadroom.Server.{ServerEvent, gets, serve_all}
use tsheadroom.Server.Counting.{to_hook, is_call, number_of, IsTallied, serve_new-IsTallied}
use tsheadroom.Server.Tests.{toy_setup, toy_server, toy_serving, put, hook, scrape}

abbrev served : List ServerEvent
served =
    gets put toy_serving
    ∷ gets hook toy_serving
    ∷ gets scrape toy_serving
    ∷ gets hook toy_serving
    ∷ []

serve_new-IsTallied_example :
    IsTallied
      (number_of to_hook served)
      (number_of is_call served)
      (serve_all toy_setup served toy_server).state.metrics
serve_new-IsTallied_example = serve_new-IsTallied toy_setup served toy_server refl
