-- ===== src/Server/Routes.antt =====
-- Which request changes what, and how long the settings of a PUT stay in force.
use tsheadroom.Prelude.{
  Bytes, codes, bytes_eq, Bool, false, ◌&&◌, ◌||◌, List, [], ◌∷◌, Option, none, some, ◌≡◌, refl,
  sym, ap, ◌∙◌, inl, inr, Bool-cases, Option-cases,
}
use tsheadroom.Go.Json.{Json}
use tsheadroom.Encoding.{read_limited}
use tsheadroom.Config.{CompressSettings, View, view}
use tsheadroom.Config.Store.{Store, Error, current, merge, merge_returns, get_settings}
use tsheadroom.Config.Store.Merging.{merge-merge_returns}
use tsheadroom.Config.Api.Replies.{shown_now}
use tsheadroom.Config.Api.{
  ConfigRequest, Reply, settings, reply_merged, gate, put_body, serve_config, max_config_body,
}
use tsheadroom.Handler.Serve.{serve_hook}
use tsheadroom.Server.{
  Setup, Server, ServerRequest, Serving, from_config, from_hook, hook_handler, config_request,
  with_store, with_state, serve, ServerEvent, gets, pool_is, serve_event, serve_all,
}

-- A request that may write the settings.
unfoldable pub writes : ServerRequest → Bool
writes r =
    bytes_eq r.path (codes "/config")
    && (bytes_eq r.message.method (codes "PUT") || bytes_eq r.message.method (codes "POST"))

module _ (j : Json) (version : Option (Option Bytes)) (writable : Bool) where
  -- A 200 shows the settings that it leaves in force.
  abbrev Shows : Store × Reply → Type 0
  Shows r = (v : View) (ver : Bytes) → r.1 ≡ settings v ver → v ≡ current r.0

  reply_merged-Shows :
      (updated : CompressSettings) (r : Store × Option Error)
      → (r.1 ≡ none → r.0.cur ≡ updated)
      → Shows (reply_merged updated r)
  unfolding reply_merged
  reply_merged-Shows updated (st, none) same v ver h = shown_now updated st v ver (same refl) h
  reply_merged-Shows updated (st, some e) same v ver h = cc h

  put_body-Shows : (b : Option Bytes) (st : Store) → Shows (put_body j version writable b st)
  unfolding put_body
  put_body-Shows none st v ver h = cc h
  put_body-Shows (some body) st v ver h = elim (Option-cases (gate j version body)) [
    | inl n ↦
        rw (n, put_body)
          (reply_merged-Shows (merge_returns j body st) (merge j writable body st)
            (merge-merge_returns j writable body st) v ver (rw (n, put_body) at h))
    | inr (x, n) ↦ cc (rw (n, put_body) at h)
  ]

  serve_config-Shows :
      (r : ConfigRequest) (st : Store) → Shows (serve_config j version writable r st)
  unfolding serve_config
  serve_config-Shows r st v ver h = elim (Bool-cases (bytes_eq r.method (codes "GET"))) [
    | inl a ↦ rw a (let h' = rw a at h in cc h')
    | inr a ↦
        elim (Bool-cases (bytes_eq r.method (codes "PUT") || bytes_eq r.method (codes "POST"))) [
          | inl b ↦
              rw (a, b)
                (put_body-Shows (read_limited max_config_body r.body) st v ver (rw (a, b) at h))
          | inr b ↦ cc (rw (a, b) at h)
        ]
  ]

  -- No other method writes.
  serve_config-reads :
      (r : ConfigRequest) (st : Store)
      → (bytes_eq r.method (codes "PUT") || bytes_eq r.method (codes "POST")) ≡ false
      → (serve_config j version writable r st).0 ≡ st
  unfolding serve_config
  serve_config-reads r st h = elim (Bool-cases (bytes_eq r.method (codes "GET"))) [
    | inl a ↦ rw a refl
    | inr a ↦ rw (a, h) refl
  ]

from_config-inj : {a b : Reply} → from_config a ≡ from_config b → a ≡ b
from_config-inj h = cc h

current-view : (st : Store) → view st.heap (get_settings st) ≡ current st
unfolding current get_settings
current-view st = refl

module _ (s : Setup) where
  serve-reads :
      (r : ServerRequest) (x : Serving) (sv : Server)
      → writes r ≡ false
      → (serve s r x sv).0.store ≡ sv.store
  unfolding serve writes with_store with_state config_request
  serve-reads r x sv h = elim (Bool-cases (bytes_eq r.path (codes "/config"))) [
    | inl a ↦ rw a (
        serve_config-reads s.json (some sv.headroom_version) x.writable (config_request r.message)
          sv.store (rw a at h))
    | inr a ↦ elim (Bool-cases (bytes_eq r.path (codes "/metrics"))) [
      | inl b ↦ rw (a, b) refl
      | inr b ↦ rw (a, b) refl
    ]
  ]

  abbrev pub NoWrite : List ServerEvent → Type 0
  NoWrite [] = Unit
  NoWrite (gets r x ∷ es) = (writes r ≡ false) × NoWrite es
  NoWrite (pool_is p ver ∷ es) = NoWrite es

  serve_all-reads :
      (es : List ServerEvent) (sv : Server) → NoWrite es → (serve_all s es sv).store ≡ sv.store
  unfolding serve_all serve_event
  serve_all-reads [] sv h = refl
  serve_all-reads (gets r x ∷ es) sv (h, hs) =
      serve_all-reads es (serve s r x sv).0 hs ∙ serve-reads r x sv h
  serve_all-reads (pool_is p ver ∷ es) sv hs =
      serve_all-reads es (record sv { pool = p; headroom_version = ver }) hs

  served_settings :
      (r : ServerRequest) (x : Serving) (sv : Server) (v : View) (ver : Bytes)
      → (serve s r x sv).1 ≡ from_config (settings v ver)
      → v ≡ current (serve s r x sv).0.store
  unfolding serve with_store with_state config_request
  served_settings r x sv v ver h = elim (Bool-cases (bytes_eq r.path (codes "/config"))) [
    | inl a ↦ rw a (
        serve_config-Shows s.json (some sv.headroom_version) x.writable (config_request r.message)
          sv.store v ver (from_config-inj (rw a at h)))
    | inr a ↦ elim (Bool-cases (bytes_eq r.path (codes "/metrics"))) [
      | inl b ↦ cc (rw (a, b) at h)
      | inr b ↦ cc (rw (a, b) at h)
    ]
  ]

  -- The settings that a GET or a PUT of /config reports are those with which the program handles every
  -- hook call that comes after it, as long as no PUT or POST of /config comes between, nor writes the
  -- cells before the call's request to the worker is encoded: hook calls, scrapes and reads do not
  -- change them, and neither does the pool.
  pub settings-in_force :
      (r y : ServerRequest) (x z : Serving) (sv : Server) (v : View) (ver : Bytes)
      (es : List ServerEvent)
      → (serve s r x sv).1 ≡ from_config (settings v ver)
      → NoWrite es
      → bytes_eq y.path (codes "/config") ≡ false
      → bytes_eq y.path (codes "/metrics") ≡ false
      → z.cells ≡ (serve_all s es (serve s r x sv).0).store.heap
      → let now = serve_all s es (serve s r x sv).0 in
        (serve s y z now).1
        ≡ from_hook
            (serve_hook
              (record (hook_handler s z now.store) { settings = v })
              y.message
              z.run
              now.state).1
  unfolding serve with_state hook_handler
  settings-in_force r y x z sv v ver es h hs a b same =
      let old = serve_all-reads es (serve s r x sv).0 hs in
      let now = serve_all s es (serve s r x sv).0 in
      let e : view z.cells (get_settings now.store) ≡ v =
        ap (λ c. view c (get_settings now.store)) same
        ∙ current-view now.store
        ∙ ap current old
        ∙ sym (served_settings r x sv v ver h) in
      rw (a, b)
        (ap
          (λ v.
            from_hook
              (serve_hook (record (hook_handler s z now.store) { settings = v }) y.message z.run
                now.state).1)
          e)
