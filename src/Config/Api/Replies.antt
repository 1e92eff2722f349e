-- ===== src/Config/Api/Replies.antt =====
-- What a reply of the configuration handler says about the store.
use tsheadroom.Prelude.{
  Bytes, bytes_eq, codes, Bool, ◌||◌, Option, none, some, [], ap, sym, ◌∙◌, ◌≡◌, ◌⊎◌, refl, inl,
  inr, Bool-cases, Option-cases,
}
use tsheadroom.Go.Json.{Json}
use tsheadroom.Encoding.{read_limited}
use tsheadroom.Config.{CompressSettings, View, view}
use tsheadroom.Config.Store.{Store, Error, current, merge, merge_returns}
use tsheadroom.Config.Store.Decoding.{IsWellFormed}
use tsheadroom.Config.Store.Setting.{store_target}
use tsheadroom.Config.Store.Merging.{merge-cases, merge-merge_returns, IsRefused}
use tsheadroom.Config.Api.{
  ConfigRequest, Reply, settings, failure, Failure, reply_merged, gate, put_body, serve_config,
  max_config_body,
}

-- A 200 shows the settings now in force; after any other status the settings value and the file are
-- as before.
pub record IsHonest (st st' : Store) (r : Reply) : Type 0 where
  pub shown : (v : View) (ver : Bytes) → r ≡ settings v ver → v ≡ current st'
  pub kept : (f : Failure) → r ≡ failure f → IsRefused st st'

failed-IsHonest : (st st' : Store) (f : Failure) → IsRefused st st' → IsHonest st st' (failure f)
failed-IsHonest st st' f q = record { shown = λ v ver e. cc e; kept = λ g e. q }

unchanged-IsHonest :
    (st : Store) (r : Reply)
    → ((v : View) (ver : Bytes) → r ≡ settings v ver → v ≡ current st)
    → IsHonest st st r
unchanged-IsHonest st r h = record {
  shown = h;
  kept = λ f e. record { same_settings = refl; same_file = refl; same_path = refl };
}

-- What is shown is what has been put in.
pub shown_now :
    (updated : CompressSettings) (st : Store) (v : View) (ver : Bytes)
    → st.cur ≡ updated
    → settings (view st.heap updated) [] ≡ settings v ver
    → v ≡ current st
unfolding current
shown_now updated st v ver q e = shown_view e ∙ ap (view st.heap) (sym q)
  where
    shown_view : settings (view st.heap updated) [] ≡ settings v ver → v ≡ view st.heap updated
    shown_view e = cc e

module _ (j : Json) (version : Option (Option Bytes)) (writable : Bool) where
  reply_merged-IsHonest :
      (updated : CompressSettings) (st : Store) (r : Store × Option Error)
      → (r.1 ≡ none → r.0.cur ≡ updated)
      → (r.1 ≡ none) ⊎ ((e : Error) × (r.1 ≡ some e) × IsRefused st r.0)
      → IsHonest st (reply_merged updated r).0 (reply_merged updated r).1
  unfolding reply_merged current
  reply_merged-IsHonest updated st (st', none) same h = record {
    shown = λ v ver e. shown_now updated st' v ver (same refl) e;
    kept = λ f e. cc e;
  }
  reply_merged-IsHonest updated st (st', some e) same (inl h) = cc h
  reply_merged-IsHonest updated st (st', some e) same (inr (e', h, q)) = failed-IsHonest st st' _ q

  merged :
      (body : Bytes) (st : Store)
      → IsWellFormed (store_target st)
      → ((merge j writable body st).1 ≡ none)
        ⊎ ((e : Error) × ((merge j writable body st).1 ≡ some e)
            × IsRefused st (merge j writable body st).0)
  merged body st w = elim (merge-cases j writable body st w) [ inl (r, m) ↦ inl r | inr x ↦ inr x ]

  put_body-IsHonest :
      (b : Option Bytes) (st : Store)
      → IsWellFormed (store_target st)
      → IsHonest st (put_body j version writable b st).0 (put_body j version writable b st).1
  unfolding put_body
  put_body-IsHonest none st w = unchanged-IsHonest st _ (λ v ver e. cc e)
  put_body-IsHonest (some body) st w = elim (Option-cases (gate j version body)) [
    | inr (ver, g) ↦ rw (g, put_body) (unchanged-IsHonest st _ (λ v ver e. cc e))
    | inl g ↦
        rw (g, put_body)
          (reply_merged-IsHonest (merge_returns j body st) st (merge j writable body st)
            (merge-merge_returns j writable body st) (merged body st w))
  ]

  -- A reply with settings shows those now in force, also after a PUT, whose reply is made of what the
  -- update returned; after any error, of the body, the gate, the update or the method, the settings
  -- value, the file and the path are as before. (A cell that the settings point to may have changed:
  -- see the leak.)
  pub serve_config-IsHonest :
      (r : ConfigRequest) (st : Store)
      → IsWellFormed (store_target st)
      → IsHonest st
          (serve_config j version writable r st).0
          (serve_config j version writable r st).1
  unfolding serve_config
  serve_config-IsHonest r st w = elim (Bool-cases (bytes_eq r.method (codes "GET"))) [
    | inl e ↦ rw e (unchanged-IsHonest st _ (λ v ver q. cc q))
    | inr e ↦
        rw e
          (elim (Bool-cases (bytes_eq r.method (codes "PUT") || bytes_eq r.method (codes "POST"))) [
            | inl p ↦ rw p (put_body-IsHonest (read_limited max_config_body r.body) st w)
            | inr p ↦ rw p (unchanged-IsHonest st _ (λ v ver q. cc q))
          ])
  ]
