-- ===== src/Config/Api/Echo.antt =====
-- A PUT of the body that a GET of the settings shows.
use tsheadroom.Prelude.{
  sym, Bytes, codes, bytes_eq, Bool, true, false, List, [], ◌∷◌, Option, none, some, ◌≡◌, refl, ap,
  ◌∙◌, inl, inr, Bool-cases, if◌then◌else◌,
}
use tsheadroom.Go.Strings.{equal_fold}
use tsheadroom.Encoding.{Stream, read_limited}
use tsheadroom.Go.Json.{Json, assign, assign_all, unmarshal}
use tsheadroom.Config.{CompressSettings, view, View, validate}
use tsheadroom.Config.Json.{Target, unmarshal_settings}
use tsheadroom.Config.Store.{
  Store, Error, ReadResult, current, load_settings, apply_locked, save, swap, merge, merge_returns,
  merge_decoded,
}
use tsheadroom.Config.Store.Decoding.{seen, view_setters, updated_view, unmarshal_settings-view}
use tsheadroom.Config.Store.Setting.{store_target}
use tsheadroom.Config.Store.Merging.{merge-merge_returns}
use tsheadroom.Config.Store.Restart.{IsCodec, IsReadable, fields_read}
use tsheadroom.Config.Store.Persistence.{
  merge_all, IsKept, Sound-IsReadable, load_settings-IsKept, merge_all-IsKept,
}
use tsheadroom.Config.Api.{
  ConfigRequest, settings, gate, put_body, reply_merged, serve_config, shown_version,
  detected_version, max_config_body,
}
use tsheadroom.Config.Api.Text.{Causes, http_reply, view_fields, view_text}

abbrev pub get_request : Stream → ConfigRequest
get_request body = record { method = codes "GET"; body = body }

abbrev pub put_request : Stream → ConfigRequest
put_request body = record { method = codes "PUT"; body = body }

module _ (j : Json) where
  -- The version is no setting.
  version_ignored :
      (ver : Bytes) (v : View)
      → assign_all
          (view_setters j)
          (if bytes_eq ver [] then [] else (codes "headroom_version", j.quote ver) ∷ [])
          v
          true
        ≡ (v, true)
  unfolding assign_all assign view_setters equal_fold
  version_ignored ver v = elim (Bool-cases (bytes_eq ver [])) [
    | inl q ↦ rw q refl
    | inr q ↦ rw q refl
  ]

  apply_locked-accepts :
      (t : Target) (st : Store)
      → validate (seen t) ≡ none
      → ((apply_locked j true t.settings (record st { heap = t.heap })).1 ≡ none)
        × (current (apply_locked j true t.settings (record st { heap = t.heap })).0 ≡ seen t)
  unfolding apply_locked current save swap
  apply_locked-accepts t st h = elim (Bool-cases (bytes_eq st.path [])) [
    | inl p ↦ rw (h, p, apply_locked) (refl, refl)
    | inr p ↦ rw (h, p, apply_locked) (refl, refl)
  ]

  pub merge_decoded-accepts :
      (d : Target × Bool) (st : Store) (v : View)
      → seen d.0 ≡ v
      → d.1 ≡ true
      → validate v ≡ none
      → ((merge_decoded j true st d).1 ≡ none) × (current (merge_decoded j true st d).0 ≡ v)
  unfolding merge_decoded
  merge_decoded-accepts (t, false) st v e g h = cc g
  merge_decoded-accepts (t, true) st v e g h =
      let (a, b) = apply_locked-accepts t st (ap validate e ∙ h) in (a, b ∙ e)

  pub replied :
      (updated : CompressSettings) (r : Store × Option Error) (v : View)
      → (r.1 ≡ none → r.0.cur ≡ updated)
      → r.1 ≡ none
      → current r.0 ≡ v
      → ((reply_merged updated r).1 ≡ settings v []) × (current (reply_merged updated r).0 ≡ v)
  unfolding reply_merged current
  replied updated (st, none) v same h e =
      (ap (λ v. settings v []) (ap (view st.heap) (sym (same refl)) ∙ e), e)
  replied updated (st, some x) v same h e = cc h

  module _ (law : IsCodec j) where
    view_text-updated_view :
        (v w : View) (ver : Bytes)
        → IsReadable j v
        → j.fields (view_text j v ver) ≡ some (view_fields j v ver)
        → updated_view j (view_text j v ver) w ≡ (v, true)
    unfolding updated_view unmarshal view_fields
    view_text-updated_view v w ver r h =
        rw (h, unmarshal)
          (fields_read j law v r
              (if bytes_eq ver [] then [] else (codes "headroom_version", j.quote ver) ∷ []) w
            ∙ version_ignored ver v)

    merge-echo :
        (path : Bytes) (st : Store) (ver : Bytes)
        → IsKept j law path st
        → j.fields (view_text j (current st) ver) ≡ some (view_fields j (current st) ver)
        → validate (current st) ≡ none
        → ((merge j true (view_text j (current st) ver) st).1 ≡ none)
          × (current (merge j true (view_text j (current st) ver) st).0 ≡ current st)
    unfolding merge current
    merge-echo path st ver k h good =
        let body = view_text j (current st) ver in
        let e =
          view_text-updated_view (current st) (current st) ver
            (Sound-IsReadable j law (store_target st) k.0) h in
        let (w, reads, same) = unmarshal_settings-view j body (store_target st) k.1 in
        merge_decoded-accepts (unmarshal_settings j body (store_target st)) st (current st)
          (reads ∙ ap (λ x. x.0) e) (same ∙ ap (λ x. x.1) e) good

    put_body-echo :
        (path : Bytes) (st : Store) (ver : Bytes) (version : Option (Option Bytes))
        → IsKept j law path st
        → j.fields (view_text j (current st) ver) ≡ some (view_fields j (current st) ver)
        → validate (current st) ≡ none
        → gate j version (view_text j (current st) ver) ≡ none
        → ((put_body j version true (some (view_text j (current st) ver)) st).1
            ≡ settings (current st) [])
          × (current (put_body j version true (some (view_text j (current st) ver)) st).0
              ≡ current st)
    unfolding put_body
    put_body-echo path st ver version k h good passes =
        let (a, b) = merge-echo path st ver k h good in
        rw (passes, put_body)
          (replied (merge_returns j (view_text j (current st) ver) st)
            (merge j true (view_text j (current st) ver) st) (current st)
            (merge-merge_returns j true (view_text j (current st) ver) st) a b)

    -- What a GET shows.
    get-view_text :
        (c : Causes) (version : Option (Option Bytes)) (body : Stream) (st : Store)
        → (http_reply j c (serve_config j version true (get_request body) st).1).body
          ≡ view_text j (current st) (shown_version (detected_version version))
    unfolding serve_config http_reply bytes_eq
    get-view_text c version body st = refl

    put-put_body :
        (version : Option (Option Bytes)) (body : Stream) (text : Bytes) (st : Store)
        → read_limited max_config_body body ≡ some text
        → serve_config j version true (put_request body) st ≡ put_body j version true (some text) st
    unfolding serve_config bytes_eq
    put-put_body version body text st h = ap (λ b. put_body j version true b st) h

    -- After any start and any updates, if the settings in force are valid: a PUT of the text that a GET
    -- shows, the version included, answers with the settings and leaves them as they are. The PUT
    -- arrives whole, the version gate lets it pass, the disk takes the file, and encoding/json reads
    -- back what it prints.
    pub serve_config-echo :
        (path : Bytes) (r : ReadResult) (puts : List (Bytes × Bool)) (st : Store) (c : Causes)
        (version : Option (Option Bytes)) (asked sent : Stream) (text : Bytes)
        → st ≡ merge_all j puts (load_settings j path r)
        → validate (current st) ≡ none
        → text ≡ (http_reply j c (serve_config j version true (get_request asked) st).1).body
        → j.fields text
          ≡ some (view_fields j (current st) (shown_version (detected_version version)))
        → read_limited max_config_body sent ≡ some text
        → gate j version text ≡ none
        → ((serve_config j version true (put_request sent) st).1 ≡ settings (current st) [])
          × (current (serve_config j version true (put_request sent) st).0 ≡ current st)
    serve_config-echo path r puts st c version asked sent text e good q h arrives passes =
        let k =
          merge_all-IsKept j law path puts (load_settings j path r)
            (load_settings-IsKept j law path r) in
        let ver = shown_version (detected_version version) in
        let t : text ≡ view_text j (current st) ver = q ∙ get-view_text c version asked st in
        let (a, b) = put_body-echo path st ver version (rw e k) (rw t at h) good (rw t at passes) in
        rw (put-put_body version sent text st arrives, t) (a, b)
