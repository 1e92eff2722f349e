-- ===== src/Handler/Process/Splice.antt =====
-- What a modified body keeps of the original.
use tsheadroom.Prelude.{
  Bytes, codes, bytes_eq, bytes_eq_iff, bytes_ne, inl, inr, ◌⊎◌, Bool, false, [], none, some, ◌≡◌,
  ◌≢◌, refl, ap, ◌∙◌, sym, arith,
}
use tsheadroom.Summary.{modify_reason}
use tsheadroom.Prelude.Dict.{Dict, get, set, get-set}
use tsheadroom.Go.Int64.{non_positive}
use tsheadroom.Go.Json.{Json}
use tsheadroom.Config.{View}
use tsheadroom.Protocol.{CompressResult, Compressor}
use tsheadroom.Handler.{GuardrailResponse, allow, modify_action}
use tsheadroom.Handler.Process.{is_noop, process}
use tsheadroom.Handler.Process.Outcomes.{
  WasSent, request_of, untouched, failed, useless, modified, process-Outcome,
}

some-ne-none {ℓ} : {A : Type ℓ} {a : A} → some a ≢ none
some-ne-none e = cc

some-eq {ℓ} : {A : Type ℓ} {a b : A} → some a ≡ some b → a ≡ b
some-eq e = cc

no_body : {r : GuardrailResponse} {b : Dict Bytes} → r ≡ allow → r.request_body ≢ some b
no_body a h = some-ne-none (sym h ∙ ap (λ (x : GuardrailResponse). x.request_body) a)

-- The reasons that go with "allow".
reason_ne : (r : Bytes) → bytes_eq r modify_reason ≡ false → r ≢ modify_reason
reason_ne r h = bytes_ne r modify_reason h

module _ (j : Json) (compress : Compressor) (config : View) (verbose : Bool) (body : Bytes) where
  -- `b` is the request body of the call with the messages that the worker returned.
  pub record IsSplice (b : Dict Bytes) : Type 0 where
    pub call : WasSent j compress config verbose body
    pub res : CompressResult
    pub compressed : compress (request_of j compress config verbose body call) ≡ some res
    pub saves : non_positive res.tokens_saved ≡ false
    pub nonempty : res.messages ≢ []
    pub replaced : get (codes "messages") b ≡ some res.messages
    pub others : (k : Bytes) → k ≢ codes "messages" → get k b ≡ get k call.req_body

  is_noop-parts :
      (res : CompressResult)
      → is_noop res ≡ false
      → (non_positive res.tokens_saved ≡ false) × (res.messages ≢ [])
  unfolding is_noop
  is_noop-parts res h = ground (arith, bytes_eq_iff res.messages [])

  get-set_ne : (k j : Bytes) (v : Bytes) (m : Dict Bytes) → j ≢ k → get j (set k v m) ≡ get j m
  get-set_ne k j v m h = rw (get-set k j v m) (ground (arith, bytes_eq_iff k j))

  splice :
      (w : WasSent j compress config verbose body) (res : CompressResult) (b : Dict Bytes)
      → compress (request_of j compress config verbose body w) ≡ some res
      → is_noop res ≡ false
      → set (codes "messages") res.messages w.req_body ≡ b
      → IsSplice b
  splice w res b c n e = record {
    call = w;
    res = res;
    compressed = c;
    saves = (is_noop-parts res n).0;
    nonempty = (is_noop-parts res n).1;
    replaced =
        ap (get (codes "messages")) (sym e)
        ∙ get-set (codes "messages") (codes "messages") res.messages w.req_body
        ∙ unfold bytes_eq in refl;
    others = λ k h. ap (get k) (sym e) ∙ get-set_ne (codes "messages") k res.messages w.req_body h;
  }

  -- A body comes back only as a splice: the worker was given the messages of the call as they stood,
  -- saved tokens and returned messages that are not empty; these replace the old ones, and every
  -- other field of the request is as it was.
  pub process-IsSplice :
      (b : Dict Bytes)
      → (process j compress config verbose body).0.request_body ≡ some b
      → IsSplice b
  process-IsSplice b h = elim (process-Outcome j compress config verbose body) [
    | untouched _ a r ↦ absurd (no_body a h)
    | failed w c a r ↦ absurd (no_body a h)
    | useless w res c n a r ↦ absurd (no_body a h)
    | modified w res c n a r ↦
        splice w res b c n (some-eq (sym (ap (λ (x : GuardrailResponse). x.request_body) a) ∙ h))
  ]

  -- The answer is "allow" without a body or "modify" with one, never anything else; it is "modify"
  -- exactly when the summary says so.
  pub process-action :
      (((process j compress config verbose body).0 ≡ allow)
        × ((process j compress config verbose body).1.reason ≢ modify_reason))
      ⊎ (((process j compress config verbose body).0.action ≡ modify_action)
          × ((process j compress config verbose body).0.request_body ≢ none)
          × ((process j compress config verbose body).1.reason ≡ modify_reason))
  unfolding bytes_eq
  process-action = elim (process-Outcome j compress config verbose body) [
    | untouched _ a r ↦ inl (a, λ e. reason_ne _ refl (sym r ∙ e))
    | failed w c a r ↦ inl (a, λ e. reason_ne _ refl (sym r ∙ e))
    | useless w res c n a r ↦ inl (a, λ e. reason_ne _ refl (sym r ∙ e))
    | modified w res c n a r ↦ inr (
      ap (λ (x : GuardrailResponse). x.action) a,
      (λ e. some-ne-none (sym (ap (λ (x : GuardrailResponse). x.request_body) a) ∙ e)),
      r,
    )
  ]
