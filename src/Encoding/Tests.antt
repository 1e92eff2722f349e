-- ===== src/Encoding/Tests.antt =====
-- Runs of the decoder on small inputs, with decompressors that copy and drop.
use tsheadroom.Prelude.{◌≡◌, refl, codes, [], some, arith, length, ◌≤◌, false, inl, inr}
use tsheadroom.Go.Strings.{split, trim_space}
use tsheadroom.Encoding.{
  Decompressors, ok, err, unsupported_encoding, normalize_coding, accept_encoding,
  decode_request_body, max_body, decode_gzip,
}
use tsheadroom.Encoding.Rejection.{listed, Member, decode_request_body-unsupported}
use tsheadroom.Encoding.Bounds.{decode_gzip-eq-ok_iff, decode_request_body-bound}

abbrev toy : Decompressors
toy = record {
  gzip_stream = λ body. some (record { bytes = body; failed = false });
  zstd_decode_all = λ n body. some [];
}

normalize_quality : normalize_coding (codes " GZip ;q=0.8") ≡ codes "gzip"
unfolding normalize_coding
normalize_quality = refl

normalize_identity : normalize_coding (codes "Identity") ≡ []
unfolding normalize_coding
normalize_identity = refl

advertised : accept_encoding ≡ codes "zstd, gzip"
unfolding accept_encoding
advertised = refl

br_coding : normalize_coding (codes "br") ≡ codes "br"
unfolding normalize_coding
br_coding = refl

br_absent : ¬ Member (codes "br") (listed accept_encoding)
unfolding accept_encoding split trim_space
br_absent (inl e) = cc e
br_absent (inr (inl e)) = cc e
br_absent (inr (inr e)) = elim e [ ]

br_not_listed : ¬ Member (normalize_coding (codes "br")) (listed accept_encoding)
br_not_listed m = br_absent (rw br_coding at m)

decode_request_body-unsupported_example :
    (decode_request_body toy (codes "x") (codes "br")).0 ≡ err unsupported_encoding
decode_request_body-unsupported_example =
    (decode_request_body-unsupported toy (codes "x") (codes "br")).1
      ((λ e. cc (br_coding, e)), br_not_listed)

decode_gzip-eq-ok_iff_example : decode_gzip toy (codes "abc") ≡ ok (codes "abc")
decode_gzip-eq-ok_iff_example =
    (decode_gzip-eq-ok_iff toy (codes "abc") (codes "abc")).1
      (record { bytes = codes "abc"; failed = false }, refl, refl, refl, omega arith)

abc_runs : (decode_request_body toy (codes "abc") (codes "gzip")).0 ≡ ok (codes "abc")
unfolding decode_request_body decode_gzip
abc_runs = refl

decode_request_body-bound_example : length (codes "abc") ≤ max_body
decode_request_body-bound_example =
    decode_request_body-bound toy (λ n body out h. ground arith) (codes "abc") (codes "gzip")
      (codes "abc") (omega arith) abc_runs
