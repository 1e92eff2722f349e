-- ===== src/Encoding/Bounds.antt =====
-- What decodeGzip returns of a stream, and the size of every decoded body.
use tsheadroom.Prelude.{
  ℕ, ◌+◌, ◌≤◌, ◌≡◌, ◌↔◌, refl, Bytes, Option, none, some, arith, length, length-take, take_all,
  false,
}
use tsheadroom.Encoding.{
  Decompressors, Stream, ok, read_limited, check_size, gunzip, decode_gzip, decode_zstd, max_body,
  req_codecs, normalize_coding, decode_with, decode_request_body,
}
use tsheadroom.Encoding.Rejection.{dec_empty, identity_accepted, other_coding}

module _ (m : ℕ) (s : Stream) (out : Bytes) where
  -- Reading one byte more than `m` tells a stream of at most `m` bytes from a longer one.
  read_limited-within :
      read_limited (m + 1) s ≡ some out → length out ≤ m → (s.failed ≡ false) × (s.bytes ≡ out)
  unfolding read_limited
  read_limited-within h k = ground (arith, length-take (m + 1) s.bytes, take_all (m + 1) s.bytes)

  read_limited_whole :
      s.failed ≡ false → s.bytes ≡ out → length out ≤ m → read_limited (m + 1) s ≡ some out
  unfolding read_limited
  read_limited_whole f e k = ground (arith, take_all (m + 1) s.bytes)

check_size-eq-ok_iff :
    (r : Option Bytes) (out : Bytes)
    → (check_size r ≡ ok out) ↔ ((r ≡ some out) × (length out ≤ max_body))
unfolding check_size
check_size-eq-ok_iff none out = ground arith
check_size-eq-ok_iff (some x) out = ground arith

gunzip-eq-ok_iff :
    (r : Option Stream) (out : Bytes)
    → (gunzip r ≡ ok out) ↔ (
        (s : Stream) × (r ≡ some s)
        × (s.failed ≡ false)
        × (s.bytes ≡ out)
        × (length out ≤ max_body))
unfolding gunzip
gunzip-eq-ok_iff none out = (λ h. cc h, λ h. cc h.1)
gunzip-eq-ok_iff (some s) out = (
  λ h.
      let (r, k) = (check_size-eq-ok_iff _ out).0 h in
      let (f, e) = read_limited-within max_body s out r k in (s, refl, f, e, k),
  λ (t, q, f, e, k).
      let p : t ≡ s = cc q in
      (check_size-eq-ok_iff _ out).1
        (read_limited_whole max_body s out (rw p at f) (rw p at e) k, k),
)

-- `decodeGzip` returns a body exactly when the stream ends without a failure within `max_body`
-- bytes, and the body is then the whole stream.
pub decode_gzip-eq-ok_iff :
    (d : Decompressors) (body out : Bytes)
    → (decode_gzip d body ≡ ok out) ↔ (
        (s : Stream) × (d.gzip_stream body ≡ some s)
        × (s.failed ≡ false)
        × (s.bytes ≡ out)
        × (length out ≤ max_body))
unfolding decode_gzip
decode_gzip-eq-ok_iff d body out = gunzip-eq-ok_iff (d.gzip_stream body) out

-- What `WithDecoderMaxMemory` documents: no result is longer than the limit.
abbrev pub ZstdIsLimited : Decompressors → Type 0
ZstdIsLimited d = (n : ℕ) (body out : Bytes) → d.zstd_decode_all n body ≡ some out → length out ≤ n

decode_zstd-bound :
    (d : Decompressors)
    → ZstdIsLimited d
    → (body out : Bytes) → decode_zstd d body ≡ ok out
    → length out ≤ max_body
unfolding decode_zstd
decode_zstd-bound d lim body out h = ground (arith, lim max_body body out)

decode_with-bound :
    (d : Decompressors)
    → ZstdIsLimited d
    → (body c out : Bytes) → decode_with req_codecs d body c ≡ ok out
    → length out ≤ max_body
unfolding decode_with req_codecs
decode_with-bound d lim body c out h =
    ground (arith, decode_zstd-bound d lim body out, (decode_gzip-eq-ok_iff d body out).0)

-- A body within the wire limit, decoded by any coding, is within the limit again, where the zstd
-- decoder keeps to its memory limit.
pub decode_request_body-bound :
    (d : Decompressors)
    → ZstdIsLimited d
    → (body encoding out : Bytes) → length body ≤ max_body
    → (decode_request_body d body encoding).0 ≡ ok out
    → length out ≤ max_body
decode_request_body-bound d lim body encoding out k h =
    elim (dec_empty (normalize_coding encoding)) [
      | yes e ↦ ground (arith, identity_accepted d body encoding e)
      | no n ↦
          decode_with-bound d lim body (normalize_coding encoding) out
            (cc (other_coding d body encoding n, h))
    ]
