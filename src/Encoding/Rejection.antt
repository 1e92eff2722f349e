-- ===== src/Encoding/Rejection.antt =====
-- Which codings decodeRequestBody rejects, against the header that advertises them.
use tsheadroom.Prelude.{
  ◌+◌, ◌≡◌, ◌≢◌, ◌↔◌, refl, Bytes, codes, bytes_eq_iff, List, [], ◌∷◌, map, Option, none, some,
  arith, ◌⊎◌,
}
use tsheadroom.Go.Strings.{split, trim_space}
use tsheadroom.Encoding.{
  Decompressors, Stream, ok, err, unsupported_encoding, read_limited, check_size, gunzip,
  decode_gzip, decode_zstd, max_body, req_codecs, accept_encoding, normalize_coding, decode_with,
  decode_request_body,
}

-- The names that a client reads out of an Accept-Encoding header.
abbrev pub listed : Bytes → List Bytes
listed header = map trim_space (split b',' header)

-- The advertised header lists the names of the codecs, best first.
pub accept_encoding-listed : listed accept_encoding ≡ map (λ c. c.name) req_codecs
unfolding accept_encoding split trim_space
accept_encoding-listed = refl

pub dec_empty : (s : Bytes) → Dec (s ≡ [])
dec_empty [] = yes refl
dec_empty (c ∷ s) = no (λ e. cc)

abbrev pub Member : Bytes → List Bytes → Type 0
Member a [] = ⊥
Member a (x ∷ xs) = (x ≡ a) ⊎ Member a xs

-- The names of the codecs, as `Member` reads them.
names-Member :
    (coding : Bytes)
    → Member coding (listed accept_encoding)
      ↔ ((codes "zstd" ≡ coding) ⊎ (codes "gzip" ≡ coding) ⊎ ⊥)
unfolding accept_encoding split trim_space
names-Member coding = (λ m. m, λ m. m)

check_size-ne_unsupported : (r : Option Bytes) → check_size r ≢ err unsupported_encoding
unfolding check_size
check_size-ne_unsupported none h = cc
check_size-ne_unsupported (some out) h = ground arith

gunzip-ne_unsupported : (r : Option Stream) → gunzip r ≢ err unsupported_encoding
gunzip-ne_unsupported none h = unfold gunzip in cc h
gunzip-ne_unsupported (some s) h =
    check_size-ne_unsupported (read_limited (max_body + 1) s) (unfold gunzip in h)

gzip-ne_unsupported :
    (d : Decompressors) (body : Bytes) → decode_gzip d body ≢ err unsupported_encoding
gzip-ne_unsupported d body h = gunzip-ne_unsupported (d.gzip_stream body) (unfold decode_gzip in h)

zstd-ne_unsupported :
    (d : Decompressors) (body : Bytes) → decode_zstd d body ≢ err unsupported_encoding
unfolding decode_zstd
zstd-ne_unsupported d body h = ground arith

decode_with-unsupported :
    (d : Decompressors) (body c : Bytes)
    → (decode_with req_codecs d body c ≡ err unsupported_encoding)
      ↔ (¬ ((codes "zstd" ≡ c) ⊎ (codes "gzip" ≡ c) ⊎ ⊥))
unfolding decode_with req_codecs
decode_with-unsupported d body c = (
  λ h m. ground (
    arith,
    bytes_eq_iff (codes "zstd") c,
    bytes_eq_iff (codes "gzip") c,
    zstd-ne_unsupported d body,
    gzip-ne_unsupported d body,
  ),
  λ n. ground (arith, bytes_eq_iff (codes "zstd") c, bytes_eq_iff (codes "gzip") c),
)

pub identity_accepted :
    (d : Decompressors) (body encoding : Bytes)
    → normalize_coding encoding ≡ []
    → decode_request_body d body encoding ≡ (ok body, [])
unfolding decode_request_body
identity_accepted d body encoding e = rw e refl

pub other_coding :
    (d : Decompressors) (body encoding : Bytes)
    → normalize_coding encoding ≢ []
    → decode_request_body d body encoding
      ≡ (decode_with req_codecs d body (normalize_coding encoding), normalize_coding encoding)
unfolding decode_request_body
other_coding d body encoding h = ground (arith, bytes_eq_iff (normalize_coding encoding) [])

-- A body is rejected with the unsupported-encoding error exactly when its coding is neither
-- identity nor one of the names in the header that the program advertises.
pub decode_request_body-unsupported :
    (d : Decompressors) (body encoding : Bytes)
    → ((decode_request_body d body encoding).0 ≡ err unsupported_encoding) ↔ (
        (normalize_coding encoding ≢ [])
        × (¬ Member (normalize_coding encoding) (listed accept_encoding)))
decode_request_body-unsupported d body encoding = (
  λ h.
      let coded : normalize_coding encoding ≢ [] =
        λ e. cc (identity_accepted d body encoding e, h) in
      let rest = other_coding d body encoding coded in
      (coded, λ m. (decode_with-unsupported d body _).0 (cc (rest, h)) ((names-Member _).0 m)),
  λ (coded, absent).
      let rest = other_coding d body encoding coded in
      cc (rest, (decode_with-unsupported d body _).1 (λ m. absent ((names-Member _).1 m))),
)
