-- ===== src/Encoding.antt =====
-- encoding.go: the request-body codings, their names, and the decoding with its size limit.
pub mod Rejection
pub mod Bounds
mod Tests
use tsheadroom.Prelude.{
  ℕ, ◌+◌, ◌*◌, ◌^◌, Bytes, codes, bytes_eq, List, [], ◌∷◌, map, Option, none, some, ltb, length,
  take, if◌then◌else◌, Bool, true, false,
}
use tsheadroom.Go.Strings.{first_field, trim_space, to_lower, join}

-- 50 << 20
abbrev pub max_body : ℕ
max_body = 50 * 2 ^ 20

-- What a stream gives: its bytes up to the end or the failure, and whether it failed.
pub record Stream : Type 0 where
  pub bytes : Bytes
  pub failed : Bool

-- The two decompressors, which the program calls: `gzip.NewReader` with the stream that it reads
-- (`none` for a bad header), and klauspost's `DecodeAll` under a memory limit.
pub record Decompressors : Type 0 where
  pub gzip_stream : Bytes → Option Stream
  pub zstd_decode_all : ℕ → Bytes → Option Bytes

pub data DecodeError : Type 0 where
  unsupported_encoding zstd_decode gzip_reader gzip_decode gzip_too_large : DecodeError

pub data Decoded : Type 0 where
  ok : Bytes → Decoded
  err : DecodeError → Decoded

-- `io.ReadAll(io.LimitReader(r, n))`: a failure past the limit is not seen.
unfoldable pub read_limited : ℕ → Stream → Option Bytes
read_limited n s =
    if s.failed
    then (if ltb (length s.bytes) n then none else some (take n s.bytes))
    else some (take n s.bytes)

unfoldable pub check_size : Option Bytes → Decoded
check_size none = err gzip_decode
check_size (some out) = if ltb max_body (length out) then err gzip_too_large else ok out

unfoldable pub gunzip : Option Stream → Decoded
unfolding read_limited check_size
gunzip none = err gzip_reader
gunzip (some s) = check_size (read_limited (max_body + 1) s)

unfoldable pub decode_gzip : Decompressors → Bytes → Decoded
unfolding gunzip
decode_gzip d body = gunzip (d.gzip_stream body)

unfoldable pub decode_zstd : Decompressors → Bytes → Decoded
decode_zstd d body = elim (d.zstd_decode_all max_body body) [
  | none ↦ err zstd_decode
  | some out ↦ ok out
]

pub record ReqCodec : Type 0 where
  pub name : Bytes
  pub decode : Decompressors → Bytes → Decoded

unfoldable pub req_codecs : List ReqCodec
req_codecs =
    record { name = codes "zstd"; decode = decode_zstd }
    ∷ record { name = codes "gzip"; decode = decode_gzip }
    ∷ []

unfoldable pub accept_encoding : Bytes
unfolding req_codecs join
accept_encoding = join (map (λ c. c.name) req_codecs) (codes ", ")

unfoldable pub normalize_coding : Bytes → Bytes
unfolding first_field trim_space to_lower bytes_eq
normalize_coding encoding =
    let enc = to_lower (trim_space (first_field b';' encoding)) in
    if bytes_eq enc (codes "identity") then [] else enc

-- The search of `decodeRequestBody` through the codecs.
unfoldable pub decode_with : List ReqCodec → Decompressors → Bytes → Bytes → Decoded
decode_with [] d body coding = err unsupported_encoding
decode_with (c ∷ cs) d body coding =
    if bytes_eq c.name coding then c.decode d body else decode_with cs d body coding

-- The result and the coding that it matched on.
unfoldable pub decode_request_body : Decompressors → Bytes → Bytes → Decoded × Bytes
unfolding normalize_coding decode_with req_codecs
decode_request_body d body encoding =
    let coding = normalize_coding encoding in
    if bytes_eq coding [] then (ok body, []) else (decode_with req_codecs d body coding, coding)
