-- ===== src/Http/Body.antt =====
-- http.py, `_HyperviewBody`: the body of a response, which is only ever replaced by a validated
-- document. Django's headers, zlib and the decoder of UTF-8 are parameters.
use dj_hyperview.Prelude.{
  ℕ, ◌+◌, Bool, true, false, ◌||◌, not, Option, none, some, List, [], ◌∷◌, ◌++◌, ltb, ◌==◌,
  if◌then◌else◌, length, Text, codes,
}
use dj_hyperview.Errors.{Error, Result, ok, err}
use dj_hyperview.Validation.Encoding.{encode, failed}
use dj_hyperview.Validation.Guard.{ValidationSettings}
use dj_hyperview.Validation.Hxml.{ValidatedHxml}

-- The attributes of a response that the body depends on. `container` is `none` before the first
-- assignment; `content_encoding` is the header in lower case.
pub record Response (Identity : Type 0) : Type 0 where
  pub container : Option Text
  pub gzip_transport : Option Text
  pub validated_result : Option (ValidatedHxml Identity)
  pub head_suppressed : Bool
  pub head_request : Bool
  pub fragment : Bool
  pub status_code : ℕ
  pub content_type : Option Text
  pub charset : Text
  pub content_encoding : Option Text
  pub content_length : Option Text
  pub is_template : Bool
  pub is_rendered : Bool
  pub initializing : Bool

-- What `decompressobj(wbits=31)` has after one call of `decompress`.
pub record Decoded : Type 0 where
  pub decoded : Text
  pub eof : Bool
  pub unused_data : Text
  pub unconsumed_tail : Text

-- What the code calls: `_normalized_response_metadata` of the present header and charset, whose failure is a
-- ValueError, zlib up to a number of bytes, where `none` is a `zlib.error`, and `bytes.decode`.
pub record Library : Type 0 where
  pub metadata : Option Text → Text → Result (Unit {0})
  pub decompress : Text → ℕ → Option Decoded
  pub decode : Text → Option Text

-- A chunk, and a value that is assigned: another object than a text or bytes is its `str`.
pub data Chunk : Type 0 where
  str : Text → Chunk
  bytes : Text → Chunk

pub data Content : Type 0 where
  chunk : Chunk → Content
  chunks : List Chunk → Content

abbrev pub chunk_length : Chunk → ℕ
chunk_length (str t) = length t
chunk_length (bytes b) = length b

abbrev pub encoded : Chunk → Option Text
encoded (str t) = encode t
encoded (bytes b) = some b

abbrev pub max_bytes_error : Error
max_bytes_error = failed (codes "max_bytes")

abbrev pub prepend : Text → Result Text → Result Text
prepend b (ok rest) = ok (b ++ rest)
prepend b (err e) = err e

-- A chunk that fits, once it is encoded.
abbrev pub fitting : ℕ → ℕ → Option Text → (Text → Result Text) → Result Text
fitting limit size none rest = err (failed (codes "malformed_xml"))
fitting limit size (some b) rest =
    if ltb limit (size + length b) then err max_bytes_error else rest b

-- The loop of `_candidate`, where `size` bytes are collected.
unfoldable pub collect : ℕ → ℕ → List Chunk → Result Text
unfolding encode
collect limit size [] = ok []
collect limit size (c ∷ cs) =
    if ltb limit (size + chunk_length c)
    then err max_bytes_error
    else fitting limit size (encoded c) λ b. prepend b (collect limit (size + length b) cs)

abbrev pub chunks_of : Content → List Chunk
chunks_of (chunk c) = c ∷ []
chunks_of (chunks cs) = cs

unfoldable pub candidate : ValidationSettings → Content → Text → Result Text
unfolding collect
candidate config value prefix =
    prepend prefix (collect config.max_bytes (length prefix) (chunks_of value))

-- `_BODYLESS_STATUSES`
unfoldable pub is_bodyless : ℕ → Bool
is_bodyless status = status == 204 || (status == 205 || status == 304)

abbrev pub is_empty : Text → Bool
is_empty [] = true
is_empty (c ∷ t) = false

abbrev pub is_some {ℓ} : {A : Type ℓ} → Option A → Bool
is_some none = false
is_some (some a) = true

abbrev pub same_flag : Bool → Bool → Bool
same_flag true b = b
same_flag false b = not b

abbrev pub http_error : Text → Error
http_error code = failed code
