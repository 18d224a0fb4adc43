-- ===== src/Data.antt =====
-- src/data.rs: the typed `data:` URI, its constructor, formatter and parser. The base64 codec of
-- the same file is in Base64.
pub mod Payload
pub mod Header
pub mod RoundTrip
pub mod Produced
pub mod Sizes
use oxideav_source.Prelude.{
  ℕ, ◌+◌, ◌-◌, ◌/◌, ◌%◌, Bool, true, false, ◌&&◌, ◌||◌, not, [], ◌∷◌, ◌++◌, Option, none, some,
  Bytes, codes, ltb, ◌==◌, if◌then◌else◌, length, take, drop, contains, split_once, starts_with,
  is_ascii_alphanumeric, eq_ignore_ascii_case, Result, ok, err, ◌>>=◌, ◌>>◌, reject_if, ok_or,
  Error, invalid,
}
use oxideav_source.Uri.{split, scheme_is, percent_decode_bytes}
use oxideav_source.Base64.{encode_base64, decode_base64}

-- The field `data` of the source is `payload` here.
pub record DataUri : Type 0 where
  pub mediatype : Bytes
  pub base64 : Bool
  pub payload : Bytes

abbrev pub marker : Bytes
marker = codes ";base64"

-- The text in front of a trailing `;base64`, in any case.
unfoldable pub strip_base64_suffix : Bytes → Option Bytes
strip_base64_suffix header =
    if ltb (length header) (length marker)
    then none
    else if eq_ignore_ascii_case (drop (length header - length marker) header) marker
    then some (take (length header - length marker) header)
    else none

-- `is_some()` of the above.
abbrev pub is_some : Option Bytes → Bool
is_some none = false
is_some (some _) = true

unfoldable pub ends_with_base64_marker : Bytes → Bool
unfolding strip_base64_suffix
ends_with_base64_marker mediatype = is_some (strip_base64_suffix mediatype)

unfoldable pub new : Bytes → Bool → Bytes → Result Error DataUri
unfolding starts_with
new mediatype base64 payload = do
  reject_if (contains b',' mediatype) (invalid "data: mediatype contains a ','")
  reject_if (not base64 && ends_with_base64_marker mediatype)
      (invalid "data: mediatype ends with the \";base64\" marker")
  reject_if (starts_with (codes "//") mediatype) (invalid "data: mediatype starts with \"//\"")
  ok (record { mediatype = mediatype; base64 = base64; payload = payload })

-- An upper-case hexadecimal digit, as `{:02X}` writes it.
unfoldable pub hex_digit : ℕ → ℕ
hex_digit n = if ltb n 10 then n + b'0' else n + 55

-- RFC 3986 §2.3
abbrev pub is_unreserved : ℕ → Bool
is_unreserved b = is_ascii_alphanumeric b || (b == b'-' || b == b'.' || b == b'_' || b == b'~')

unfoldable pub percent_encode : Bytes → Bytes
unfolding hex_digit
percent_encode [] = []
percent_encode (b ∷ s) =
    (if is_unreserved b then b ∷ [] else b'%' ∷ hex_digit (b / 16) ∷ hex_digit (b % 16) ∷ [])
    ++ percent_encode s

-- What `format` writes behind the mediatype.
unfoldable pub format_payload : Bool → Bytes → Bytes
unfolding encode_base64 percent_encode
format_payload true payload = codes ";base64," ++ encode_base64 payload
format_payload false payload = b',' ∷ percent_encode payload

unfoldable pub format : DataUri → Bytes
unfolding format_payload
format d = codes "data:" ++ (d.mediatype ++ format_payload d.base64 d.payload)

-- The mediatype and whether the marker stood behind it.
unfoldable pub read_header : Bytes → Option Bytes → Bytes × Bool
read_header header (some stripped) = (stripped, true)
read_header header none = (header, false)

unfoldable pub decode_payload : Bool → Bytes → Result Error Bytes
unfolding decode_base64 percent_decode_bytes
decode_payload base64 payload =
    if base64 then decode_base64 payload else percent_decode_bytes payload

-- `parse` behind the search for the comma.
unfoldable pub parse_parts : Bytes × Bool → Bytes → Result Error DataUri
unfolding starts_with decode_payload
parse_parts (mediatype, base64) payload = do
  reject_if (starts_with (codes "//") mediatype)
      (invalid "data: mediatype starts with \"//\" after the scheme split")
  decoded ← decode_payload base64 payload
  ok (record { mediatype = mediatype; base64 = base64; payload = decoded })

unfoldable pub parse : Bytes → Result Error DataUri
unfolding split split_once strip_base64_suffix read_header parse_parts
parse uri_str = do
  let (scheme, rest) = split uri_str
  reject_if (not (scheme_is scheme (codes "data"))) (invalid "data driver invoked on non-data URI")
  (header, payload) ← ok_or (split_once b',' rest) (invalid "data: URI missing comma separator")
  parse_parts (read_header header (strip_base64_suffix header)) payload
