-- ===== src/Uri.antt =====
-- src/uri.rs: the scheme splitter, the scheme tests and the percent-decoder. A `str` is its bytes;
-- the splitter's `chars()` tests accept ASCII only, so they read the same on bytes.
pub mod Split
pub mod Percent
pub mod Paths
use Prim.Native.Nat.{bit_or}
use mathlib.Core.Option.{get_or}
use oxideav_source.Prelude.{
  ℕ, ◌+◌, ◌-◌, ◌*◌, ◌%◌, Bool, true, false, ◌&&◌, ◌||◌, not, List, [], ◌∷◌, ◌++◌, Option, none,
  some, Bytes, codes, ltb, leb, between, ◌==◌, if◌then◌else◌, length, all, take,
  is_ascii_alphabetic, is_ascii_alphanumeric, eq_ignore_ascii_case, split_once, strip_prefix,
  is_utf8, Result, ok, err, ◌>>=◌, ok_or, Error, invalid, is_empty,
}

-- `s.chars().next().unwrap()` tested by `p`, behind a test that `s` is not empty.
abbrev pub first_is : (ℕ → Bool) → Bytes → Bool
first_is p [] = false
first_is p (c ∷ s) = p c

abbrev pub is_scheme_char : ℕ → Bool
is_scheme_char c = is_ascii_alphanumeric c || (c == b'+' || c == b'-' || c == b'.')

-- A single ASCII letter in front of the colon: a Windows drive.
abbrev pub is_drive_letter : Bytes → Bool
is_drive_letter scheme = length scheme == 1 && first_is is_ascii_alphabetic scheme

abbrev pub is_valid_scheme : Bytes → Bool
is_valid_scheme scheme =
    not (is_empty scheme) && first_is is_ascii_alphabetic scheme && all is_scheme_char scheme

-- `rest.strip_prefix("//").unwrap_or(rest)`
unfoldable pub strip_slashes : Bytes → Bytes
unfolding strip_prefix
strip_slashes rest = get_or (strip_prefix (codes "//") rest) rest

-- `split`, behind the search for the first colon.
unfoldable pub split_scheme : Bytes → Option (Bytes × Bytes) → Bytes × Bytes
split_scheme uri none = (codes "file", uri)
split_scheme uri (some (scheme, rest)) =
    if is_drive_letter scheme
    then (codes "file", uri)
    else if not (is_valid_scheme scheme)
    then (codes "file", uri)
    else (scheme, strip_slashes rest)

unfoldable pub split : Bytes → Bytes × Bytes
unfolding split_scheme split_once strip_slashes
split uri = split_scheme uri (split_once b':' uri)

abbrev pub scheme_is : Bytes → Bytes → Bool
scheme_is scheme want = eq_ignore_ascii_case scheme want

-- `bytes[4] == b':'`
abbrev fifth_is : ℕ → Bytes → Bool
fifth_is b (_ ∷ _ ∷ _ ∷ _ ∷ c ∷ _) = c == b
fifth_is b _ = false

unfoldable pub has_file_scheme : Bytes → Bool
has_file_scheme bytes =
    if ltb (length bytes) 5
    then false
    else eq_ignore_ascii_case (take 4 bytes) (codes "file") && fifth_is b':' bytes

unfoldable pub hex_nibble : ℕ → Option ℕ
hex_nibble b =
    if between b'0' b'9' b
    then some (b - b'0')
    else if between b'a' b'f' b
    then some (b - b'a' + 10)
    else if between b'A' b'F' b
    then some (b - b'A' + 10)
    else none

abbrev pub truncated : Error
truncated = invalid "percent-encoding truncated at offset"

abbrev pub non_hex : Error
non_hex = invalid "percent-encoding: non-hex digit"

-- The byte `(hi << 4) | lo` of `%HH`.
unfoldable pub decode_triplet : ℕ → ℕ → Result Error ℕ
unfolding hex_nibble
decode_triplet h l = do
  hi ← ok_or (hex_nibble h) non_hex
  lo ← ok_or (hex_nibble l) non_hex
  ok (bit_or (hi * 16 % 256) lo)

-- The `while` loop, over the bytes from `i` on. What a round pushes stands in front of what the
-- later rounds push.
unfoldable pub percent_decode_bytes : Bytes → Result Error Bytes
unfolding decode_triplet
percent_decode_bytes [] = ok []
percent_decode_bytes (b ∷ []) = if b == b'%' then err truncated else ok (b ∷ [])
percent_decode_bytes (b ∷ c ∷ []) = do
  let rest = percent_decode_bytes (c ∷ [])
  if b == b'%' then err truncated else (do r ← rest; ok (b ∷ r))
percent_decode_bytes (b ∷ h ∷ l ∷ s) =
    let escaped = (do x ← decode_triplet h l; r ← percent_decode_bytes s; ok (x ∷ r)) in
    let plain = (do r ← percent_decode_bytes (h ∷ l ∷ s); ok (b ∷ r)) in
    if b == b'%' then escaped else plain

unfoldable pub percent_decode_path : Bytes → Result Error Bytes
unfolding percent_decode_bytes is_utf8
percent_decode_path s = do
  bytes ← percent_decode_bytes s
  if is_utf8 bytes then ok bytes else err (invalid "percent-decoded path is not valid UTF-8")
