-- ===== src/Slice.antt =====
-- src/slice.rs: the typed `slice:` URI, its constructor, formatter and parser. (`open` is in Open.)
pub mod Numbers
pub mod RoundTrip
use oxideav_source.Prelude.{
  ℕ, Bool, true, false, ◌&&◌, not, [], ◌∷◌, ◌++◌, Option, none, some, Bytes, codes, ltb,
  if◌then◌else◌, length, all, is_empty, contains, split_once, starts_with, is_ascii_digit, Result,
  ok, err, ◌>>=◌, ◌>>◌, reject_if, ok_or, Error, invalid,
}
use oxideav_source.Uri.{split, scheme_is}
use oxideav_source.Decimal.{print_u64, read_u64}

pub record SliceUri : Type 0 where
  pub offset : ℕ
  pub length : ℕ
  pub inner : Bytes

unfoldable pub new : ℕ → ℕ → Bytes → Result Error SliceUri
new offset len inner = do
  reject_if (is_empty inner) (invalid "slice: URI inner reference cannot be empty")
  reject_if (contains b'!' inner) (invalid "slice: URI inner reference contains a '!'")
  ok (record { offset = offset; length = len; inner = inner })

unfoldable pub format : SliceUri → Bytes
format x = codes "slice:" ++ (print_u64 x.offset ++ b'+' ∷ (print_u64 x.length ++ b'!' ∷ x.inner))

-- The argument `what` only goes into the messages.
unfoldable pub parse_canonical_u64 : Bytes → Result Error ℕ
unfolding starts_with
parse_canonical_u64 s = do
  reject_if (is_empty s) (invalid "slice: number is empty")
  reject_if (not (all is_ascii_digit s)) (invalid "slice: number is not a non-negative decimal u64")
  reject_if (ltb 1 (length s) && starts_with (codes "0") s)
      (invalid "slice: number has leading zeros; the canonical form has none")
  ok_or (read_u64 s 0) (invalid "slice: number does not fit in a u64")

unfoldable pub parse_header : Bytes → Result Error SliceUri
parse_header rest = do
  (range, inner) ←
      ok_or (split_once b'!' rest) (invalid "slice: URI missing '!' separator before inner URI")
  (off_s, len_s) ←
      ok_or (split_once b'+' range)
        (invalid "slice: URI range missing '+' between offset and length")
  offset ← parse_canonical_u64 off_s
  len ← parse_canonical_u64 len_s
  reject_if (is_empty inner) (invalid "slice: URI inner reference is empty after '!'")
  ok (record { offset = offset; length = len; inner = inner })

-- The header is the record that `parse` returns.
unfoldable pub parse : Bytes → Result Error SliceUri
unfolding parse_header
parse uri_str = do
  let (scheme, rest) = split uri_str
  reject_if (not (scheme_is scheme (codes "slice")))
      (invalid "slice driver invoked on non-slice URI")
  parse_header rest
