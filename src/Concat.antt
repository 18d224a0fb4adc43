-- ===== src/Concat.antt =====
-- src/concat.rs: the typed `concat:` URI, its constructor, formatter and parser. The reader is in
-- Readers, and `open` in Open.
pub mod Pieces
pub mod RoundTrip
use oxideav_source.Prelude.{
  ℕ, Bool, true, false, not, List, [], ◌∷◌, ◌++◌, Bytes, codes, ◌==◌, if◌then◌else◌, any, is_empty,
  contains, starts_with, Result, ok, err, ◌>>=◌, ◌>>◌, reject_if, Error, invalid,
}
use oxideav_source.Uri.{split, scheme_is}

pub record ConcatUri : Type 0 where
  pub segments : List Bytes

-- `str::split` and `[_]::join` of `std`, by one byte.
push_first : ℕ → List Bytes → List Bytes
push_first c [] = (c ∷ []) ∷ []
push_first c (p ∷ ps) = (c ∷ p) ∷ ps

unfoldable pub split_all : ℕ → Bytes → List Bytes
unfolding push_first
split_all b [] = [] ∷ []
split_all b (c ∷ s) = let rest = split_all b s in if c == b then [] ∷ rest else push_first c rest

unfoldable pub join : ℕ → List Bytes → Bytes
join b [] = []
join b (p ∷ []) = p
join b (p ∷ q ∷ ps) = p ++ b ∷ join b (q ∷ ps)

-- `segments[0].starts_with("//")`, behind a test that there is a segment.
unfoldable pub first_starts_with_slashes : List Bytes → Bool
unfolding starts_with
first_starts_with_slashes [] = false
first_starts_with_slashes (s ∷ _) = starts_with (codes "//") s

-- The `for` loop of `new`.
unfoldable pub check_segments : List Bytes → Result Error (Unit {0})
check_segments [] = ok tt
check_segments (seg ∷ rest) = do
  reject_if (is_empty seg) (invalid "concat: URI segment cannot be empty")
  reject_if (contains b'|' seg) (invalid "concat: URI segment contains a '|'")
  check_segments rest

unfoldable pub new : List Bytes → Result Error ConcatUri
unfolding check_segments first_starts_with_slashes
new segments = do
  reject_if (is_empty segments) (invalid "concat: URI requires at least one segment")
  check_segments segments
  reject_if (first_starts_with_slashes segments)
      (invalid "concat: first segment starts with \"//\"; it cannot round-trip")
  ok (record { segments = segments })

unfoldable pub format : ConcatUri → Bytes
unfolding join
format x = codes "concat:" ++ join b'|' x.segments

unfoldable pub segments : Bytes → Result Error (List Bytes)
unfolding split_all
segments rest = do
  let parts = split_all b'|' rest
  reject_if (any is_empty parts) (invalid "concat: URI has an empty segment")
  ok parts

-- `parse` behind the scheme test.
unfoldable pub parse_segments : Bytes → Result Error ConcatUri
unfolding segments first_starts_with_slashes
parse_segments rest = do
  reject_if (is_empty rest) (invalid "concat: URI requires at least one segment")
  segs ← segments rest
  reject_if (first_starts_with_slashes segs)
      (invalid "concat: first segment starts with \"//\" after the scheme split")
  ok (record { segments = segs })

unfoldable pub parse : Bytes → Result Error ConcatUri
unfolding parse_segments
parse uri_str = do
  let (scheme, rest) = split uri_str
  reject_if (not (scheme_is scheme (codes "concat")))
      (invalid "concat driver invoked on non-concat URI")
  parse_segments rest
