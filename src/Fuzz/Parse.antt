-- ===== src/Fuzz/Parse.antt =====
-- fuzz/fuzz_targets/uri_parse.rs: what the three parsers accept meets their contracts. A panic is an
-- error with its message; the lossy conversion of the input to text is the standard library's, and
-- a parameter.
use oxideav_source.Prelude.{
  Bool, true, false, ◌&&◌, not, List, [], ◌∷◌, Option, none, some, Bytes, codes, String, ◌==◌,
  if◌then◌else◌, drop, contains, starts_with, strip_prefix, eq_bytes, Result, ok, err, ◌>>=◌, ◌>>◌,
  map_err, Error,
}
use oxideav_source.Slice.{SliceUri}
use oxideav_source.Slice
use oxideav_source.Concat.{ConcatUri}
use oxideav_source.Concat
use oxideav_source.Data.{DataUri}
use oxideav_source.Data
use oxideav_source.Open.{Cursor, open_data}

abbrev pub Check : Type 0
Check = Result String (Unit {0})

-- `assert!` and `expect`
abbrev pub assert : Bool → String → Check
assert true message = ok tt
assert false message = err message

abbrev pub expect : {A : Type 0} → String → Result Error A → Result String A
expect message = map_err (λ _. message)

-- The derived `PartialEq` of the three types.
unfoldable pub eq_slice : SliceUri → SliceUri → Bool
unfolding eq_bytes
eq_slice x y = x.offset == y.offset && (x.length == y.length && eq_bytes x.inner y.inner)

unfoldable pub eq_texts : List Bytes → List Bytes → Bool
unfolding eq_bytes
eq_texts [] [] = true
eq_texts [] (q ∷ qs) = false
eq_texts (p ∷ ps) [] = false
eq_texts (p ∷ ps) (q ∷ qs) = eq_bytes p q && eq_texts ps qs

unfoldable pub eq_concat : ConcatUri → ConcatUri → Bool
unfolding eq_texts
eq_concat x y = eq_texts x.segments y.segments

abbrev pub eq_bool : Bool → Bool → Bool
eq_bool true b = b
eq_bool false b = not b

unfoldable pub eq_data : DataUri → DataUri → Bool
unfolding eq_bytes
eq_data x y =
    eq_bytes x.mediatype y.mediatype && (eq_bool x.base64 y.base64 && eq_bytes x.payload y.payload)

-- `if let Some(rest) = s.strip_prefix(..) && !rest.starts_with("//")`, and the assertion under it.
unfoldable pub canonical : Option Bytes → Bytes → Bytes → String → Check
unfolding starts_with eq_bytes
canonical none formatted s message = ok tt
canonical (some rest) formatted s message =
    if not (starts_with (codes "//") rest) then assert (eq_bytes formatted s) message else ok tt

unfoldable pub rebuilt_slice : SliceUri → Check
unfolding Slice.new eq_slice
rebuilt_slice x = do
  rebuilt ←
      expect "parser-accepted '!'-free components must satisfy SliceUri::new"
        (Slice.new x.offset x.length x.inner)
  assert (eq_slice rebuilt x) "slice: constructor agreement"

abbrev pub slice_parsed : Bytes → Result Error SliceUri → Check
slice_parsed s (err e) = ok tt
slice_parsed s (ok x) = do
  let formatted = Slice.format x
  again ← expect "slice: format must re-parse" (Slice.parse formatted)
  assert (eq_slice again x) "slice: parse-format-parse fixpoint"
  canonical (strip_prefix (codes "slice:") s) formatted s "slice: canonical round-trip"
  if contains b'!' x.inner then ok tt else rebuilt_slice x

unfoldable pub check_slice : Bytes → Check
unfolding Slice.parse Slice.format strip_prefix canonical rebuilt_slice
check_slice s = slice_parsed s (Slice.parse s)

abbrev pub concat_parsed : Bytes → Result Error ConcatUri → Check
concat_parsed s (err e) = ok tt
concat_parsed s (ok x) = do
  let formatted = Concat.format x
  again ← expect "concat: format must re-parse" (Concat.parse formatted)
  assert (eq_concat again x) "concat: parse-format-parse fixpoint"
  canonical (strip_prefix (codes "concat:") s) formatted s "concat: canonical round-trip"
  rebuilt ← expect "parser-accepted segments must satisfy ConcatUri::new" (Concat.new x.segments)
  assert (eq_concat rebuilt x) "concat: constructor agreement"

unfoldable pub check_concat : Bytes → Check
unfolding Concat.parse Concat.format Concat.new strip_prefix canonical eq_concat
check_concat s = concat_parsed s (Concat.parse s)

-- `read_to_end` of a cursor: all bytes from its position on.
abbrev pub read_to_end : Cursor → Bytes
read_to_end r = drop r.pos r.buf

abbrev pub data_parsed : Bytes → Result Error DataUri → Check
data_parsed s (err e) = ok tt
data_parsed s (ok x) = do
  assert (not (contains b',' x.mediatype)) "data: mediatype must stop at the comma"
  let formatted = Data.format x
  again ← expect "data: format must re-parse" (Data.parse formatted)
  assert (eq_data again x) "data: parse-format-parse fixpoint"
  rebuilt ←
      expect "parser-accepted components must satisfy DataUri::new"
        (Data.new x.mediatype x.base64 x.payload)
  assert (eq_data rebuilt x) "data: constructor agreement"
  r ← expect "data: parse ok implies open ok" (open_data s)
  assert (eq_bytes (read_to_end r) x.payload) "data: open/parse byte agreement"

unfoldable pub check_data : Bytes → Check
unfolding Data.parse Data.format Data.new open_data eq_data
check_data s = data_parsed s (Data.parse s)

-- The whole target, with `String::from_utf8_lossy`.
unfoldable pub uri_parse : (Bytes → Bytes) → Bytes → Check
unfolding check_slice check_concat check_data
uri_parse from_utf8_lossy d = do
  let s = from_utf8_lossy d
  check_slice s
  check_concat s
  check_data s
