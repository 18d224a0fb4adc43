-- ===== src/Fuzz/Contracts.antt =====
-- fuzz/fuzz_targets/uri_parse.rs: the contracts hold of every text.
use oxideav_source.Prelude.{
  ◌≡◌, refl, sym, ◌∙◌, ap, inl, inr, Bool, true, false, List, [], ◌∷◌, ◌++◌, Bytes, codes, String,
  ==_refl, All, contains, starts_with, strip_prefix, strip_prefix_sound, eq_bytes, eq_bytes_refl,
  Bool-cases, if-cases, Option-cases, Result-cases, is_empty, ok,
}
use oxideav_source.Base64.Groups.{IsByte}
use oxideav_source.Uri.{split}
use oxideav_source.Slice.{SliceUri}
use oxideav_source.Slice
use oxideav_source.Slice.RoundTrip.{
  parse_header_iff, parse-header, SliceUri-parse-format-parse, SliceUri-format-parse,
}
use oxideav_source.Concat.{ConcatUri}
use oxideav_source.Concat
use oxideav_source.Concat.RoundTrip.{
  parse_segments_sound, parse-segments, ConcatUri-new_iff, ConcatUri-parse-format-parse,
  ConcatUri-format-parse,
}
use oxideav_source.Data.{DataUri}
use oxideav_source.Data
use oxideav_source.Data.Produced.{parse-IsWritable, DataUri-new_iff, DataUri-parse-format-parse}
use oxideav_source.Open.{open_data, open_data_uri, cursor_new}
use oxideav_source.Mem
use oxideav_source.Fuzz.Parse.{
  eq_slice, eq_texts, eq_concat, eq_bool, eq_data, canonical, rebuilt_slice, check_slice,
  check_concat, check_data, uri_parse,
}

eq_slice_refl : (x : SliceUri) → eq_slice x x ≡ true
unfolding eq_slice
eq_slice_refl x = rw (==_refl x.offset, ==_refl x.length, eq_bytes_refl x.inner)

eq_texts_refl : (ps : List Bytes) → eq_texts ps ps ≡ true
unfolding eq_texts
eq_texts_refl [] = refl
eq_texts_refl (p ∷ ps) = rw (eq_bytes_refl p, eq_texts_refl ps)

eq_concat_refl : (x : ConcatUri) → eq_concat x x ≡ true
unfolding eq_concat
eq_concat_refl x = eq_texts_refl x.segments

eq_bool_refl : (b : Bool) → eq_bool b b ≡ true
eq_bool_refl true = refl
eq_bool_refl false = refl

eq_data_refl : (x : DataUri) → eq_data x x ≡ true
unfolding eq_data
eq_data_refl x = rw (eq_bytes_refl x.mediatype, eq_bool_refl x.base64, eq_bytes_refl x.payload)

-- The canonical check passes where a text behind the prefix that does not begin with `//` is
-- formatted again.
canonical_passes :
    (prefix s formatted : Bytes) (message : String)
    → ((rest : Bytes) → s ≡ prefix ++ rest → starts_with (codes "//") rest ≡ false → formatted ≡ s)
    → canonical (strip_prefix prefix s) formatted s message ≡ ok tt
canonical_passes prefix s formatted message same = elim (Option-cases (strip_prefix prefix s)) [
  | inl e ↦ rw e (unfold canonical in refl)
  | inr (rest, e) ↦ rw e (elim (Bool-cases (starts_with (codes "//") rest)) [
    | inl slashes ↦ unfold canonical in rw slashes
    | inr free ↦
        let equal : eq_bytes formatted s ≡ true =
          ap (eq_bytes formatted) (sym (same rest (strip_prefix_sound prefix s rest e) free))
          ∙ eq_bytes_refl formatted in
        unfold canonical in rw (free, equal)
  ])
]

Slice-new_lem :
    (x : SliceUri)
    → is_empty x.inner ≡ false
    → contains b'!' x.inner ≡ false
    → Slice.new x.offset x.length x.inner ≡ ok x
unfolding Slice.new
Slice-new_lem x given free = rw (given, free)

rebuilt_slice_passes :
    (x : SliceUri)
    → is_empty x.inner ≡ false
    → contains b'!' x.inner ≡ false
    → rebuilt_slice x ≡ ok tt
unfolding rebuilt_slice
rebuilt_slice_passes x given free = rw (Slice-new_lem x given free, eq_slice_refl x)

check_slice_passes : (s : Bytes) → check_slice s ≡ ok tt
unfolding check_slice
check_slice_passes s = elim (Result-cases (Slice.parse s)) [
  | inr (e, rejected) ↦ rw rejected
  | inl (x, e) ↦
      let given = ((parse_header_iff (split s).1 x).0 (parse-header s x e)).0.inner_given in
      rw
        (
          e,
          SliceUri-parse-format-parse s x e,
          eq_slice_refl x,
          canonical_passes (codes "slice:") s (Slice.format x) "slice: canonical round-trip"
              (λ rest u free.
                SliceUri-format-parse rest x free (sym (ap Slice.parse u) ∙ e) ∙ sym u),
        )
        (if-cases (λ r. r ≡ ok tt) (contains b'!' x.inner) (λ _. refl)
          (λ free. rebuilt_slice_passes x given free))
]

check_concat_passes : (s : Bytes) → check_concat s ≡ ok tt
unfolding check_concat
check_concat_passes s = elim (Result-cases (Concat.parse s)) [
  | inr (e, rejected) ↦ rw rejected
  | inl (x, e) ↦
      let w = (parse_segments_sound (split s).1 x (parse-segments s x e)).0 in
      rw (
        e,
        ConcatUri-parse-format-parse s x e,
        eq_concat_refl x,
        canonical_passes (codes "concat:") s (Concat.format x) "concat: canonical round-trip"
            (λ rest u free.
              ConcatUri-format-parse rest x free (sym (ap Concat.parse u) ∙ e) ∙ sym u),
        (ConcatUri-new_iff x.segments x).1 (refl, w),
        eq_concat_refl x,
      )
]

check_data_passes : (s : Bytes) → All IsByte s → check_data s ≡ ok tt
unfolding check_data Mem.new
check_data_passes s bytes = elim (Result-cases (Data.parse s)) [
  | inr (e, rejected) ↦ rw rejected
  | inl (x, e) ↦
      let w = parse-IsWritable s bytes e in
      rw (
        e,
        (DataUri-new_iff x.mediatype x.base64 x.payload x w.bytes).1 (refl, w),
        w.no_comma,
        DataUri-parse-format-parse s x bytes e,
        eq_data_refl x,
        opened s x e,
        eq_bytes_refl x.payload,
      )
]
  where
    opened :
        (s : Bytes) (x : DataUri) → Data.parse s ≡ ok x → open_data s ≡ ok (cursor_new x.payload)
    opened s x e = unfold open_data open_data_uri in rw e

-- Where the conversion to text gives bytes, the target `uri_parse` ends without a panic: for what
-- a parser accepts, formatting and parsing again gives the value back, canonical `slice:` and
-- `concat:` inputs are formatted to the same bytes, the constructors agree, and `open_data` serves
-- the payload.
pub uri_parse_passes :
    (from_utf8_lossy : Bytes → Bytes) (d : Bytes)
    → All IsByte (from_utf8_lossy d)
    → uri_parse from_utf8_lossy d ≡ ok tt
unfolding uri_parse
uri_parse_passes from_utf8_lossy d bytes =
    let s = from_utf8_lossy d in
    rw (check_slice_passes s, check_concat_passes s, check_data_passes s bytes)
