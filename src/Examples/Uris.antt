-- ===== src/Examples/Uris.antt =====
-- The theorems on URIs, at concrete ones.
use oxideav_source.Prelude.{
  starts_with, ltb, all, All, ◌<◌, ◌≡◌, ◌↔◌, refl, true, false, [], ◌∷◌, Bytes, codes, arith, ok,
}
use oxideav_source.Uri.{percent_decode_bytes}
use oxideav_source.Uri.Percent.{Decodes, percent_decode_bytes_iff}
use oxideav_source.Base64.Groups.{IsByte}
use oxideav_source.Data.{DataUri, percent_encode}
use oxideav_source.Data
use oxideav_source.Data.Produced.{DataUri-new_iff}
use oxideav_source.Decimal.{print_u64}
use oxideav_source.Slice.{SliceUri, parse_canonical_u64}
use oxideav_source.Slice
use oxideav_source.Slice.Numbers.{parse_canonical_u64_iff}
use oxideav_source.Concat.{ConcatUri}
use oxideav_source.Concat

bytes : (s : Bytes) → all (λ b. ltb b 256) s ≡ true → All IsByte s
bytes [] h = tt
bytes (b ∷ s) h = (ground arith, bytes s (ground arith))

percent_decode_bytes_iff_example :
    (percent_decode_bytes (codes "a%20b") ≡ ok (codes "a b"))
    ↔ Decodes (codes "a%20b") (codes "a b")
percent_decode_bytes_iff_example = percent_decode_bytes_iff (codes "a%20b") (codes "a b")

abbrev greeting : DataUri
greeting = record { mediatype = codes "text/plain"; base64 = true; payload = codes "Hi" }

greeting-IsWritable : Data.RoundTrip.IsWritable greeting
unfolding Data.ends_with_base64_marker starts_with
greeting-IsWritable = record {
  no_comma = refl;
  no_marker = λ h. absurd (cc);
  no_slashes = refl;
  bytes = bytes (codes "Hi") refl;
}

DataUri-parse-format_example : Data.parse (Data.format greeting) ≡ ok greeting
DataUri-parse-format_example = Data.RoundTrip.DataUri-parse-format greeting greeting-IsWritable

DataUri-new_iff_example : (Data.new (codes "a;base64") false (7 ∷ []) ≡ ok greeting) ↔ (
    (greeting ≡ record { mediatype = codes "a;base64"; base64 = false; payload = 7 ∷ [] })
    × Data.RoundTrip.IsWritable greeting)
DataUri-new_iff_example =
    DataUri-new_iff (codes "a;base64") false (7 ∷ []) greeting (omega arith, tt)

parse_canonical_u64_iff_example :
    (parse_canonical_u64 (codes "007") ≡ ok 7)
    ↔ ((7 < 18446744073709551616) × (codes "007" ≡ print_u64 7))
parse_canonical_u64_iff_example = parse_canonical_u64_iff (codes "007") 7

abbrev window : SliceUri
window = record { offset = 2; length = 30; inner = codes "mem://a!b" }

window-IsWritable : Slice.RoundTrip.IsWritable window
window-IsWritable = record {
  offset_fits = omega arith;
  length_fits = omega arith;
  inner_given = refl;
}

SliceUri-parse-format_example : Slice.parse (Slice.format window) ≡ ok window
SliceUri-parse-format_example = Slice.RoundTrip.SliceUri-parse-format window window-IsWritable

abbrev joined : ConcatUri
joined = record { segments = codes "a" ∷ codes "mem://b" ∷ [] }

joined-IsWritable : Concat.RoundTrip.IsWritable joined
unfolding Concat.first_starts_with_slashes
joined-IsWritable = record {
  given = refl;
  no_empty = refl;
  no_bar = (refl, (refl, tt));
  no_slashes = refl;
}

ConcatUri-parse-format_example : Concat.parse (Concat.format joined) ≡ ok joined
ConcatUri-parse-format_example = Concat.RoundTrip.ConcatUri-parse-format joined joined-IsWritable

ConcatUri-new_iff_example : (Concat.new (codes "a" ∷ codes "mem://b" ∷ []) ≡ ok joined) ↔ (
    (joined ≡ record { segments = codes "a" ∷ codes "mem://b" ∷ [] })
    × Concat.RoundTrip.IsWritable joined)
ConcatUri-new_iff_example =
    Concat.RoundTrip.ConcatUri-new_iff (codes "a" ∷ codes "mem://b" ∷ []) joined
