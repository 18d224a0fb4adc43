-- ===== src/Open/Typed.antt =====
-- `DataUri::open`, `SliceUri::open` and `ConcatUri::open`: the typed and the string entry points.
use oxideav_source.Prelude.{Bytes, ◌≡◌, refl, Result, Error}
use oxideav_source.Data
use oxideav_source.Slice
use oxideav_source.Concat
use oxideav_source.Data.RoundTrip.{DataUri-parse-format}
use oxideav_source.Slice.RoundTrip.{SliceUri-parse-format}
use oxideav_source.Concat.RoundTrip.{ConcatUri-parse-format}
use oxideav_source.Source.{Source}
use oxideav_source.Open.{
  open_data, open_data_uri, open_slice, open_slice_uri, open_concat, open_concat_uri,
}

-- Opening a `DataUri` that can be written gives what opening its formatted text gives.
open_data-format :
    (d : Data.DataUri) → Data.RoundTrip.IsWritable d → open_data (Data.format d) ≡ open_data_uri d
unfolding open_data
open_data-format d w = rw (DataUri-parse-format d w) refl

module _ {S : Type 0} (src : Source S) (open_bytes : Bytes → Result Error S) where
  -- Opening a `SliceUri` that can be written gives what opening its formatted text gives, with any
  -- dispatcher.
  open_slice-format :
      (x : Slice.SliceUri)
      → Slice.RoundTrip.IsWritable x
      → open_slice src open_bytes (Slice.format x) ≡ open_slice_uri src open_bytes x
  unfolding open_slice
  open_slice-format x w = rw (SliceUri-parse-format x w) refl

  -- Opening a `ConcatUri` that can be written gives what opening its formatted text gives, with
  -- any dispatcher.
  open_concat-format :
      (x : Concat.ConcatUri)
      → Concat.RoundTrip.IsWritable x
      → open_concat src open_bytes (Concat.format x) ≡ open_concat_uri src open_bytes x
  unfolding open_concat
  open_concat-format x w = rw (ConcatUri-parse-format x w) refl
