-- ===== src/Open.antt =====
-- src/lib.rs, src/file.rs and the `open` functions of src/data.rs, src/slice.rs and src/concat.rs:
-- from a URI to a reader. `Box<dyn BytesSource>` is a sum of the readers that the openers make; the
-- sources inside a window or a composite are one level down. Files are a parameter, `FileSystem`.
pub mod Boxes
pub mod Typed
pub mod Lengths
pub mod Contents
pub mod Leaves
pub mod Outcomes
pub mod Registry
use oxideav_source.Prelude.{
  ℕ, zero, suc, List, [], ◌∷◌, Bytes, codes, not, if◌then◌else◌, Result, ok, err, ◌>>=◌, ◌>>◌,
  reject_if, map_err, Error, invalid, no_driver, io, IoError,
}
use oxideav_source.Uri.{split, scheme_is, has_file_scheme, percent_decode_path}
use oxideav_source.Data
use oxideav_source.Slice
use oxideav_source.Concat
use oxideav_source.Source.{SeekFrom, Run, Source}
use oxideav_source.Mem.{MemReader, Table, open_mem}
use oxideav_source.Mem
use oxideav_source.Sub.{SubSource}
use oxideav_source.Sub
use oxideav_source.ConcatReader.{ConcatSource}
use oxideav_source.ConcatReader

-- `std::fs` as the drivers use it: `File::open` on a path, and `Read` and `Seek` of a file.
pub record FileSystem (F : Type 0) : Type 0 where
  pub open_at : Bytes → Result IoError F
  pub device : Source F

-- `Cursor<Vec<u8>>` of the standard library reads and seeks like a `MemReader`, up to the message
-- of a refused seek.
abbrev pub Cursor : Type 0
Cursor = MemReader

-- `Cursor::new`
abbrev pub cursor_new : Bytes → Cursor
cursor_new = Mem.new

-- `DataUri::open`, which cannot fail, and `open_data`.
unfoldable pub open_data_uri : Data.DataUri → Result Error Cursor
open_data_uri x = ok (cursor_new x.payload)

unfoldable pub open_data : Bytes → Result Error Cursor
unfolding open_data_uri
open_data uri_str = Data.parse uri_str >>= open_data_uri

-- The path that `open_file` opens: decoded behind an explicit scheme, and verbatim without one.
unfoldable pub file_path : Bytes → Result Error Bytes
file_path uri_str =
    let rest = (split uri_str).1 in
    if has_file_scheme uri_str then percent_decode_path rest else ok rest

unfoldable pub open_file : {F : Type 0} → FileSystem F → Bytes → Result Error F
unfolding file_path
open_file fs uri_str = do
  reject_if (not (scheme_is (split uri_str).0 (codes "file")))
      (invalid "file driver invoked on non-file URI")
  path ← file_path uri_str
  map_err io (fs.open_at path)

-- The readers inside a window or a composite are of type `S`.
pub data Box (F S : Type 0) : Type 0 where
  file : F → Box F S
  mem : MemReader → Box F S
  cursor : Cursor → Box F S
  sub : SubSource S → Box F S
  concat : ConcatSource S → Box F S

-- `SliceUri::open` and `open_slice`, `ConcatUri::open` and `open_concat`, with the shared dispatcher
-- `open_bytes` and the operations of the readers that it makes.
module _ {S : Type 0} (src : Source S) (open_bytes : Bytes → Result Error S) where
  unfoldable pub open_inner : Bytes → Result Error S
  open_inner inner = open_bytes inner

  unfoldable pub open_slice_uri : Slice.SliceUri → Result Error (SubSource S)
  unfolding open_inner
  open_slice_uri x = do inner ← open_inner x.inner; Sub.new src inner x.offset x.length

  unfoldable pub open_slice : Bytes → Result Error (SubSource S)
  unfolding open_slice_uri
  open_slice uri_str = Slice.parse uri_str >>= open_slice_uri

  unfoldable pub open_segment : Bytes → Result Error S
  open_segment seg = do
    reject_if (scheme_is (split seg).0 (codes "concat"))
        (invalid "concat: segment is itself a concat: URI; nesting concat is not supported")
    open_bytes seg

  -- The loop of `ConcatUri::open`.
  unfoldable pub open_segments : List Bytes → Result Error (List S)
  unfolding open_segment
  open_segments [] = ok []
  open_segments (seg ∷ rest) = do
    part ← open_segment seg
    parts ← open_segments rest
    ok (part ∷ parts)

  unfoldable pub open_concat_uri : Concat.ConcatUri → Result Error (ConcatSource S)
  unfolding open_segments
  open_concat_uri x = do parts ← open_segments x.segments; ConcatReader.new src parts

  unfoldable pub open_concat : Bytes → Result Error (ConcatSource S)
  unfolding open_concat_uri
  open_concat uri_str = Concat.parse uri_str >>= open_concat_uri

-- `Read` and `Seek` of a boxed reader: those of the reader in the box.
abbrev pub boxed : {A B R : Type 0} → (A → B) → Result IoError R × A → Result IoError R × B
boxed f (r, a) = (r, f a)

module _ {F S : Type 0} (device : Source F) (src : Source S) where
  unfoldable pub read_box : ℕ → Run IoError (Box F S) Bytes
  read_box n (file f) = boxed file (device.read n f)
  read_box n (mem r) = boxed mem (Mem.read n r)
  read_box n (cursor r) = boxed cursor (Mem.read n r)
  read_box n (sub w) = boxed sub (Sub.read src n w)
  read_box n (concat w) = boxed concat (ConcatReader.read src n w)

  unfoldable pub seek_box : SeekFrom → Run IoError (Box F S) ℕ
  seek_box from (file f) = boxed file (device.seek from f)
  seek_box from (mem r) = boxed mem (Mem.seek from r)
  seek_box from (cursor r) = boxed cursor (Mem.seek from r)
  seek_box from (sub w) = boxed sub (Sub.seek from w)
  seek_box from (concat w) = boxed concat (ConcatReader.seek from w)

abbrev pub no_bundled_driver : Error
no_bundled_driver =
    no_driver
      "no bundled in-process driver for scheme; only file/mem/data/slice/concat are dispatchable without a registry"

module _ {F : Type 0} (fs : FileSystem F) where
  -- `Box<dyn BytesSource>`, up to `n` levels.
  abbrev pub Dyn : ℕ → Type 0
  Dyn zero = ⊥
  Dyn (suc n) = Box F (Dyn n)

  unfoldable pub dyn_source : (n : ℕ) → Source (Dyn n)
  unfolding read_box seek_box
  dyn_source zero = record { read = λ n s. absurd s; seek = λ from s. absurd s }
  dyn_source (suc n) = record {
    read = read_box fs.device (dyn_source n);
    seek = seek_box fs.device (dyn_source n);
  }

  -- The level at which a URI would have more nested ones than levels.
  abbrev pub out_of_levels : Error
  out_of_levels = invalid "out of levels"

  unfoldable pub open_bytes : Table → (n : ℕ) → Bytes → Result Error (Dyn n)
  unfolding open_file open_data open_slice open_concat dyn_source
  open_bytes table zero uri_str = err out_of_levels
  open_bytes table (suc n) uri_str =
      let scheme = (split uri_str).0 in
      let inner = open_bytes table n in
      if scheme_is scheme (codes "file")
      then (open_file fs uri_str >>= λ r. ok (file r))
      else if scheme_is scheme (codes "mem")
      then (open_mem table uri_str >>= λ r. ok (mem r))
      else if scheme_is scheme (codes "data")
      then (open_data uri_str >>= λ r. ok (cursor r))
      else if scheme_is scheme (codes "slice")
      then (open_slice (dyn_source n) inner uri_str >>= λ r. ok (sub r))
      else if scheme_is scheme (codes "concat")
      then (open_concat (dyn_source n) inner uri_str >>= λ r. ok (concat r))
      else err no_bundled_driver
