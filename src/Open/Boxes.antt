-- ===== src/Open/Boxes.antt =====
-- src/lib.rs: every reader that the dispatcher makes keeps the promise of `BytesSource`.
use oxideav_source.Prelude.{ℕ, zero, suc, ◌<◌, Bytes, length, u64_mod, Result, IoError}
use oxideav_source.Source.{
  SeekFrom, Source, Reads, got, failed, Seeks, moved, refused, broken, IsSource, Never,
}
use oxideav_source.Mem.{MemReader}
use oxideav_source.Mem
use oxideav_source.Mem.Reader.{MemReader-IsSource}
use oxideav_source.Mem.Reader
use oxideav_source.Sub
use oxideav_source.Sub.Window.{Windows, SubSource-IsSource}
use oxideav_source.ConcatReader
use oxideav_source.ConcatReader.Reading.{Joins}
use oxideav_source.ConcatReader.Laws.{ConcatSource-IsSource}
use oxideav_source.Open.{
  FileSystem, Box, file, mem, cursor, sub, concat, boxed, read_box, seek_box, Dyn, dyn_source,
}

-- A reader in a box behaves as it does outside.
module _ {A B : Type 0} (f : A → B) (ServesA : A → Bytes → ℕ → Type 0)
    (ServesB : B → Bytes → ℕ → Type 0) (RaisesA RaisesB : IoError → Type 0)
    (into : (a : A) (c : Bytes) (p : ℕ) → ServesA a c p → ServesB (f a) c p)
    (raised : (e : IoError) → RaisesA e → RaisesB e) (c : Bytes) (p : ℕ) where
  boxed-Reads :
      (n : ℕ) (out : Result IoError Bytes × A)
      → Reads ServesA RaisesA c p n out
      → Reads ServesB RaisesB c p n (boxed f out)
  boxed-Reads n _ (got k s le left some h) = got k (f s) le left some (into s c _ h)
  boxed-Reads n _ (failed e s r h) = failed e (f s) (raised e r) (into s c p h)

  boxed-Seeks :
      (from : SeekFrom) (out : Result IoError ℕ × A)
      → Seeks ServesA RaisesA c p from out
      → Seeks ServesB RaisesB c p from (boxed f out)
  boxed-Seeks from _ (moved q s t h) = moved q (f s) t (into s c q h)
  boxed-Seeks from _ (refused m s t h) = refused m (f s) t (into s c p h)
  boxed-Seeks from _ (broken e s r h) = broken e (f s) (raised e r) (into s c p h)

never_raised : (P : IoError → Type 0) (e : IoError) → Never e → P e
never_raised P e h = absurd h

module _ {F S : Type 0} (device : Source F) (src : Source S) (ServesF : F → Bytes → ℕ → Type 0)
    (ServesS : S → Bytes → ℕ → Type 0) (Raises : IoError → Type 0)
    (file_law : IsSource device ServesF Raises) (law : IsSource src ServesS Raises) where
  -- What it means that a boxed reader serves a content from a position.
  abbrev pub ServesBox : Box F S → Bytes → ℕ → Type 0
  ServesBox (file f) c p = ServesF f c p
  ServesBox (mem r) c p = Mem.Reader.Serves r c p
  ServesBox (cursor r) c p = Mem.Reader.Serves r c p
  ServesBox (sub w) c p = Windows src ServesS Raises law w c p
  ServesBox (concat w) c p = Joins src ServesS Raises law w c p

  pub box_bounded : (s : Box F S) (c : Bytes) (p : ℕ) → ServesBox s c p → length c < u64_mod
  box_bounded (file f) c p h = file_law.bounded f c p h
  box_bounded (mem r) c p h = MemReader-IsSource.bounded r c p h
  box_bounded (cursor r) c p h = MemReader-IsSource.bounded r c p h
  box_bounded (sub w) c p h = (SubSource-IsSource src ServesS Raises law).bounded w c p h
  box_bounded (concat w) c p h = (ConcatSource-IsSource src ServesS Raises law).bounded w c p h

  pub read_box-Reads :
      (s : Box F S) (c : Bytes) (p n : ℕ)
      → ServesBox s c p
      → Reads ServesBox Raises c p n (read_box device src n s)
  unfolding read_box Mem.source Sub.source ConcatReader.source
  read_box-Reads (file f) c p n h =
      boxed-Reads file ServesF ServesBox Raises Raises (λ a c p h. h) (λ e r. r) c p n _
        (file_law.reads f c p n h)
  read_box-Reads (mem r) c p n h =
      boxed-Reads mem Mem.Reader.Serves ServesBox Never Raises (λ a c p h. h) (never_raised Raises)
        c p n _ (MemReader-IsSource.reads r c p n h)
  read_box-Reads (cursor r) c p n h =
      boxed-Reads cursor Mem.Reader.Serves ServesBox Never Raises (λ a c p h. h)
        (never_raised Raises) c p n _ (MemReader-IsSource.reads r c p n h)
  read_box-Reads (sub w) c p n h =
      boxed-Reads sub (Windows src ServesS Raises law) ServesBox Raises Raises (λ a c p h. h)
        (λ e r. r) c p n _ ((SubSource-IsSource src ServesS Raises law).reads w c p n h)
  read_box-Reads (concat w) c p n h =
      boxed-Reads concat (Joins src ServesS Raises law) ServesBox Raises Raises (λ a c p h. h)
        (λ e r. r) c p n _ ((ConcatSource-IsSource src ServesS Raises law).reads w c p n h)

  pub seek_box-Seeks :
      (s : Box F S) (c : Bytes) (p : ℕ) (from : SeekFrom)
      → ServesBox s c p
      → Seeks ServesBox Raises c p from (seek_box device src from s)
  unfolding seek_box Mem.source Sub.source ConcatReader.source
  seek_box-Seeks (file f) c p from h =
      boxed-Seeks file ServesF ServesBox Raises Raises (λ a c p h. h) (λ e r. r) c p from _
        (file_law.seeks f c p from h)
  seek_box-Seeks (mem r) c p from h =
      boxed-Seeks mem Mem.Reader.Serves ServesBox Never Raises (λ a c p h. h) (never_raised Raises)
        c p from _ (MemReader-IsSource.seeks r c p from h)
  seek_box-Seeks (cursor r) c p from h =
      boxed-Seeks cursor Mem.Reader.Serves ServesBox Never Raises (λ a c p h. h)
        (never_raised Raises) c p from _ (MemReader-IsSource.seeks r c p from h)
  seek_box-Seeks (sub w) c p from h =
      boxed-Seeks sub (Windows src ServesS Raises law) ServesBox Raises Raises (λ a c p h. h)
        (λ e r. r) c p from _ ((SubSource-IsSource src ServesS Raises law).seeks w c p from h)
  seek_box-Seeks (concat w) c p from h =
      boxed-Seeks concat (Joins src ServesS Raises law) ServesBox Raises Raises (λ a c p h. h)
        (λ e r. r) c p from _ ((ConcatSource-IsSource src ServesS Raises law).seeks w c p from h)

module _ {F : Type 0} (fs : FileSystem F) (ServesF : F → Bytes → ℕ → Type 0)
    (Raises : IoError → Type 0) (file_law : IsSource fs.device ServesF Raises) where
  -- At each level: what a reader serves, and that it keeps the promise.
  unfoldable pub level :
      (n : ℕ)
      → (Serves : (Dyn fs n → Bytes → ℕ → Type 0)) × IsSource (dyn_source fs n) Serves Raises
  unfolding dyn_source
  level zero = (
    λ s c p. ⊥,
    record {
      bounded = λ s c p h. absurd h;
      reads = λ s c p n h. absurd h;
      seeks = λ s c p from h. absurd h;
    },
  )
  level (suc n) = (
    ServesBox fs.device (dyn_source fs n) ServesF (level n).0 Raises file_law (level n).1,
    record {
      bounded =
          box_bounded fs.device (dyn_source fs n) ServesF (level n).0 Raises file_law (level n).1;
      reads =
          read_box-Reads fs.device (dyn_source fs n) ServesF (level n).0 Raises file_law
            (level n).1;
      seeks =
          seek_box-Seeks fs.device (dyn_source fs n) ServesF (level n).0 Raises file_law
            (level n).1;
    },
  )

  abbrev pub ServesDyn : (n : ℕ) → Dyn fs n → Bytes → ℕ → Type 0
  ServesDyn n = (level n).0

  -- Where files keep the promise of `BytesSource` (reads in order from a fixed content, seeks to
  -- their targets, no other error than the device's), every reader that the dispatcher can make
  -- keeps it, at any depth of windows and composites inside each other.
  pub Dyn-IsSource : (n : ℕ) → IsSource (dyn_source fs n) (ServesDyn n) Raises
  Dyn-IsSource n = (level n).1
