-- ===== src/Open/Contents.antt =====
-- src/lib.rs, `open_bytes`: what URIs stand for, and why others do not open.
use oxideav_source.Prelude.{
  String, ℕ, ◌+◌, ◌≤◌, ◌<◌, ◌≡◌, true, false, List, [], ◌∷◌, Bytes, codes, u64_mod, length, take,
  drop, ok, err, Error, invalid, io, IoError, ◌≢◌, some, none, contains,
}
use oxideav_source.Uri.{split, scheme_is}
use oxideav_source.Data
use oxideav_source.Slice
use oxideav_source.Concat
use oxideav_source.Uri.Paths.{PathOf}
use oxideav_source.Mem.{Table, get, not_registered}
use oxideav_source.ConcatReader.Segments.{flat}
use oxideav_source.Open.{FileSystem}

-- The scheme of a URI, in any case.
abbrev pub HasScheme : Bytes → Bytes → Type 0
HasScheme u scheme = scheme_is (split u).0 scheme ≡ true

-- What may stand behind `mem:`.
pub record IsId (id : Bytes) : Type 0 where
  pub not_empty : id ≢ []
  pub no_slash : contains b'/' id ≡ false

module _ {F : Type 0} (fs : FileSystem F) (table : Table) (ServesF : F → Bytes → ℕ → Type 0)
    (Raises : IoError → Type 0) where
  mutual
    -- What a URI stands for: a file's content, a buffer, a payload, a part of what another URI stands
    -- for, or what several stand for, one behind the other.
    pub data Content : Bytes → Bytes → Type 0 where
      of_file :
          {u c path : Bytes} (f : F)
          → HasScheme u (codes "file")
          → PathOf u path
          → fs.open_at path ≡ ok f
          → ServesF f c 0
          → Content u c
      of_mem :
          {u c : Bytes}
          → HasScheme u (codes "mem")
          → IsId (split u).1
          → get (split u).1 table ≡ some c
          → Content u c
      of_data :
          {u : Bytes} (d : Data.DataUri)
          → HasScheme u (codes "data")
          → Data.parse u ≡ ok d
          → Content u d.payload
      of_slice :
          {u c : Bytes} (x : Slice.SliceUri)
          → HasScheme u (codes "slice")
          → Slice.parse u ≡ ok x
          → Content x.inner c
          → x.offset + x.length ≤ length c
          → Content u (take x.length (drop x.offset c))
      of_concat :
          {u : Bytes} (x : Concat.ConcatUri) (cs : List Bytes)
          → HasScheme u (codes "concat")
          → Concat.parse u ≡ ok x
          → Contents x.segments cs
          → Content u (flat cs)

    pub data Contents : List Bytes → List Bytes → Type 0 where
      no_more : Contents [] []
      one_more :
          {u c : Bytes} {us cs : List Bytes}
          → scheme_is (split u).0 (codes "concat") ≡ false
          → Content u c
          → Contents us cs
          → Contents (u ∷ us) (c ∷ cs)

  mutual
    -- Why a URI does not open, with which error.
    pub data Fails : Bytes → Error → Type 0 where
      unknown :
          {u : Bytes} (m : String)
          → scheme_is (split u).0 (codes "file") ≡ false
          → scheme_is (split u).0 (codes "mem") ≡ false
          → scheme_is (split u).0 (codes "data") ≡ false
          → scheme_is (split u).0 (codes "slice") ≡ false
          → scheme_is (split u).0 (codes "concat") ≡ false
          → Fails u (Error.no_driver m)
      no_path :
          {u : Bytes} {e : Error}
          → HasScheme u (codes "file")
          → ((path : Bytes) → ¬ PathOf u path)
          → Fails u e
      no_file :
          {u path : Bytes} (x : IoError)
          → HasScheme u (codes "file")
          → PathOf u path
          → fs.open_at path ≡ err x
          → Fails u (io x)
      bad_id : {u : Bytes} {e : Error} → HasScheme u (codes "mem") → ¬ IsId (split u).1 → Fails u e
      no_buffer :
          {u : Bytes}
          → HasScheme u (codes "mem")
          → IsId (split u).1
          → get (split u).1 table ≡ none
          → Fails u not_registered
      bad_data :
          {u : Bytes} {e : Error} → HasScheme u (codes "data") → Data.parse u ≡ err e → Fails u e
      bad_slice :
          {u : Bytes} {e : Error} → HasScheme u (codes "slice") → Slice.parse u ≡ err e → Fails u e
      inner_fails :
          {u : Bytes} {e : Error} (x : Slice.SliceUri)
          → HasScheme u (codes "slice")
          → Slice.parse u ≡ ok x
          → Fails x.inner e
          → Fails u e
      outside :
          {u c : Bytes} {e : Error} (x : Slice.SliceUri)
          → HasScheme u (codes "slice")
          → Slice.parse u ≡ ok x
          → Content x.inner c
          → length c < x.offset + x.length
          → Fails u e
      bad_concat :
          {u : Bytes} {e : Error}
          → HasScheme u (codes "concat")
          → Concat.parse u ≡ err e
          → Fails u e
      segment_fails :
          {u : Bytes} {e : Error} (x : Concat.ConcatUri)
          → HasScheme u (codes "concat")
          → Concat.parse u ≡ ok x
          → SomeFails x.segments e
          → Fails u e
      too_long :
          {u : Bytes} {e : Error} (x : Concat.ConcatUri) (cs : List Bytes)
          → HasScheme u (codes "concat")
          → Concat.parse u ≡ ok x
          → Contents x.segments cs
          → u64_mod ≤ length (flat cs)
          → Fails u e
      device : {u : Bytes} {e : Error} (x : IoError) → Raises x → Fails u e

    -- The first segment that is a `concat:` URI itself, or fails.
    pub data SomeFails : List Bytes → Error → Type 0 where
      nested :
          {u : Bytes} {us : List Bytes} (m : String)
          → scheme_is (split u).0 (codes "concat") ≡ true
          → SomeFails (u ∷ us) (invalid m)
      this : {u : Bytes} {us : List Bytes} {e : Error} → Fails u e → SomeFails (u ∷ us) e
      later :
          {u c : Bytes} {us : List Bytes} {e : Error}
          → scheme_is (split u).0 (codes "concat") ≡ false
          → Content u c
          → SomeFails us e
          → SomeFails (u ∷ us) e
