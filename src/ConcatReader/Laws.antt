-- ===== src/ConcatReader/Laws.antt =====
-- src/concat.rs: the promise of `BytesSource`, kept by a composite.
use oxideav_source.Prelude.{ℕ, ◌<◌, sym, subst, Bytes, length, u64_mod, IoError}
use oxideav_source.Source.{Source, Reads, Seeks, IsSource}
use oxideav_source.ConcatReader.{ConcatSource, read, seek, source}
use oxideav_source.ConcatReader.Segments.{flat, offsets}
use oxideav_source.ConcatReader.Reading.{Joins, read-Reads, seek-Seeks}

module _ {S : Type 0} (src : Source S) (Serves : S → Bytes → ℕ → Type 0) (Raises : IoError → Type 0)
    (law : IsSource src Serves Raises) where
  abbrev JoinsHere : ConcatSource S → Bytes → ℕ → Type 0
  JoinsHere = Joins src Serves Raises law

  -- From the canonical state of a composite to the one at hand.
  carried :
      (w : ConcatSource S) (c : Bytes) (p : ℕ) (h : JoinsHere w c p)
      (P : ConcatSource S → Bytes → ℕ → Type 0)
      → P
          (record { parts = w.parts; starts = offsets 0 h.contents; pos = w.pos })
          (flat h.contents)
          w.pos
      → P w c p
  carried w c p h P x = subst (P w c) h.position (
      subst (λ y. P w y w.pos) h.joined
        (subst
          (λ st. P (record { parts = w.parts; starts = st; pos = w.pos }) (flat h.contents) w.pos)
          (sym h.table) x))

  -- Over sources that keep the promise of `BytesSource`, a composite of them keeps it for their
  -- contents one behind the other, also across the borders of segments and past empty ones.
  pub ConcatSource-IsSource : IsSource (source src) JoinsHere Raises
  unfolding source
  ConcatSource-IsSource = record {
    bounded = λ w c p h. subst (λ x. length x < u64_mod) h.joined h.fits;
    reads = λ w c p n h.
        carried w c p h (λ w c p. Reads JoinsHere Raises c p n (read src n w))
          (read-Reads src Serves Raises law w.parts w.pos h.contents h.fits n h.serving);
    seeks = λ w c p from h.
        carried w c p h (λ w c p. Seeks JoinsHere Raises c p from (seek from w))
          (seek-Seeks src Serves Raises law w.parts w.pos h.contents h.fits from h.serving);
  }
