-- ===== src/ConcatReader/Reading.antt =====
-- src/concat.rs: a `ConcatSource` over sources serves their contents one behind the other.
use oxideav_source.Prelude.{
  ℕ, suc, ◌+◌, ◌-◌, ◌≤◌, ◌<◌, min, ◌≡◌, refl, sym, ap, ◌∙◌, subst, inl, inr, true, List, [], some,
  none, arith, Bytes, leb, ◌==◌, length, length-take, length-drop, take, drop, get_or, set,
  add_u64-eq-add, u64_mod, Bool-cases, Option-cases, Result, ok, ok_or, IoError,
}
use oxideav_source.Source.{
  pos, negsuc, SeekFrom, start, from_end, current, offset_by, target, and_then, Source, Reads, got,
  failed, Seeks, moved, refused, broken, IsSource,
}
use oxideav_source.ConcatReader.{
  ConcatSource, bad_seek, holds, total_len, segment_for, add_signed, new_pos, seek_to, seek,
  advance, read_part, read_segment, read,
}
use oxideav_source.ConcatReader.Segments.{
  flat, offsets, last-offsets, find_from_sound, find_from_complete, segment_exists, Serving,
  length-Serving, Segment, Segment-at,
}

length-read : (k p : ℕ) (c : Bytes) → k ≤ length c - p → length (take k (drop p c)) ≡ k
length-read k p c h = omega (arith, length-take k (drop p c), length-drop p c)

module _ {S : Type 0} (src : Source S) (Serves : S → Bytes → ℕ → Type 0) (Raises : IoError → Type 0)
    (law : IsSource src Serves Raises) where
  -- The composite serves `c` at `p`: its parts serve contents that make up `c`, and the table holds
  -- their offsets.
  pub record Joins (w : ConcatSource S) (c : Bytes) (p : ℕ) : Type 0 where
    pub contents : List Bytes
    pub serving : Serving Serves w.parts contents
    pub table : w.starts ≡ offsets 0 contents
    pub joined : flat contents ≡ c
    pub fits : length (flat contents) < u64_mod
    pub position : w.pos ≡ p

  module _ (parts : List S) (p : ℕ) (cs : List Bytes) (fits : length (flat cs) < u64_mod) where
    abbrev state : ConcatSource S
    state = record { parts = parts; starts = offsets 0 cs; pos = p }

    joins :
        (ss : List S) (q : ℕ)
        → Serving Serves ss cs
        → Joins (record { parts = ss; starts = offsets 0 cs; pos = q }) (flat cs) q
    joins ss q h = record {
      contents = cs;
      serving = h;
      table = refl;
      joined = refl;
      fits = fits;
      position = refl;
    }

    total : total_len state ≡ length (flat cs)
    unfolding total_len
    total = omega (arith, last-offsets 0 0 cs)

    -- Before the end there is a segment, and it holds the position; at the end there is none.
    segment_for_sound :
        (j : ℕ)
        → Serving Serves parts cs
        → segment_for state p ≡ some j
        → (j < length cs) × (holds (offsets 0 cs) p j ≡ true)
    segment_for_sound j h e =
        let found =
          find_from_sound (holds (offsets 0 cs) p) 0 (length parts) {j = j}
            (unfold segment_for in ground arith) in
        (omega (arith, found.2, length-Serving Serves parts cs h), found.0)

    segment_for-none : Serving Serves parts cs → segment_for state p ≡ none → length (flat cs) ≤ p
    segment_for-none h e = elim (Bool-cases (leb (total_len state) p)) [
      | inl past ↦ ground (arith, total)
      | inr before ↦
          let (j, lt, in_j) = segment_exists 0 p cs (omega arith) (ground (arith, total)) in
          absurd (
            find_from_complete (holds (offsets 0 cs) p) 0 (length parts) j (omega arith)
              (omega (arith, length-Serving Serves parts cs h)) in_j
              (unfold segment_for in ground arith))
    ]

    module _ (n j : ℕ) (g : Segment Serves 0 parts cs j) (begins : get_or (offsets 0 cs) j 0 ≤ p)
        (stops : p < get_or (offsets 0 cs) (suc j) 0) where
      abbrev origin : ℕ
      origin = get_or (offsets 0 cs) j 0

      read_bytes :
          (k q : ℕ) (bytes : Bytes) (s : S)
          → bytes ≡ take k (drop p (flat cs))
          → length bytes ≡ k
          → p + k ≤ length (flat cs)
          → k ≤ n
          → (0 < n → p < length (flat cs) → 0 < k)
          → Serves s g.content q
          → Reads Joins Raises (flat cs) p n (advance state j (ok bytes, s))
      unfolding advance
      read_bytes k q bytes s e counted inside le progress h =
          rw (counted, e, add_u64-eq-add p k (omega arith))
            (got k _ le (omega arith) progress (joins (set parts j s) (p + k) (g.replaced s q h)))

      after_read :
          (out : Result IoError Bytes × S)
          → Reads Serves Raises g.content
              (p - origin)
              (min n (get_or (offsets 0 cs) (suc j) 0 - p))
              out
          → Reads Joins Raises (flat cs) p n (advance state j out)
      after_read _ (got k s le fit progress h) =
          read_bytes k _ _ s
            (sym (g.bytes p k begins (omega (arith, g.ends)))
              ∙ ap (λ t. take k (drop t (flat cs))) minus_zero)
            (length-read k (p - origin) g.content fit) (omega (arith, g.ends, g.upper))
            (omega arith) (λ a b. progress (omega (arith, g.ends)) (omega (arith, g.ends))) h
        where
          minus_zero : p - 0 ≡ p
          minus_zero = omega arith
      after_read _ (failed e s r h) =
          unfold advance in failed e _ r (joins (set parts j s) p (g.replaced s _ h))

      after_seek :
          (out : Result IoError ℕ × S)
          → Seeks Serves Raises g.content g.place (start (p - origin)) out
          → Reads Joins Raises (flat cs) p n (
              advance state j
                (and_then out (λ _. src.read (min n (get_or (offsets 0 cs) (suc j) 0 - p)))))
      after_seek _ (moved q s t h) =
          after_read _ (law.reads s g.content (p - origin) _ (subst (Serves s g.content) same h))
        where
          same : q ≡ p - origin
          same = unfold target in ground arith
      after_seek _ (refused m s t h) = absurd (unfold target in cc)
      after_seek _ (broken e s r h) =
          unfold advance in failed e _ r (joins (set parts j s) p (g.replaced s g.place h))

      in_segment : Reads Joins Raises (flat cs) p n (read_segment src n j state)
      unfolding read_part read_segment
      in_segment = rw g.found (
          after_seek (src.seek (start (p - origin)) g.part)
            (law.seeks g.part g.content g.place (start (p - origin)) g.serves))

    pub read-Reads :
        (n : ℕ) → Serving Serves parts cs → Reads Joins Raises (flat cs) p n (read src n state)
    unfolding read
    read-Reads n h = elim (Bool-cases (n == 0)) [
      | inl none_wanted ↦ rw none_wanted (idle (λ a b. ground arith))
      | inr wanted ↦ elim (Option-cases (segment_for state p)) [
        | inl e ↦ rw (wanted, e) (idle (λ a b. omega (arith, segment_for-none h e)))
        | inr (j, e) ↦
            let (lt, in_j) = segment_for_sound j h e in
            rw (wanted, e)
              (in_segment n j (Segment-at Serves 0 parts cs j h lt) (ground arith) (ground arith))
      ]
    ]
      where
        idle : (0 < n → p < length (flat cs) → ⊥) → Reads Joins Raises (flat cs) p n (ok [], state)
        idle never =
            got 0 state (omega arith) (omega arith) (λ a b. absurd (never a b))
              (subst (Joins state (flat cs)) zero_more (joins parts p h))
          where
            zero_more : p ≡ p + 0
            zero_more = omega arith

    new_pos-target :
        (from : SeekFrom) → new_pos state from ≡ ok_or (target (length (flat cs)) p from) bad_seek
    unfolding new_pos target add_signed offset_by
    new_pos-target (start n) = refl
    new_pos-target (from_end (pos d)) = rw total
    new_pos-target (from_end (negsuc d)) = rw total
    new_pos-target (current (pos d)) = refl
    new_pos-target (current (negsuc d)) = refl

    pub seek-Seeks :
        (from : SeekFrom)
        → Serving Serves parts cs
        → Seeks Joins Raises (flat cs) p from (seek from state)
    unfolding seek
    seek-Seeks from h = elim (Option-cases (target (length (flat cs)) p from)) [
      | inl e ↦ rw (new_pos-target from, e, seek_to) (refused _ state e (joins parts p h))
      | inr (q, e) ↦ rw (new_pos-target from, e, seek_to) (moved q _ e (joins parts q h))
    ]
