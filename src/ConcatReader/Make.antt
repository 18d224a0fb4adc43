-- ===== src/ConcatReader/Make.antt =====
-- src/concat.rs, `ConcatSource::new`: the composite that it makes.
use oxideav_source.Prelude.{
  ℕ, ◌+◌, ◌<◌, ◌≤◌, ◌≡◌, refl, subst, inl, inr, List, [], ◌∷◌, some, none, arith, Bytes, length,
  length-append, u64_mod, ltb, Bool-cases, Result, ok, err, Error, io, IoError,
}
use oxideav_source.Source.{
  pos, start, from_end, checked_add, checked_add-some, checked_add-none, offset_by, target, Source,
  Seeks, moved, refused, broken, IsSource,
}
use oxideav_source.ConcatReader.{
  ConcatSource, measure, rewind_first, rewound, composite, rewind_measured, new, overflows,
}
use oxideav_source.ConcatReader.Segments.{flat, offsets, Serving}
use oxideav_source.ConcatReader.Reading.{Joins}

module _ {S : Type 0} (src : Source S) (Serves : S → Bytes → ℕ → Type 0) (Raises : IoError → Type 0)
    (law : IsSource src Serves Raises) where
  -- The table and the parts after their seeks; an overflow; or an error of a device.
  pub data Measured (a : ℕ) (cs : List Bytes) : Result Error (List ℕ × List S) → Type 0 where
    measured :
        (ss : List S)
        → Serving Serves ss cs
        → a + length (flat cs) < u64_mod
        → Measured a cs (ok (offsets a cs, ss))
    too_long : u64_mod ≤ a + length (flat cs) → Measured a cs (err overflows)
    lost : (e : IoError) → Raises e → Measured a cs (err (io e))

  end_target :
      (c : Bytes) (p : ℕ)
      → length c < u64_mod
      → target (length c) p (from_end (pos 0)) ≡ some (length c)
  unfolding target offset_by checked_add
  end_target c p h = ground arith

  -- `later` is what the loop makes of the parts behind this one.
  with_first :
      (a : ℕ) (c : Bytes) (cs : List Bytes) (s : S) {q : ℕ} {later : Result Error (List ℕ × List S)}
      → Serves s c q
      → Measured (a + length c) cs later
      → Measured a (c ∷ cs) (elim later [ err e ↦ err e | ok m ↦ ok (a ∷ m.0, s ∷ m.1) ])
  with_first a c cs s {q} h (measured ss hs fits) =
      measured (s ∷ ss) ((q, h), hs) (omega (arith, fits, length-append c (flat cs)))
  with_first a c cs s h (too_long over) = too_long (omega (arith, over, length-append c (flat cs)))
  with_first a c cs s h (lost e r) = lost e r

  measure-Measured :
      (a : ℕ) (ss : List S) (cs : List Bytes)
      → a < u64_mod
      → Serving Serves ss cs
      → Measured a cs (measure src ss a)
  unfolding measure
  measure-Measured a [] [] fits h = measured [] tt (omega (arith, fits))
  measure-Measured a [] (c ∷ cs) fits h = absurd h
  measure-Measured a (s ∷ ss) [] fits h = absurd h
  measure-Measured a (s ∷ ss) (c ∷ cs) fits ((q, h), hs) =
      after (λ lt. measure-Measured (a + length c) ss cs lt hs) (src.seek (from_end (pos 0)) s)
        (law.seeks s c q (from_end (pos 0)) h)
    where
      Result_of : Result IoError ℕ × S → Type 0
      Result_of out = Measured a (c ∷ cs) (elim out.0 [
        | err e ↦ err (io e)
        | ok len ↦ elim (checked_add a len) [
          | none ↦ err overflows
          | some total ↦ elim (measure src ss total) [
            | err e ↦ err e
            | ok m ↦ ok (a ∷ m.0, out.1 ∷ m.1)
          ]
        ]
      ])

      Next : Type 0
      Next = a + length c < u64_mod → Measured (a + length c) cs (measure src ss (a + length c))

      summed : Next → (s' : S) → Serves s' c (length c) → Result_of (ok (length c), s')
      summed next s' h' = elim (Bool-cases (ltb (a + length c) u64_mod)) [
        | inl small ↦
            let lt : a + length c < u64_mod = ground arith in
            rw (checked_add-some a (length c) lt) (with_first a c cs s' h' (next lt))
        | inr large ↦
            let le : u64_mod ≤ a + length c = ground arith in
            rw (checked_add-none a (length c) le)
              (too_long (omega (arith, le, length-append c (flat cs))))
      ]

      after :
          Next
          → (out : Result IoError ℕ × S) → Seeks Serves Raises c q (from_end (pos 0)) out
          → Result_of out
      after next _ (moved q' s' t h') =
          let same : q' ≡ length c = ground (arith, end_target c q (law.bounded s c q h)) in
          rw same (summed next s' (subst (Serves s' c) same h'))
      after next _ (refused m s' t h') =
          absurd (ground (arith, end_target c q (law.bounded s c q h)))
      after next _ (broken e s' r h') = lost e r

  -- `ConcatSource::new` on parts that serve `cs`: a composite that serves the contents one behind
  -- A composite that serves the contents one behind the other; an overflow; or an error of a device.
  pub data Made (cs : List Bytes) : Result Error (ConcatSource S) → Type 0 where
    made : (w : ConcatSource S) → Joins src Serves Raises law w (flat cs) 0 → Made cs (ok w)
    rejected : u64_mod ≤ length (flat cs) → Made cs (err overflows)
    lost_device : (e : IoError) → Raises e → Made cs (err (io e))

  rewound-Made :
      (c : Bytes) (cs : List Bytes) (ss : List S) (q : ℕ) (out : Result IoError ℕ × S)
      → Serving Serves ss cs
      → length (flat (c ∷ cs)) < u64_mod
      → Seeks Serves Raises c q (start 0) out
      → Made (c ∷ cs) (composite (offsets 0 (c ∷ cs)) (rewound ss out))
  rewound-Made c cs ss q _ hs small (moved q' s t h) = made _ (record {
    contents = c ∷ cs;
    serving = ((q', h), hs);
    table = refl;
    joined = refl;
    fits = small;
    position = refl;
  })
  rewound-Made c cs ss q _ hs small (refused m s t h) = absurd (unfold target in cc)
  rewound-Made c cs ss q _ hs small (broken e s r h) = lost_device e r

  rewind-Made :
      (cs : List Bytes) (m : Result Error (List ℕ × List S))
      → Measured 0 cs m
      → Made cs (rewind_measured src m)
  unfolding rewind_measured rewind_first
  rewind-Made [] _ (measured [] hs small) = made _ (record {
    contents = [];
    serving = tt;
    table = refl;
    joined = refl;
    fits = omega (arith, small);
    position = refl;
  })
  rewind-Made [] _ (measured (s ∷ ss) hs small) = absurd hs
  rewind-Made (c ∷ cs) _ (measured [] hs small) = absurd hs
  rewind-Made (c ∷ cs) _ (measured (s ∷ ss) ((q, h), hs) small) =
      rewound-Made c cs ss q (src.seek (start 0) s) hs (omega (arith, small))
        (law.seeks s c q (start 0) h)
  rewind-Made cs _ (too_long over) = rejected (omega (arith, over))
  rewind-Made cs _ (lost e r) = lost_device e r

  -- `ConcatSource::new` on parts that serve the contents `cs`, each from some position, gives a
  -- composite that serves the contents one behind the other from position 0; or an overflow error,
  -- only where their sum does not fit in a `u64`; or an error of a device.
  pub ConcatSource-new-Made :
      (parts : List S) (cs : List Bytes) → Serving Serves parts cs → Made cs (new src parts)
  unfolding new
  ConcatSource-new-Made parts cs h =
      rewind-Made cs (measure src parts 0) (measure-Measured 0 parts cs (omega arith) h)
