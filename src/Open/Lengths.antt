-- ===== src/Open/Lengths.antt =====
-- src/lib.rs, src/slice.rs, src/concat.rs: a URI inside another one is shorter.
use oxideav_source.Prelude.{
  ℕ, ◌≤◌, ◌<◌, ◌≡◌, refl, ap, ◌∙◌, true, List, [], ◌∷◌, ◌++◌, arith, Bytes, codes, length,
  length-append, All, ok,
}
use oxideav_source.Uri.{split, scheme_is}
use oxideav_source.Uri.Split.{IsSplit, bare, schemed, split-IsSplit}
use oxideav_source.Data.Sizes.{length-split, length-strip_slashes}
use oxideav_source.Decimal
use oxideav_source.Slice
use oxideav_source.Slice.RoundTrip.{parse_header_iff, parse-header}
use oxideav_source.Concat
use oxideav_source.Concat.{join}
use oxideav_source.Concat.RoundTrip.{parse_segments_sound, parse-segments}

format_lem :
    (x : Slice.SliceUri)
    → Slice.format x
      ≡ codes "slice:"
        ++ (Decimal.print_u64 x.offset ++ b'+' ∷ (Decimal.print_u64 x.length ++ b'!' ∷ x.inner))
unfolding Slice.format
format_lem x = refl

-- A URI inside another one is shorter.
pub length-inner :
    (u : Bytes) (x : Slice.SliceUri) → Slice.parse u ≡ ok x → length x.inner < length u
length-inner u x e =
    let a = Decimal.print_u64 x.offset in
    let b = Decimal.print_u64 x.length in
    let whole : length (codes "slice:" ++ (split u).1)
        ≡ length (codes "slice:" ++ (a ++ b'+' ∷ (b ++ b'!' ∷ x.inner))) =
      ap length (((parse_header_iff (split u).1 x).0 (parse-header u x e)).1 ∙ format_lem x) in
    omega (
      arith,
      whole,
      length-split u,
      length-append a (b'+' ∷ (b ++ b'!' ∷ x.inner)),
      length-append b (b'!' ∷ x.inner),
    )

length-behind :
    (u : Bytes) (p : Bytes × Bytes)
    → IsSplit u p
    → scheme_is p.0 (codes "concat") ≡ true
    → length p.1 < length u
length-behind u _ bare h = absurd (cc)
length-behind u _ (schemed scheme rest e _ _) h =
    omega (arith, ap length e, length-append scheme (b':' ∷ rest), length-strip_slashes rest)

All-grow :
    (n m : ℕ) (ps : List Bytes) → n ≤ m → All (λ s. length s ≤ n) ps → All (λ s. length s ≤ m) ps
All-grow n m [] h k = tt
All-grow n m (p ∷ ps) h (k, ks) = (omega (arith, k), All-grow n m ps h ks)

length-pieces : (b : ℕ) (ps : List Bytes) → All (λ s. length s ≤ length (join b ps)) ps
unfolding join
length-pieces b [] = tt
length-pieces b (p ∷ []) = (omega arith, tt)
length-pieces b (p ∷ q ∷ ps) = (
  omega (arith, length-append p (b ∷ join b (q ∷ ps))),
  All-grow (length (join b (q ∷ ps))) (length (p ++ b ∷ join b (q ∷ ps))) (q ∷ ps)
      (omega (arith, length-append p (b ∷ join b (q ∷ ps)))) (length-pieces b (q ∷ ps)),
)

pub length-segments :
    (u : Bytes) (x : Concat.ConcatUri)
    → Concat.parse u ≡ ok x
    → scheme_is (split u).0 (codes "concat") ≡ true
    → (n : ℕ) → length u ≤ n
    → All (λ s. length s < n) x.segments
length-segments u x e h n le = shorter (length-behind u (split u) (split-IsSplit u) h)
  where
    grown :
        (ps : List Bytes)
        → (m : ℕ) → m < n
        → All (λ s. length s ≤ m) ps
        → All (λ s. length s < n) ps
    grown [] m k a = tt
    grown (p ∷ ps) m k (a, more) = (omega (arith, a), grown ps m k more)

    shorter : length (split u).1 < length u → All (λ s. length s < n) x.segments
    shorter k =
        grown x.segments (length (join b'|' x.segments))
          (omega (arith, ap length (parse_segments_sound (split u).1 x (parse-segments u x e)).1))
          (length-pieces b'|' x.segments)
