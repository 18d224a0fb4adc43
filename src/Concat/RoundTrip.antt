-- ===== src/Concat/RoundTrip.antt =====
-- src/concat.rs: formatting and parsing undo one another, and what `new` accepts.
use oxideav_source.Prelude.{
  ℕ, ◌≡◌, ◌≢◌, ◌↔◌, refl, sym, ◌∙◌, ap, subst, false, List, [], ◌∷◌, ◌++◌, Bytes, codes, arith, All,
  any, is_empty, contains, starts_with, ok,
}
use oxideav_source.Uri.{split}
use oxideav_source.Uri.Split.{split-scheme, strip_slashes-id, no_slashes-append}
use oxideav_source.Concat.{
  ConcatUri, join, split_all, first_starts_with_slashes, check_segments, new, format, segments,
  parse_segments, parse,
}
use oxideav_source.Concat.Pieces.{
  Lacks, split_all-ne-nil, join-split_all, split_all-Lacks, split_all-join,
}

-- The segment lists of the grammar.
pub record IsWritable (x : ConcatUri) : Type 0 where
  pub given : is_empty x.segments ≡ false
  pub no_empty : any is_empty x.segments ≡ false
  pub no_bar : All (Lacks b'|') x.segments
  pub no_slashes : first_starts_with_slashes x.segments ≡ false

join-not_empty :
    (ps : List Bytes)
    → is_empty ps ≡ false
    → any is_empty ps ≡ false
    → is_empty (join b'|' ps) ≡ false
unfolding join
join-not_empty [] h k = cc
join-not_empty ([] ∷ ps) h k = cc
join-not_empty ((c ∷ p) ∷ []) h k = refl
join-not_empty ((c ∷ p) ∷ q ∷ ps) h k = refl

join-no_slashes :
    (ps : List Bytes)
    → first_starts_with_slashes ps ≡ false
    → starts_with (codes "//") (join b'|' ps) ≡ false
unfolding join first_starts_with_slashes
join-no_slashes [] h = refl
join-no_slashes (p ∷ []) h = h
join-no_slashes (p ∷ q ∷ ps) h =
    no_slashes-append p (b'|' ∷ join b'|' (q ∷ ps)) h (unfold starts_with in refl)

parse_segments-join : (x : ConcatUri) → IsWritable x → parse_segments (join b'|' x.segments) ≡ ok x
unfolding parse_segments segments
parse_segments-join x w = rw (
  join-not_empty x.segments w.given w.no_empty,
  split_all-join b'|' x.segments (not_nil x.segments w.given) w.no_bar,
  w.no_empty,
  w.no_slashes,
)
  where
    not_nil : (ps : List Bytes) → is_empty ps ≡ false → ps ≢ []
    not_nil [] h = cc
    not_nil (p ∷ ps) h = cc

-- A `ConcatUri` of at least one segment, none of them empty or with a `|`, the first not beginning
-- with `//`, is read back from its text.
pub ConcatUri-parse-format : (x : ConcatUri) → IsWritable x → parse (format x) ≡ ok x
unfolding parse format
ConcatUri-parse-format x w = rw (
  split-scheme (codes "concat") (join b'|' x.segments) refl refl,
  strip_slashes-id (join b'|' x.segments) (join-no_slashes x.segments w.no_slashes),
  parse_segments-join x w,
)

split_all-given : (b : ℕ) (s : Bytes) → is_empty (split_all b s) ≡ false
split_all-given b s = go (split_all b s) (split_all-ne-nil b s)
  where
    go : (ps : List Bytes) → ps ≢ [] → is_empty ps ≡ false
    go [] h = absurd (h refl)
    go (p ∷ ps) h = refl

-- What the parser accepts is in the grammar, and its text is the pieces joined again.
pub parse_segments_sound :
    (rest : Bytes) (x : ConcatUri)
    → parse_segments rest ≡ ok x
    → IsWritable x × (rest ≡ join b'|' x.segments)
unfolding parse_segments segments
parse_segments_sound rest x e =
    let pieces = split_all b'|' rest in
    let same : x ≡ record { segments = pieces } = ground arith in
    let full : any is_empty pieces ≡ false = ground arith in
    let fine : first_starts_with_slashes pieces ≡ false = ground arith in
    subst (λ y. IsWritable y × (rest ≡ join b'|' y.segments)) (sym same)
      (
        record {
          given = split_all-given b'|' rest;
          no_empty = full;
          no_bar = split_all-Lacks b'|' rest;
          no_slashes = fine;
        },
        sym (join-split_all b'|' rest),
      )

pub parse-segments :
    (uri : Bytes) (x : ConcatUri) → parse uri ≡ ok x → parse_segments (split uri).1 ≡ ok x
unfolding parse
parse-segments uri x e = ground arith

-- For a `concat:` URI that the parser accepts, formatting the value and parsing it again gives the
-- value back.
pub ConcatUri-parse-format-parse :
    (uri : Bytes) (x : ConcatUri) → parse uri ≡ ok x → parse (format x) ≡ ok x
ConcatUri-parse-format-parse uri x e =
    ConcatUri-parse-format x (parse_segments_sound (split uri).1 x (parse-segments uri x e)).0

-- Where the parser accepts `concat:` and a text that does not begin with `//`, formatting the
-- value gives the same bytes.
pub ConcatUri-format-parse :
    (rest : Bytes) (x : ConcatUri)
    → starts_with (codes "//") rest ≡ false
    → parse (codes "concat:" ++ rest) ≡ ok x
    → format x ≡ codes "concat:" ++ rest
ConcatUri-format-parse rest x h e =
    let behind : (split (codes "concat:" ++ rest)).1 ≡ rest =
      ap (λ (p : Bytes × Bytes). p.1) (split-scheme (codes "concat") rest refl refl)
      ∙ strip_slashes-id rest h in
    let (_, t) =
      parse_segments_sound rest x (sym (ap parse_segments behind) ∙ parse-segments _ x e) in
    unfold format in ap (λ t. codes "concat:" ++ t) (sym t)

check_segments_sound :
    (ps : List Bytes) → check_segments ps ≡ ok tt → (any is_empty ps ≡ false) × All (Lacks b'|') ps
unfolding check_segments
check_segments_sound [] e = (refl, tt)
check_segments_sound (p ∷ ps) e =
    let one : (is_empty p ≡ false) × (contains b'|' p ≡ false) × (check_segments ps ≡ ok tt) =
      (ground arith, ground arith, ground arith) in
    let more = check_segments_sound ps one.2 in (ground arith, (one.1, more.1))

check_segments_complete :
    (ps : List Bytes) → any is_empty ps ≡ false → All (Lacks b'|') ps → check_segments ps ≡ ok tt
unfolding check_segments
check_segments_complete [] h k = refl
check_segments_complete (p ∷ ps) h (hp, hs) = ground (arith, check_segments_complete ps)

new_sound :
    (ps : List Bytes) (x : ConcatUri)
    → new ps ≡ ok x
    → (x ≡ record { segments = ps }) × IsWritable x
unfolding new
new_sound ps x e =
    let same : x ≡ record { segments = ps } = ground arith in
    let given : is_empty ps ≡ false = ground arith in
    let checked : check_segments ps ≡ ok tt = ground arith in
    let fine : first_starts_with_slashes ps ≡ false = ground arith in
    let (full, bars) = check_segments_sound ps checked in
    (
      same,
      subst IsWritable (sym same)
          (record { given = given; no_empty = full; no_bar = bars; no_slashes = fine }),
    )

new_complete : (x : ConcatUri) → IsWritable x → new x.segments ≡ ok x
unfolding new
new_complete x w =
    rw (w.given, check_segments_complete x.segments w.no_empty w.no_bar, w.no_slashes)

-- `ConcatUri::new` returns `x` if and only if `x` has the given segments and they can be written:
-- at least one, none empty, none with a `|`, the first not beginning with `//`.
pub ConcatUri-new_iff :
    (ps : List Bytes) (x : ConcatUri)
    → (new ps ≡ ok x) ↔ ((x ≡ record { segments = ps }) × IsWritable x)
ConcatUri-new_iff ps x =
    (new_sound ps x, λ p. ap (λ (y : ConcatUri). new y.segments) (sym p.0) ∙ new_complete x p.1)
