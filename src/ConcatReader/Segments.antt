-- ===== src/ConcatReader/Segments.antt =====
-- src/concat.rs: the table of offsets, and the segment that a position falls in.
use oxideav_source.Prelude.{
  ℕ, zero, suc, ◌+◌, ◌-◌, ◌≤◌, ◌<◌, ◌≡◌, ◌≢◌, refl, ap, ◌∙◌, subst, inl, inr, Bool, true, false,
  List, [], ◌∷◌, ◌++◌, some, none, arith, Bytes, ltb, length, length-append, take, drop,
  drop-append_past, drop-append_within, take-append_within, length-drop, get_or, get_elem?, set,
  last_or, Bool-cases,
}
use oxideav_source.ConcatReader.{find_from, holds}

-- The contents of the segments, one behind the other.
abbrev pub flat : List Bytes → Bytes
flat [] = []
flat (c ∷ cs) = c ++ flat cs

-- Where each segment begins, the first at `a`, and the end behind them.
abbrev pub offsets : ℕ → List Bytes → List ℕ
offsets a [] = a ∷ []
offsets a (c ∷ cs) = a ∷ offsets (a + length c) cs

pub last-offsets : (a d : ℕ) (cs : List Bytes) → last_or (offsets a cs) d ≡ a + length (flat cs)
last-offsets a d [] = omega arith
last-offsets a d (c ∷ cs) =
    omega (arith, last-offsets (a + length c) a cs, length-append c (flat cs))

pub offsets_head : (a : ℕ) (cs : List Bytes) → get_or (offsets a cs) 0 0 ≡ a
offsets_head a [] = refl
offsets_head a (c ∷ cs) = refl

-- A search finds a place that holds, in its range.
pub find_from_sound :
    (p : ℕ → Bool) (i k : ℕ) {j : ℕ}
    → find_from p i k ≡ some j
    → (p j ≡ true) × (i ≤ j) × (j < i + k)
unfolding find_from
find_from_sound p i zero h = absurd (cc)
find_from_sound p i (suc k) {j} h = elim (Bool-cases (p i)) [
  | inl here ↦
      let same : i ≡ j = ground arith in
      (subst (λ x. p x ≡ true) same here, omega arith, omega arith)
  | inr other ↦
      let (a, b, c) = find_from_sound p (suc i) k {j = j} (ground arith) in
      (a, omega arith, omega arith)
]

-- It finds one if there is one.
pub find_from_complete :
    (p : ℕ → Bool) (i k j : ℕ) → i ≤ j → j < i + k → p j ≡ true → find_from p i k ≢ none
unfolding find_from
find_from_complete p i zero j a b h = absurd (omega arith)
find_from_complete p i (suc k) j a b h = elim (Bool-cases (p i)) [
  | inl here ↦ rw here (cc)
  | inr other ↦ rw other (find_from_complete p (suc i) k j (later j other h a) (omega arith) h)
]
  where
    later : (j : ℕ) → p i ≡ false → p j ≡ true → i ≤ j → suc i ≤ j
    later j no_i yes_j le = ground (arith, λ (e : i ≡ j). ap p e)

-- A position in the joined contents falls in a segment.
pub segment_exists :
    (a p : ℕ) (cs : List Bytes)
    → a ≤ p
    → p < a + length (flat cs)
    → (j : ℕ) × (j < length cs) × (holds (offsets a cs) p j ≡ true)
segment_exists a p [] h k = absurd (omega arith)
segment_exists a p (c ∷ cs) h k = elim (Bool-cases (ltb p (a + length c))) [
  | inl here ↦ (0, omega arith, ground (arith, offsets_head (a + length c) cs))
  | inr past ↦
      let (j, lt, in_j) =
        segment_exists (a + length c) p cs (ground arith)
          (omega (arith, length-append c (flat cs))) in
      (suc j, omega arith, in_j)
]

-- Each part serves its content, from some position.
module _ {S : Type 0} (Serves : S → Bytes → ℕ → Type 0) where
  abbrev pub Serving : List S → List Bytes → Type 0
  Serving [] [] = Unit
  Serving [] (c ∷ cs) = ⊥
  Serving (s ∷ ss) [] = ⊥
  Serving (s ∷ ss) (c ∷ cs) = ((q : ℕ) × Serves s c q) × Serving ss cs

  pub length-Serving : (ss : List S) (cs : List Bytes) → Serving ss cs → length ss ≡ length cs
  length-Serving [] [] h = refl
  length-Serving [] (c ∷ cs) h = absurd h
  length-Serving (s ∷ ss) [] h = absurd h
  length-Serving (s ∷ ss) (c ∷ cs) h = ap suc (length-Serving ss cs h.1)

  -- The segment `j` of parts that serve `cs`, the first from offset `a` on: its part and content,
  -- where it stands in the joined contents, and that the part may be replaced by a later state.
  pub record Segment (a : ℕ) (ss : List S) (cs : List Bytes) (j : ℕ) : Type 0 where
    pub part : S
    pub content : Bytes
    pub place : ℕ
    pub found : get_elem? ss j ≡ some part
    pub serves : Serves part content place
    pub lower : a ≤ get_or (offsets a cs) j 0
    pub ends : get_or (offsets a cs) (suc j) 0 ≡ get_or (offsets a cs) j 0 + length content
    pub upper : get_or (offsets a cs) (suc j) 0 ≤ a + length (flat cs)
    pub bytes :
        (p k : ℕ)
        → get_or (offsets a cs) j 0 ≤ p
        → k + p ≤ get_or (offsets a cs) j 0 + length content
        → take k (drop (p - a) (flat cs)) ≡ take k (drop (p - get_or (offsets a cs) j 0) content)
    pub replaced : (s : S) (q : ℕ) → Serves s content q → Serving (set ss j s) cs

  first_bytes :
      (a p k : ℕ) (c t : Bytes)
      → a ≤ p
      → k + p ≤ a + length c
      → take k (drop (p - a) (c ++ t)) ≡ take k (drop (p - a) c)
  first_bytes a p k c t h fit =
      ap (take k) (drop-append_within (p - a) c t (omega arith))
      ∙ take-append_within k (drop (p - a) c) t (omega (arith, length-drop (p - a) c))

  later_bytes :
      (a p k : ℕ) (c t : Bytes)
      → a + length c ≤ p
      → take k (drop (p - a) (c ++ t)) ≡ take k (drop (p - (a + length c)) t)
  later_bytes a p k c t h =
      let less : p - a - length c ≡ p - (a + length c) = omega arith in
      ap (take k) (drop-append_past (p - a) c t (omega arith) ∙ ap (λ n. drop n t) less)

  pub Segment-at :
      (a : ℕ) (ss : List S) (cs : List Bytes) (j : ℕ)
      → Serving ss cs
      → j < length cs
      → Segment a ss cs j
  Segment-at a ss [] j h lt = absurd (omega arith)
  Segment-at a [] (c ∷ cs) j h lt = absurd h
  Segment-at a (s ∷ ss) (c ∷ cs) zero ((q, h), hs) lt = record {
    part = s;
    content = c;
    place = q;
    found = refl;
    serves = h;
    lower = omega arith;
    ends = offsets_head (a + length c) cs;
    upper = omega (arith, offsets_head (a + length c) cs, length-append c (flat cs));
    bytes = λ p k le fit. first_bytes a p k c (flat cs) le fit;
    replaced = λ s' q' h'. ((q', h'), hs);
  }
  Segment-at a (s ∷ ss) (c ∷ cs) (suc j) (h, hs) lt =
      let rest = Segment-at (a + length c) ss cs j hs (omega arith) in
      record {
        part = rest.part;
        content = rest.content;
        place = rest.place;
        found = rest.found;
        serves = rest.serves;
        lower = omega (arith, rest.lower);
        ends = rest.ends;
        upper = omega (arith, rest.upper, length-append c (flat cs));
        bytes = λ p k le fit.
            later_bytes a p k c (flat cs) (omega (arith, rest.lower)) ∙ rest.bytes p k le fit;
        replaced = λ s' q' h'. (h, rest.replaced s' q' h');
      }
