-- ===== src/Fuzz/Joining.antt =====
-- fuzz/fuzz_targets/compose_open.rs: a `concat:` of two URIs that open.
use oxideav_source.Prelude.{
  ℕ, zero, suc, ◌<◌, ◌≡◌, refl, sym, ◌∙◌, ap, subst, false, [], ◌∷◌, ◌++◌, append-nil, arith, Bytes,
  codes, u64_mod, length, length-append, contains, starts_with, is_empty, Result, ok, ◌>>=◌, Error,
}
use oxideav_source.Uri.{split, scheme_is}
use oxideav_source.Uri.Split.{split-scheme}
use oxideav_source.Concat
use oxideav_source.Concat.RoundTrip.{ConcatUri-parse-format}
use oxideav_source.Source.{Never}
use oxideav_source.Mem.{Table}
use oxideav_source.ConcatReader
use oxideav_source.ConcatReader.{ConcatSource}
use oxideav_source.ConcatReader.Make.{Made, made, rejected, lost_device, ConcatSource-new-Made}
use oxideav_source.ConcatReader.Segments.{flat}
use oxideav_source.Open.{
  FileSystem, Dyn, dyn_source, concat, open_bytes, open_concat, open_concat_uri, open_segments,
  open_segment,
}
use oxideav_source.Open.Boxes.{level}
use oxideav_source.Fuzz.Compose.{Composition, joined}
use oxideav_source.Fuzz.Opening.{ServesAt, law_at, Opens, open_bytes-concat}

module _ {F : Type 0} (fs : FileSystem F) (table : Table) where
  -- What can stand in a `concat:` URI.
  pub record IsPart (c : Composition) : Type 0 where
    pub given : is_empty c.uri ≡ false
    pub no_slashes : starts_with (codes "//") c.uri ≡ false
    pub no_bar : contains b'|' c.uri ≡ false
    pub no_concat : scheme_is (split c.uri).0 (codes "concat") ≡ false
    pub opens : Opens fs table c.uri c.model

  open_segment-part :
      (n : ℕ) (c : Composition) {r : Dyn fs n}
      → IsPart c
      → open_bytes fs table n c.uri ≡ ok r
      → open_segment (dyn_source fs n) (open_bytes fs table n) c.uri ≡ ok r
  unfolding open_segment
  open_segment-part n c h e = rw (h.no_concat, e)

  module _ (a b : Composition) (left : IsPart a) (right : IsPart b)
      (fits : length (a.model ++ b.model) < u64_mod) where
    abbrev pair : Concat.ConcatUri
    pair = record { segments = a.uri ∷ b.uri ∷ [] }

    text : (joined a b).uri ≡ Concat.format pair
    unfolding joined Concat.format
    text = refl

    parsed : Concat.parse (joined a b).uri ≡ ok pair
    parsed =
        ap Concat.parse text
        ∙ ConcatUri-parse-format pair (record {
          given = refl;
          no_empty = rw (left.given, right.given);
          no_bar = (left.no_bar, (right.no_bar, tt));
          no_slashes = unfold Concat.first_starts_with_slashes in left.no_slashes;
        })

    pub joined_scheme : (split (joined a b).uri).0 ≡ codes "concat"
    unfolding joined
    joined_scheme =
        ap (λ (p : Bytes × Bytes). p.0)
          (split-scheme (codes "concat") (a.uri ++ b'|' ∷ b.uri) refl refl)

    opened_pair :
        (n : ℕ) (r s : Dyn fs n)
        → open_bytes fs table n a.uri ≡ ok r
        → open_bytes fs table n b.uri ≡ ok s
        → open_bytes fs table (suc n) (joined a b).uri
          ≡ (ConcatReader.new (dyn_source fs n) (r ∷ s ∷ []) >>= λ w. ok (concat w))
    opened_pair n r s e f =
        open_bytes-concat fs table n (joined a b).uri joined_scheme
        ∙ (unfold open_concat open_concat_uri open_segments in
            rw (parsed, open_segment-part n a left e, open_segment-part n b right f))

    parts_shorter :
        (length a.uri < length (joined a b).uri) × (length b.uri < length (joined a b).uri)
    unfolding joined
    parts_shorter = omega (arith, length-append a.uri (b'|' ∷ b.uri))

    Wanted : (n : ℕ) → Result Error (Dyn fs n) → Type 0
    Wanted n out = (r : Dyn fs n) × (out ≡ ok r) × ServesAt fs table n r (joined a b).model 0

    both : flat (a.model ∷ b.model ∷ []) ≡ a.model ++ b.model
    both = ap (λ t. a.model ++ t) (append-nil b.model)

    of_Made :
        (n : ℕ) (out : Result Error (ConcatSource (Dyn fs n)))
        → Made
            (dyn_source fs n)
            (ServesAt fs table n)
            Never
            (law_at fs table n)
            (a.model ∷ b.model ∷ [])
            out
        → Wanted (suc n) (out >>= λ w. ok (concat w))
    unfolding Wanted joined
    of_Made n _ (made w h) = (
      concat w,
      refl,
      subst (λ t. ServesAt fs table (suc n) (concat w) t 0) both (unfold level in h),
    )
    of_Made n _ (rejected large) = absurd (omega (arith, ap length both))
    of_Made n _ (lost_device e never) = absurd never

    pub joined-Opens : Opens fs table (joined a b).uri (joined a b).model
    unfolding Wanted
    joined-Opens = record { at = opens }
      where
        opens :
            (n : ℕ)
            → length (joined a b).uri < n
            → Wanted n (open_bytes fs table n (joined a b).uri)
        opens zero h = absurd (omega arith)
        opens (suc n) h =
            let (r, e, serves) = left.opens.at n (omega (arith, parts_shorter)) in
            let (s, f, serves') = right.opens.at n (omega (arith, parts_shorter)) in
            subst (Wanted (suc n)) (sym (opened_pair n r s e f)) (
              of_Made n (ConcatReader.new (dyn_source fs n) (r ∷ s ∷ [])) (
                ConcatSource-new-Made (dyn_source fs n) (ServesAt fs table n) Never
                  (law_at fs table n) (r ∷ s ∷ []) (a.model ∷ b.model ∷ [])
                  ((0, serves), ((0, serves'), tt))))
