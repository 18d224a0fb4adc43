-- ===== src/Fuzz/Opening.antt =====
-- fuzz/fuzz_targets/compose_open.rs: what a composition opens to. No file is opened, so that
-- nothing is assumed of the file system.
use oxideav_source.Prelude.{
  ℕ, zero, suc, ◌+◌, ◌≤◌, ◌<◌, ◌≡◌, refl, sym, ◌∙◌, ap, subst, Bool, true, false, [], ◌∷◌, ◌++◌,
  arith, Bytes, codes, u64_mod, length, take, drop, is_empty, Result, ok, ◌>>=◌, Error,
}
use oxideav_source.Decimal.{print_u64}
use oxideav_source.Uri.{split}
use oxideav_source.Uri.Split.{split-scheme}
use oxideav_source.Data
use oxideav_source.Slice
use oxideav_source.Slice.RoundTrip.{SliceUri-parse-format}
use oxideav_source.Source.{Source, IsSource, Never}
use oxideav_source.Mem
use oxideav_source.Mem.{Table}
use oxideav_source.Mem.Reader.{new-Serves}
use oxideav_source.Sub
use oxideav_source.Sub.{SubSource}
use oxideav_source.Sub.Make.{SubSource-new-Made}
use oxideav_source.Open.{
  FileSystem, Dyn, dyn_source, cursor, sub, concat, open_bytes, open_data, open_data_uri,
  open_slice, open_slice_uri, open_inner, open_concat,
}
use oxideav_source.Open.Boxes.{level, ServesDyn}
use oxideav_source.Open.Lengths.{length-inner}
use oxideav_source.Fuzz.Compose.{slice_text, level_of, is_err}

-- No file serves anything, and no device raises an error.
abbrev pub Nothing : {F : Type 0} → F → Bytes → ℕ → Type 0
Nothing _ _ _ = ⊥

pub no_files : {F : Type 0} (device : Source F) → IsSource device Nothing Never
no_files device = record {
  bounded = λ s c p h. absurd h;
  reads = λ s c p n h. absurd h;
  seeks = λ s c p from h. absurd h;
}

module _ {F : Type 0} (fs : FileSystem F) (table : Table) where
  abbrev pub ServesAt : (n : ℕ) → Dyn fs n → Bytes → ℕ → Type 0
  ServesAt = ServesDyn fs Nothing Never (no_files fs.device)

  abbrev pub law_at : (n : ℕ) → IsSource (dyn_source fs n) (ServesAt n) Never
  law_at n = (level fs Nothing Never (no_files fs.device) n).1

  -- With more levels than bytes, the URI opens to a reader that serves the content.
  pub record Opens (u m : Bytes) : Type 0 where
    pub at :
        (n : ℕ)
        → length u < n
        → (r : Dyn fs n) × (open_bytes fs table n u ≡ ok r) × ServesAt n r m 0

  module _ (n : ℕ) (u : Bytes) where
    open_bytes-data :
        (split u).0 ≡ codes "data"
        → open_bytes fs table (suc n) u ≡ (open_data u >>= λ r. ok (cursor r))
    unfolding open_bytes
    open_bytes-data e = rw e

    open_bytes-slice :
        (split u).0 ≡ codes "slice"
        → open_bytes fs table (suc n) u
          ≡ (open_slice (dyn_source fs n) (open_bytes fs table n) u >>= λ r. ok (sub r))
    unfolding open_bytes
    open_bytes-slice e = rw e

    pub open_bytes-concat :
        (split u).0 ≡ codes "concat"
        → open_bytes fs table (suc n) u
          ≡ (open_concat (dyn_source fs n) (open_bytes fs table n) u >>= λ r. ok (concat r))
    unfolding open_bytes
    open_bytes-concat e = rw e

  pub data-Opens :
      (u m : Bytes) (b : Bool)
      → (split u).0 ≡ codes "data"
      → Data.parse u ≡ ok (record { mediatype = []; base64 = b; payload = m })
      → length m < u64_mod
      → Opens u m
  data-Opens u m b e parsed fits = record { at = opens }
    where
      opens :
          (n : ℕ)
          → length u < n
          → (r : Dyn fs n) × (open_bytes fs table n u ≡ ok r) × ServesAt n r m 0
      opens zero h = absurd (omega arith)
      opens (suc n) h = (
        cursor (Mem.new m),
        open_bytes-data n u e ∙ (unfold open_data open_data_uri in rw parsed),
        unfold level in new-Serves m fits,
      )

  -- A window in an opened URI, by what `SubSource::new` makes.
  module _ (off l : ℕ) (u m : Bytes) (inner : Opens u m) (fits_off : off < u64_mod)
      (fits_l : l < u64_mod) (given : is_empty u ≡ false) where
    abbrev value : Slice.SliceUri
    value = record { offset = off; length = l; inner = u }

    text : slice_text off l u ≡ Slice.format value
    unfolding slice_text Slice.format
    text = refl

    parsed : Slice.parse (slice_text off l u) ≡ ok value
    parsed =
        ap Slice.parse text
        ∙ SliceUri-parse-format value
            (record { offset_fits = fits_off; length_fits = fits_l; inner_given = given })

    pub slice_scheme : (split (slice_text off l u)).0 ≡ codes "slice"
    slice_scheme =
        unfold slice_text in
        ap (λ (p : Bytes × Bytes). p.0)
          (split-scheme (codes "slice") (print_u64 off ++ b'+' ∷ (print_u64 l ++ b'!' ∷ u)) refl
            refl)

    opened_window :
        (n : ℕ) (r : Dyn fs n)
        → open_bytes fs table n u ≡ ok r
        → open_bytes fs table (suc n) (slice_text off l u)
          ≡ (Sub.new (dyn_source fs n) r off l >>= λ w. ok (sub w))
    opened_window n r e =
        open_bytes-slice n (slice_text off l u) slice_scheme
        ∙ (unfold open_slice open_slice_uri open_inner in rw (parsed, e))

    shorter : length u < length (slice_text off l u)
    shorter = length-inner (slice_text off l u) value parsed

    pub slice-Opens : off + l ≤ length m → Opens (slice_text off l u) (take l (drop off m))
    slice-Opens inside = record { at = opens }
      where
        Wanted : (n : ℕ) → Result Error (Dyn fs n) → Type 0
        Wanted n out = (r : Dyn fs n) × (out ≡ ok r) × ServesAt n r (take l (drop off m)) 0

        of_Made :
            (n : ℕ) (out : Result Error (SubSource (Dyn fs n)))
            → Sub.Make.Made (dyn_source fs n) (ServesAt n) Never (law_at n) m off l out
            → Wanted (suc n) (out >>= λ w. ok (sub w))
        of_Made n _ (Sub.Make.made w _ h) = (sub w, refl, unfold level in h)
        of_Made n _ (Sub.Make.rejected e past) = absurd (omega arith)
        of_Made n _ (Sub.Make.lost_device e x never) = absurd never

        opens :
            (n : ℕ)
            → length (slice_text off l u) < n
            → Wanted n (open_bytes fs table n (slice_text off l u))
        opens zero h = absurd (omega arith)
        opens (suc n) h =
            let (r, e, serves) = inner.at n (omega (arith, shorter)) in
            subst (Wanted (suc n)) (sym (opened_window n r e)) (
              of_Made n (Sub.new (dyn_source fs n) r off l) (
                SubSource-new-Made (dyn_source fs n) (ServesAt n) Never (law_at n) m off l r 0
                  (omega arith) serves))

    -- A window that reaches past the content is not opened.
    pub slice_rejected :
        length m < off + l
        → is_err (open_bytes fs table (level_of (slice_text off l u)) (slice_text off l u)) ≡ true
    slice_rejected past =
        let (r, e, serves) = inner.at (length (slice_text off l u)) shorter in
        ap is_err (opened_window (length (slice_text off l u)) r e)
        ∙ of_Made (length (slice_text off l u))
            (Sub.new (dyn_source fs (length (slice_text off l u))) r off l)
            (SubSource-new-Made (dyn_source fs (length (slice_text off l u)))
              (ServesAt (length (slice_text off l u))) Never (law_at (length (slice_text off l u)))
              m off l r 0 (omega arith) serves)
      where
        of_Made :
            (n : ℕ) (out : Result Error (SubSource (Dyn fs n)))
            → Sub.Make.Made (dyn_source fs n) (ServesAt n) Never (law_at n) m off l out
            → is_err (let r : Result Error (Dyn fs (suc n)) = out >>= λ w. ok (sub w) in r) ≡ true
        of_Made n _ (Sub.Make.made w inside h) = absurd (omega arith)
        of_Made n _ (Sub.Make.rejected e _) = refl
        of_Made n _ (Sub.Make.lost_device e x never) = refl
