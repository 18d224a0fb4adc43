-- ===== src/Concat/Pieces.antt =====
-- Splitting a text at a byte and joining the pieces.
use oxideav_source.Prelude.{
  ℕ, ◌≡◌, ◌≢◌, refl, sym, ◌∙◌, ap, inl, inr, false, List, [], ◌∷◌, ◌++◌, Bytes, ◌==◌, ==_refl, All,
  contains, arith, Bool-cases, ==_iff,
}
use oxideav_source.Concat.{push_first, split_all, join}

abbrev pub Lacks : ℕ → Bytes → Type 0
Lacks b s = contains b s ≡ false

module _ (b : ℕ) where
  pub split_all-ne-nil : (s : Bytes) → split_all b s ≢ []
  unfolding split_all push_first
  split_all-ne-nil [] = cc
  split_all-ne-nil (c ∷ s) = ground (arith, split_all-ne-nil s)

  join-push_first : (c : ℕ) (ps : List Bytes) → ps ≢ [] → join b (push_first c ps) ≡ c ∷ join b ps
  unfolding push_first join
  join-push_first c [] h = absurd (h refl)
  join-push_first c (p ∷ []) h = refl
  join-push_first c (p ∷ q ∷ ps) h = refl

  join-cons : (p : Bytes) (ps : List Bytes) → ps ≢ [] → join b (p ∷ ps) ≡ p ++ b ∷ join b ps
  unfolding join
  join-cons p [] h = absurd (h refl)
  join-cons p (q ∷ ps) h = refl

  pub join-split_all : (s : Bytes) → join b (split_all b s) ≡ s
  unfolding split_all
  join-split_all [] = unfold join in refl
  join-split_all (c ∷ s) = elim (Bool-cases (c == b)) [
    | inl here ↦
        rw (here, join-cons [] (split_all b s) (split_all-ne-nil s), join-split_all s)
          (ap (λ x. x ∷ s) (sym ((==_iff _ _).0 here)))
    | inr other ↦
        rw (other, join-push_first c (split_all b s) (split_all-ne-nil s), join-split_all s)
  ]

  push_first-Lacks :
      (c : ℕ) (ps : List Bytes)
      → (c == b) ≡ false
      → All (Lacks b) ps
      → All (Lacks b) (push_first c ps)
  unfolding push_first
  push_first-Lacks c [] h hs = ground arith
  push_first-Lacks c (p ∷ ps) h (hp, hs) = (ground arith, hs)

  -- No piece holds the byte.
  pub split_all-Lacks : (s : Bytes) → All (Lacks b) (split_all b s)
  unfolding split_all
  split_all-Lacks [] = (refl, tt)
  split_all-Lacks (c ∷ s) = elim (Bool-cases (c == b)) [
    | inl here ↦ rw here (refl, split_all-Lacks s)
    | inr other ↦ rw other (push_first-Lacks c (split_all b s) other (split_all-Lacks s))
  ]

  split_all-piece : (p s : Bytes) → Lacks b p → split_all b (p ++ b ∷ s) ≡ p ∷ split_all b s
  unfolding split_all push_first
  split_all-piece [] s h = rw (==_refl b)
  split_all-piece (c ∷ p) s h = ground (arith, split_all-piece p s)

  split_all-last : (p : Bytes) → Lacks b p → split_all b p ≡ p ∷ []
  unfolding split_all push_first
  split_all-last [] h = refl
  split_all-last (c ∷ p) h = ground (arith, split_all-last p)

  pub split_all-join : (ps : List Bytes) → ps ≢ [] → All (Lacks b) ps → split_all b (join b ps) ≡ ps
  unfolding join
  split_all-join [] h hs = absurd (h refl)
  split_all-join (p ∷ []) h (hp, _) = split_all-last p hp
  split_all-join (p ∷ q ∷ ps) h (hp, hs) =
      split_all-piece p (join b (q ∷ ps)) hp ∙ ap (λ t. p ∷ t) (split_all-join (q ∷ ps) (cc) hs)
