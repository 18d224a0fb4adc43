-- ===== src/Buffered/Copy.antt =====
-- src/buffered.rs, the hit path of `read`: the copy out of the deque's halves.
use oxideav_source.Prelude.{
  ℕ, zero, suc, ◌-◌, ◌≤◌, min, ◌≡◌, refl, sym, ap, ◌∙◌, inl, inr, List, [], ◌∷◌, ◌++◌, append-nil,
  arith, Bytes, ltb, length, length-drop, take, drop, take-all, take-append_within,
  drop-append_within, drop-append_past, Bool-cases, if◌then◌else◌,
}
use oxideav_source.Buffered.Ring.{copy_out}

take-append_past {ℓ} :
    {A : Type ℓ} (n : ℕ) (xs ys : List A)
    → length xs ≤ n
    → take n (xs ++ ys) ≡ xs ++ take (n - length xs) ys
take-append_past n [] ys h = ap (λ k. take k ys) (omega arith)
take-append_past zero (x ∷ xs) ys h = absurd (omega arith)
take-append_past (suc n) (x ∷ xs) ys h =
    ap (λ t. x ∷ t)
      (take-append_past n xs ys (omega arith) ∙ ap (λ k. xs ++ take k ys) (omega arith))

-- Both segments, or the first alone.
segments_lem :
    (s t : Bytes) (n : ℕ)
    → take (min (length s) n) s
        ++ (if ltb (min (length s) n) n then take (n - min (length s) n) t else [])
      ≡ take n (s ++ t)
segments_lem s t n = elim (Bool-cases (ltb (min (length s) n) n)) [
  | inl two ↦
      let all_of : min (length s) n ≡ length s = ground arith in
      rw (two, all_of)
        (ap (λ x. x ++ take (n - length s) t) (take-all (length s) s (omega arith))
          ∙ sym (take-append_past n s t (ground arith)))
  | inr one ↦
      let all_of : min (length s) n ≡ n = ground arith in
      rw (one, all_of) (append-nil (take n s) ∙ sym (take-append_within n s t (ground arith)))
]

-- However the deque is split into two halves, the copy by segments gives the `n` bytes from `rel`
-- on of the whole, or those that there are.
pub copy_out_lem :
    (front back : Bytes) (rel n : ℕ) → copy_out front back rel n ≡ take n (drop rel (front ++ back))
unfolding copy_out
copy_out_lem front back rel n = elim (Bool-cases (ltb rel (length front))) [
  | inl first ↦
      rw (first, drop-append_within rel front back (ground arith), sym (length-drop rel front))
        (segments_lem (drop rel front) back n)
  | inr second ↦ rw (second, drop-append_past rel front back (ground arith)) refl
]
