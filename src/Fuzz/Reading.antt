-- ===== src/Fuzz/Reading.antt =====
-- fuzz/fuzz_targets/compose_open.rs, `read_upto`: over a source that keeps its promise, the loop
-- reads all that there is, up to the size of the buffer.
use oxideav_source.Prelude.{
  ℕ, zero, suc, ◌+◌, ◌-◌, ◌≤◌, ◌<◌, min, ◌≡◌, refl, sym, ◌∙◌, ap, subst, inl, inr, true, false, [],
  ◌∷◌, ◌++◌, arith, Bytes, ◌==◌, length, take, drop, take-add, drop-drop, drop-all, length-take,
  length-drop, is_empty, Bool-cases, if-cases, if◌then◌else◌, ltb, ltb→lt, Result, ok, IoError,
}
use oxideav_source.Source.{Source, Never, Reads, got, failed, and_then, return, Run, ◌>>=◌}
use oxideav_source.Fuzz.Landing.{IsFollower}
use oxideav_source.Fuzz.Drive.{fill, read_upto}

module _ {S : Type 0} (src : Source S) (Serves : S → Bytes → ℕ → Type 0)
    (law : IsFollower src Serves) (c : Bytes) where
  -- All of the next `n` bytes that there are, and the position behind them.
  pub data Fills (p n : ℕ) : Result IoError Bytes × S → Type 0 where
    filled :
        (bs : Bytes) (s : S)
        → bs ≡ take n (drop p c)
        → Serves s c (p + min n (length c - p))
        → Fills p n (ok bs, s)

  -- What one more read of `k` bytes adds in front.
  more-Fills :
      (p n k : ℕ) (out : Result IoError Bytes × S)
      → k ≤ n
      → k ≤ length c - p
      → Fills (p + k) (n - k) out
      → Fills p n (and_then out (λ rest. return (take k (drop p c) ++ rest)))
  more-Fills p n k _ le left (filled bs s e h) =
      filled _ s
        (ap (λ t. take k (drop p c) ++ t) (e ∙ ap (take (n - k)) (sym (drop-drop k p c)))
          ∙ take-add k (n - k) (drop p c)
          ∙ ap (λ m. take m (drop p c)) (omega arith))
        (subst (Serves s c) (omega arith) h)

  nothing-Fills : (p n : ℕ) (s : S) → n ≡ 0 → Serves s c p → Fills p n (ok [], s)
  nothing-Fills p n s e h =
      filled [] s (ap (λ m. take m (drop p c)) (sym e)) (subst (Serves s c) (omega arith) h)

  -- An empty read into a buffer that is not empty is at the end.
  at_end-Fills :
      (p n k : ℕ) (s : S) → k ≡ 0 → length c ≤ p → Serves s c (p + k) → Fills p n (ok [], s)
  at_end-Fills p n k s e past h =
      filled [] s (sym (ap (take n) (drop-all p c past) ∙ take_nil n))
        (subst (Serves s c) (omega arith) h)
    where
      take_nil : (m : ℕ) → take m (let e : Bytes = [] in e) ≡ []
      take_nil zero = refl
      take_nil (suc m) = refl

  all_read : (p n k : ℕ) → k ≡ 0 → 0 < n → (0 < n → p < length c → 0 < k) → length c ≤ p
  all_read p n k e ne some = elim (Bool-cases (ltb p (length c))) [
    | inl inside ↦ absurd (omega (arith, some ne (ltb→lt p (length c) inside)))
    | inr past ↦ ground arith
  ]

  length_of_empty : (bs : Bytes) → is_empty bs ≡ true → length bs ≡ 0
  length_of_empty [] h = refl
  length_of_empty (b ∷ bs) h = cc

  length_of_given : (bs : Bytes) → is_empty bs ≡ false → 0 < length bs
  length_of_given [] h = absurd (cc)
  length_of_given (b ∷ bs) h = omega arith

  length-window : (p k : ℕ) → k ≤ length c - p → length (take k (drop p c)) ≡ k
  length-window p k h = omega (arith, length-take k (drop p c), length-drop p c)

  fill-Fills :
      (rounds n p : ℕ) (s : S) → n ≤ rounds → Serves s c p → Fills p n (fill src rounds n s)
  unfolding fill
  fill-Fills zero n p s le h = elim (Bool-cases (n == 0)) [
    | inl none ↦ rw none (nothing-Fills p n s (omega arith) h)
    | inr ne ↦ absurd (ground arith)
  ]
  fill-Fills (suc rounds) n p s le h = elim (Bool-cases (n == 0)) [
    | inl none ↦ rw none (nothing-Fills p n s (ground arith) h)
    | inr ne ↦ rw ne (
        after (ground arith) (λ m q t small k. fill-Fills rounds m q t small k) (src.read n s)
          (law.reads s c p n h))
  ]
    where
      Next : Type 0
      Next = (m q : ℕ) (t : S) → m ≤ rounds → Serves t c q → Fills q m (fill src rounds m t)

      on_text : Bytes → Run IoError S Bytes
      on_text bs =
          let more = (do rest ← fill src rounds (n - length bs); return (bs ++ rest)) in
          if is_empty bs then return [] else more

      after :
          0 < n
          → Next
          → (out : Result IoError Bytes × S) → Reads Serves Never c p n out
          → Fills p n (and_then out on_text)
      after ne next _ (failed e t never _) = absurd never
      after ne next _ (got k t small left some q) =
          let bs = take k (drop p c) in
          let size = length-window p k left in
          if-cases (λ (m : Run IoError S Bytes). Fills p n (m t)) (is_empty bs)
            (λ e.
              let nothing : k ≡ 0 = omega (arith, size, length_of_empty bs e) in
              at_end-Fills p n k t nothing (all_read p n k nothing ne some) q)
            (λ e. more-Fills p n k (fill src rounds (n - length bs) t) small left (
              subst (λ m. Fills (p + k) m (fill src rounds (n - length bs) t))
                (ap (λ m. n - m) size)
                (next (n - length bs) (p + k) t (omega (arith, size, length_of_given bs e)) q)))

  -- Over a source that keeps the promise of `BytesSource`, for seeks to a `u64`, and raises no
  -- error of its own, `read_upto` ends within as many reads as bytes are asked for, and returns
  -- all of the next `n` bytes that there are, with the position behind them.
  pub read_upto-Fills : (n p : ℕ) (s : S) → Serves s c p → Fills p n (read_upto src n s)
  unfolding read_upto
  read_upto-Fills n p s h = fill-Fills n n p s (omega arith) h
