-- ===== src/Fuzz/Landing.antt =====
-- Where a seek leads: to its target, or nowhere; and never past `u64`.
use oxideav_source.Prelude.{
  ℕ, ◌<◌, ◌≡◌, refl, inl, inr, Option, none, some, arith, Bytes, length, u64_mod, Option-cases,
  Result, ok, err, IoError,
}
use oxideav_source.Source.{
  Source, IsSource, Reads, ℤ, pos, negsuc, SeekFrom, start, from_end, current, Never, Seeks, moved,
  refused, broken, target, offset_by, checked_add, checked_sub,
}

-- Where a seek leads is a `u64`.
abbrev pub Fits : SeekFrom → Type 0
Fits (start n) = n < u64_mod
Fits (from_end d) = Unit
Fits (current d) = Unit

abbrev pub landed : Option ℕ → ℕ → ℕ
landed none p = p
landed (some q) p = q

-- The result of a seek with this target.
abbrev pub Agrees : Option ℕ → Result IoError ℕ → Type 0
Agrees none r = (e : IoError) × (r ≡ err e)
Agrees (some q) r = r ≡ ok q

offset_by-lt : (b : ℕ) (d : ℤ) {q : ℕ} → b < u64_mod → offset_by b d ≡ some q → q < u64_mod
unfolding offset_by checked_add checked_sub
offset_by-lt b (pos d) h e = ground arith
offset_by-lt b (negsuc d) h e = ground arith

pub landed-lt :
    (len p : ℕ) (from : SeekFrom)
    → len < u64_mod
    → p < u64_mod
    → Fits from
    → landed (target len p from) p < u64_mod
landed-lt len p from h k fits = elim (Option-cases (target len p from)) [
  | inl e ↦ rw e k
  | inr (q, e) ↦ rw e (reached from fits q e)
]
  where
    reached : (from : SeekFrom) → Fits from → (q : ℕ) → target len p from ≡ some q → q < u64_mod
    reached (start n) f q e = unfold target in ground arith
    reached (from_end d) f q e = offset_by-lt len d h (unfold target in e)
    reached (current d) f q e = offset_by-lt p d k (unfold target in e)

module _ {S : Type 0} (Serves : S → Bytes → ℕ → Type 0) (c : Bytes) where
  pub Seeks-Agrees :
      (p : ℕ) (from : SeekFrom) (out : Result IoError ℕ × S)
      → Seeks Serves Never c p from out
      → Agrees (target (length c) p from) out.0
        × Serves out.1 c (landed (target (length c) p from) p)
  Seeks-Agrees p from _ (moved q s e h) = rw e (refl, h)
  Seeks-Agrees p from _ (refused m s e h) = rw e ((_, refl), h)
  Seeks-Agrees p from _ (broken e s never h) = absurd never

-- `stream_position`
pub target-stay : (len p : ℕ) → p < u64_mod → target len p (current (pos 0)) ≡ some p
unfolding target offset_by checked_add
target-stay len p h = ground arith

-- The promise of `BytesSource`, for seeks to a `u64`, without errors of a device.
pub record IsFollower {S : Type 0} (src : Source S) (Serves : S → Bytes → ℕ → Type 0) : Type 0 where
  pub reads : (s : S) (c : Bytes) (p n : ℕ) → Serves s c p → Reads Serves Never c p n (src.read n s)
  pub seeks :
      (s : S) (c : Bytes) (p : ℕ) (from : SeekFrom)
      → Serves s c p
      → Fits from
      → Seeks Serves Never c p from (src.seek from s)

pub source-IsFollower :
    {S : Type 0} (src : Source S) (Serves : S → Bytes → ℕ → Type 0)
    → IsSource src Serves Never
    → IsFollower src Serves
source-IsFollower src Serves law = record {
  reads = law.reads;
  seeks = λ s c p from h _. law.seeks s c p from h;
}
