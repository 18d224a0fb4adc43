-- ===== src/Sub/Probe.antt =====
-- src/sub.rs, `stream_len`: it finds the length and leaves the position as it was.
use oxideav_source.Prelude.{
  ℕ, ◌<◌, ◌≡◌, refl, sym, subst, inl, inr, some, arith, Bytes, length, ◌==◌, ==_iff, u64_mod,
  Bool-cases, Result, ok, err, IoError,
}
use oxideav_source.Source.{
  pos, start, from_end, current, checked_add, offset_by, target, and_then, return, Source, Seeks,
  moved, refused, broken, IsSource,
}
use oxideav_source.Sub.{restore, stream_len}

module _ {S : Type 0} (Serves : S → Bytes → ℕ → Type 0) (Raises : IoError → Type 0)
    (c : Bytes) where
  -- The length, with the position `p` as it was; or an error of the device.
  pub data Probed (p : ℕ) : Result IoError ℕ × S → Type 0 where
    known : (s : S) → Serves s c p → Probed p (ok (length c), s)
    lost : (q : ℕ) (e : IoError) (s : S) → Raises e → Serves s c q → Probed p (err e, s)

module _ {S : Type 0} (src : Source S) (Serves : S → Bytes → ℕ → Type 0) (Raises : IoError → Type 0)
    (law : IsSource src Serves Raises) (c : Bytes) (p : ℕ) (fits : p < u64_mod) where
  here_target : target (length c) p (current (pos 0)) ≡ some p
  unfolding target offset_by checked_add
  here_target = ground arith

  end_target : length c < u64_mod → target (length c) p (from_end (pos 0)) ≡ some (length c)
  unfolding target offset_by checked_add
  end_target h = ground arith

  back :
      (end : ℕ) (out : Result IoError ℕ × S)
      → end ≡ length c
      → Seeks Serves Raises c end (start p) out
      → Probed Serves Raises c p (and_then out (λ _. return end))
  back end _ e (moved q s t h) = rw e (known s (subst (Serves s c) same h))
    where
      same : q ≡ p
      same = unfold target in ground arith
  back end _ e (refused m s t h) = absurd (unfold target in cc)
  back end _ e (broken x s r h) = lost end x s r h

  restore-Probed :
      (s : S) → Serves s c (length c) → Probed Serves Raises c p (restore src p (length c) s)
  unfolding restore
  restore-Probed s h = elim (Bool-cases (p == length c)) [
    | inl e ↦ rw e (known s (subst (Serves s c) (sym ((==_iff _ _).0 e)) h))
    | inr e ↦
        rw e (back (length c) (src.seek (start p) s) refl (law.seeks s c (length c) (start p) h))
  ]

  at_end :
      (out : Result IoError ℕ × S)
      → Seeks Serves Raises c p (from_end (pos 0)) out
      → length c < u64_mod
      → Probed Serves Raises c p (and_then out (λ end. restore src p end))
  at_end _ (moved q s t h) small = rw (same) (restore-Probed s (subst (Serves s c) same h))
    where
      same : q ≡ length c
      same = ground (arith, end_target small)
  at_end _ (refused m s t h) small = absurd (ground (arith, end_target small))
  at_end _ (broken x s r h) small = lost p x s r h

  at_start :
      (out : Result IoError ℕ × S)
      → Seeks Serves Raises c p (current (pos 0)) out
      → Probed Serves Raises c p (
          and_then out
            (λ saved s. and_then (src.seek (from_end (pos 0)) s) (λ end. restore src saved end)))
  at_start _ (moved q s t h) = rw same (
      at_end (src.seek (from_end (pos 0)) s) (law.seeks s c p (from_end (pos 0)) h')
        (law.bounded s c p h'))
    where
      same : q ≡ p
      same = ground (arith, here_target)

      h' : Serves s c p
      h' = subst (Serves s c) same h
  at_start _ (refused m s t h) = absurd (ground (arith, here_target))
  at_start _ (broken x s r h) = lost p x s r h

  -- On a source that serves a content from a position below 2 ^ 64, `stream_len` returns the
  -- length of the content with the position as it was, or an error of the device.
  pub stream_len-Probed : (s : S) → Serves s c p → Probed Serves Raises c p (stream_len src s)
  unfolding stream_len
  stream_len-Probed s h =
      at_start (src.seek (current (pos 0)) s) (law.seeks s c p (current (pos 0)) h)
