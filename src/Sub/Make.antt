-- ===== src/Sub/Make.antt =====
-- src/sub.rs, `SubSource::new`: which windows are made.
use oxideav_source.Prelude.{
  ℕ, ◌+◌, ◌<◌, ◌≤◌, refl, inl, inr, arith, Bytes, length, take, drop, ltb, ltb→lt, u64_mod,
  Bool-cases, Result, ok, err, map_err, Error, invalid, IoError,
}
use oxideav_source.Source.{
  start, checked_add-some, checked_add-none, target, and_then, return, Source, Seeks, moved,
  refused, broken, IsSource,
}
use oxideav_source.Sub.{SubSource, stream_len, check_end, place, finish, new}
use oxideav_source.Sub.Probe.{Probed, known, lost, stream_len-Probed}
use oxideav_source.Sub.Window.{Windows}

module _ {S : Type 0} (src : Source S) (Serves : S → Bytes → ℕ → Type 0) (Raises : IoError → Type 0)
    (law : IsSource src Serves Raises) (c : Bytes) (base len : ℕ) where
  -- A window inside the content is made at position 0 of its part; one that reaches past the end is
  -- rejected; and a failing device is an error.
  pub data Made : Result Error (SubSource S) → Type 0 where
    made :
        (w : SubSource S)
        → base + len ≤ length c
        → Windows src Serves Raises law w (take len (drop base c)) 0
        → Made (ok w)
    rejected : (e : Error) → length c < base + len → Made (err e)
    lost_device : (e : Error) (x : IoError) → Raises x → Made (err e)

  placed :
      (out : Result IoError ℕ × S) (q : ℕ)
      → base + len ≤ length c
      → Seeks Serves Raises c q (start base) out
      → Made (
          finish base len (
            and_then
              (map_err (λ _. invalid "SubSource: cannot seek inner to base") out.0, out.1)
              (λ _. return tt)))
  placed _ q inside (moved r s t h) =
      unfold finish in
      made _ inside (record {
        inner_content = c;
        inner_pos = r;
        inner_serves = h;
        inside = inside;
        window = refl;
        position = refl;
      })
  placed _ q inside (refused m s t h) = absurd (unfold target in cc)
  placed _ q inside (broken e s r h) = unfold finish in lost_device _ e r

  checked :
      (q : ℕ) (s : S)
      → Serves s c q
      → Made (finish base len (check_end src base (base + len) (length c) s))
  unfolding check_end
  checked q s h = elim (Bool-cases (ltb (length c) (base + len))) [
    | inl past ↦ rw past (unfold finish in rejected _ (ltb→lt _ _ past))
    | inr inside ↦
        rw inside
          (placed (src.seek (start base) s) q (ground arith) (law.seeks s c q (start base) h))
  ]

  probed :
      (p : ℕ) (out : Result IoError ℕ × S)
      → Probed Serves Raises c p out
      → Made (
          finish base len (
            and_then
              (map_err (λ _. invalid "SubSource: cannot probe inner length") out.0, out.1)
              (check_end src base (base + len))))
  probed p _ (known s h) = checked p s h
  probed p _ (lost q e s r h) = unfold finish in lost_device _ e r

  -- `SubSource::new` on an inner source that serves `c` from a position below 2 ^ 64 gives a
  -- window that serves the bytes `[base, base + len)` of `c` from position 0, only where they lie
  -- in `c`; or an error, only where they do not or where the device fails.
  pub SubSource-new-Made :
      (inner : S) (p : ℕ) → p < u64_mod → Serves inner c p → Made (new src inner base len)
  unfolding new place
  SubSource-new-Made inner p fits h = elim (Bool-cases (ltb (base + len) u64_mod)) [
    | inl small ↦
        rw (checked_add-some base len (ground arith), new)
          (probed p (stream_len src inner)
            (stream_len-Probed src Serves Raises law c p fits inner h))
    | inr large ↦
        rw (checked_add-none base len (ground arith), new)
          (rejected _ (ground (arith, law.bounded inner c p h)))
  ]
