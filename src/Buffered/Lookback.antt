-- ===== src/Buffered/Lookback.antt =====
-- src/buffered.rs: the bytes behind the reader, and seeks back to them.
use oxideav_source.Prelude.{
  ℕ, ◌+◌, ◌-◌, ◌≤◌, ◌<◌, min, ◌≡◌, refl, inl, inr, Bool, true, false, ◌&&◌, arith, Bytes, length,
  u64_mod, add_u64, add_u64-eq-add, ltb, leb, Bool-cases, if-cases, Result, IoError,
}
use oxideav_source.Buffered.Ring.{RingState, rear, discard}
use oxideav_source.Buffered.Reader.{Round, returns, hit, seek_to}
use oxideav_source.Buffered.Invariant.{
  RingOk, PosOk, discard-RingOk, discard-Drained, discard_start, ring_end-lt,
}

module _ (Raises : IoError → Type 0) (c : Bytes) (short : length c < u64_mod) where
  inside-same :
      (st : RingState)
      → RingOk Raises c st
      → (t : ℕ) → st.ring_start ≤ t
      → t ≤ st.ring_start + length st.buf
      → seek_to t st ≡ (st, false)
  unfolding seek_to
  inside-same st h t lo hi =
      let no_wrap =
        add_u64-eq-add st.ring_start (length st.buf)
          (omega (arith, ring_end-lt Raises c short st h)) in
      if-cases (λ (m : RingState × Bool). m ≡ (st, false))
        (leb st.ring_start t && leb t (add_u64 st.ring_start (length st.buf))) (λ _. refl)
        (λ out. absurd (ground (arith, no_wrap)))

  -- A read that returned leaves, of what the ring held, the `rear` bytes behind its new position.
  pub data Keeps (st : RingState) : Round → Type 0 where
    keeps :
        (r : Result IoError Bytes) (q : ℕ) (st' : RingState) (b : Bool)
        → ((t : ℕ) → st.ring_start ≤ t → q - rear st ≤ t → t ≤ q → seek_to t st' ≡ (st', false))
        → Keeps st (returns r q st' b)

  -- On a ring and a position in the invariants for a content of less than 2 ^ 64 bytes, where a
  -- read finds bytes in the ring, every later position up to the new one that the ring held before
  -- and that is at most `rear` bytes behind the new one is still found: a seek to it changes
  -- nothing in the ring.
  pub hit-Keeps :
      (wrap n p : ℕ) (st : RingState)
      → RingOk Raises c st
      → PosOk Raises c st p
      → p - st.ring_start < length st.buf
      → Keeps st (hit wrap n p st)
  unfolding hit
  hit-Keeps wrap n p st h at inside = elim (Bool-cases (ltb (rear st) (rel + k))) [
    | inl far ↦
        let le : rel + k - rear st ≤ length st.buf = ground arith in
        let d = discard-Drained Raises c short st h (rel + k - rear st) le in
        let from = discard_start Raises c short st h (rel + k - rear st) le in
        rw far (
          keeps _ _ _ true (λ t lo near hi.
            inside-same (discard (rel + k - rear st) st)
              (discard-RingOk Raises c short st h (rel + k - rear st) le) t
              (ground (arith, next, from)) (omega (arith, d.same_end, next, at.lower))))
    | inr near ↦
        rw near (
          keeps _ _ _ false (λ t lo near hi. inside-same st h t lo (omega (arith, next, at.lower))))
  ]
    where
      rel : ℕ
      rel = p - st.ring_start

      k : ℕ
      k = min (length st.buf - rel) n

      next : add_u64 p k ≡ p + k
      next = add_u64-eq-add p k (omega (arith, ring_end-lt Raises c short st h, at.lower))
