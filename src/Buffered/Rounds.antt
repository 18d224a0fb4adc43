-- ===== src/Buffered/Rounds.antt =====
-- src/buffered.rs, the loop of `read`: what a round, and the rounds up to a return or a wait, do.
use oxideav_source.Prelude.{
  ℕ, ◌+◌, ◌-◌, ◌≤◌, ◌<◌, min, ◌≡◌, ◌≢◌, refl, ap, ◌∙◌, subst, inl, inr, Bool, true, false, ◌||◌, [],
  Option, none, some, arith, Bytes, length, take, drop, take-append-drop, u64_mod, add_u64,
  add_u64-eq-add, ltb, ◌==◌, Bool-cases, if-cases, Result, ok, err, IoError,
}
use oxideav_source.Sub.Window.{window_lem}
use oxideav_source.Buffered.Ring.{RingState, rear, discard, copy_out}
use oxideav_source.Buffered.Reader.{
  Round, returns, again, waits, timed_out, past_end, hit, miss_with, miss, round,
}
use oxideav_source.Buffered.Copy.{copy_out_lem}
use oxideav_source.Buffered.Knobs.{rear-lt-capacity}
use oxideav_source.Buffered.Invariant.{
  ErrOk, RingOk, PosOk, Drained, Drained-refl, discard-RingOk, discard-Drained, discard_start,
  length-window, ring_end-lt, past_end-le,
}

-- What a read of a buffer of `n` bytes at `p` may return, and the position behind it: the next bytes
-- of the content, none only at its end; an error of the device; or a timeout.
pub data Returned (Raises : IoError → Type 0) (c : Bytes) (n p : ℕ)
    : Result IoError Bytes → ℕ → Type 0 where
  bytes :
      (k q : ℕ) (s : Bytes)
      → k ≤ n
      → k ≤ length c - p
      → (k ≡ 0 → length c ≤ p)
      → s ≡ take k (drop p c)
      → q ≡ p + k
      → Returned Raises c n p (ok s) q
  device : (e : IoError) → Raises e → Returned Raises c n p (err e) p
  late : Returned Raises c n p (err timed_out) p

-- The ring that a read waits on.
pub record Starved (st : RingState) : Type 0 where
  pub no_error : st.err ≡ none
  pub not_ended : st.eof ≡ false
  pub not_full : length st.buf ≢ st.capacity

-- The flag of a notification is set where the ring was full and is not any more.
abbrev pub Told : RingState → RingState → Bool → Type 0
Told st st' true = Unit
Told st st' false = length st'.buf ≡ length st.buf

module _ (Raises : IoError → Type 0) (c : Bytes) (n p : ℕ) (st : RingState) where
  pub data Rounded : Round → Type 0 where
    returned :
        (r : Result IoError Bytes) (q : ℕ) (st' : RingState) (b : Bool)
        → Returned Raises c n p r q
        → RingOk Raises c st'
        → PosOk Raises c st' q
        → Drained st st'
        → Told st st' b
        → Rounded (returns r q st' b)
    again_round :
        (st' : RingState)
        → RingOk Raises c st'
        → PosOk Raises c st' p
        → Drained st st'
        → length st'.buf < st'.capacity
        → length st.buf ≡ st.capacity
        → Rounded (again st')
    waiting :
        (st' : RingState) (b : Bool)
        → Starved st'
        → RingOk Raises c st'
        → PosOk Raises c st' p
        → p ≡ st'.ring_start + length st'.buf
        → Drained st st'
        → Told st st' b
        → Rounded (waits st' b)

module _ (Raises : IoError → Type 0) (c : Bytes) (short : length c < u64_mod) (n : ℕ)
    (positive : 0 < n) (p : ℕ) (st : RingState) (h : RingOk Raises c st)
    (at : PosOk Raises c st p) where
  rear_lt : rear st < st.capacity
  rear_lt = rear-lt-capacity st h.room h.fraction

  hit-Rounded :
      (wrap : ℕ) → p - st.ring_start < length st.buf → Rounded Raises c n p st (hit wrap n p st)
  unfolding hit
  hit-Rounded wrap inside = elim (Bool-cases (ltb (rear st) (rel + k))) [
    | inl far ↦
        let le : rel + k - rear st ≤ length st.buf = ground arith in
        let d = discard-Drained Raises c short st h (rel + k - rear st) le in
        rw far (
          returned _ _ _ true here (discard-RingOk Raises c short st h (rel + k - rear st) le)
            (behind_it le d) d tt)
    | inr near ↦ rw near (returned _ _ _ false here h behind (Drained-refl st) refl)
  ]
    where
      rel : ℕ
      rel = p - st.ring_start

      k : ℕ
      k = min (length st.buf - rel) n

      next : add_u64 p k ≡ p + k
      next = add_u64-eq-add p k (omega (arith, ring_end-lt Raises c short st h, at.lower))

      copied : copy_out (take wrap st.buf) (drop wrap st.buf) rel k ≡ take k (drop p c)
      copied =
          copy_out_lem (take wrap st.buf) (drop wrap st.buf) rel k
          ∙ ap (λ s. take k (drop rel s)) (take-append-drop wrap st.buf ∙ h.window)
          ∙ window_lem st.ring_start (length st.buf) rel k c (omega arith)
          ∙ ap (λ i. take k (drop i c)) (omega (arith, at.lower))

      here :
          Returned Raises c n p
            (ok (copy_out (take wrap st.buf) (drop wrap st.buf) rel k))
            (add_u64 p k)
      here =
          bytes k (add_u64 p k) _ (omega arith)
            (omega (arith, length-window st.buf st.ring_start c h.window, at.lower))
            (λ e. absurd (omega (arith, e))) copied next

      behind : PosOk Raises c st (add_u64 p k)
      behind = omega (arith, next, at.lower, ring_end-lt Raises c short st h)

      behind_it :
          (le : rel + k - rear st ≤ length st.buf)
          → Drained st (discard (rel + k - rear st) st)
          → PosOk Raises c (discard (rel + k - rear st) st) (add_u64 p k)
      behind_it le d = omega (
        arith,
        next,
        at.lower,
        d.same_end,
        ring_end-lt Raises c short st h,
        discard_start Raises c short st h (rel + k - rear st) le,
      )

  over-le :
      p ≡ st.ring_start + length st.buf → (st.eof || past_end st.total_len p) ≡ true → length c ≤ p
  over-le edge over = elim (Bool-cases st.eof) [
    | inl e ↦ omega (arith, h.ended e)
    | inr e ↦ past_end-le st.total_len (length c) p h.total (ground arith)
  ]

  drained-Rounded :
      p ≡ st.ring_start + length st.buf
      → length st.buf ≡ st.capacity
      → Rounded Raises c n p st (again (discard (length st.buf - rear st) st))
  unfolding discard
  drained-Rounded edge full =
      let k = length st.buf - rear st in
      let le : k ≤ length st.buf = omega arith in
      let d = discard-Drained Raises c short st h k le in
      let at' : PosOk Raises c (discard k st) p =
        omega (arith, d.same_end, at.fits, discard_start Raises c short st h k le) in
      again_round (discard k st) (discard-RingOk Raises c short st h k le) at' d
        (omega (
          arith,
          d.same_end,
          d.same_capacity,
          rear_lt,
          discard_start Raises c short st h k le,
          full,
        ))
        full

  miss_with-Rounded :
      p ≡ st.ring_start + length st.buf
      → (o : Option IoError) → st.err ≡ o
      → Rounded Raises c n p st (miss_with o p st)
  unfolding miss_with
  miss_with-Rounded edge (some e) known =
      returned (err e) p st false (device e (subst (ErrOk Raises) known h.failed)) h at
        (Drained-refl st) refl
  miss_with-Rounded edge none fine =
      if-cases P (st.eof || past_end st.total_len p)
        (λ over.
          returned (ok []) p st false
            (bytes 0 p [] (omega arith) (omega arith) (λ _. over-le edge over) refl (omega arith)) h
            at (Drained-refl st) refl)
        (λ more.
          if-cases P (length st.buf == st.capacity) (λ full. drained-Rounded edge (ground arith))
            (λ free.
              waiting st false
                (record { no_error = fine; not_ended = ground arith; not_full = ground arith }) h at
                edge (Drained-refl st) refl))
    where
      P : Round → Type 0
      P = Rounded Raises c n p st

  pub round-Rounded : (wrap : ℕ) → Rounded Raises c n p st (round wrap n p st)
  unfolding round
  round-Rounded wrap =
      if-cases P (ltb p st.ring_start) (λ below. absurd (ground (arith, at.lower)))
        (λ _.
          if-cases P (ltb (p - st.ring_start) (length st.buf))
            (λ inside. hit-Rounded wrap (ground arith))
            (λ past.
              unfold miss in miss_with-Rounded (ground (arith, at.lower, at.upper)) st.err refl))
    where
      P : Round → Type 0
      P = Rounded Raises c n p st
