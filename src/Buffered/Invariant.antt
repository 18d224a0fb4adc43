-- ===== src/Buffered/Invariant.antt =====
-- src/buffered.rs: the invariant of the ring, for a content of the inner source.
use oxideav_source.Prelude.{
  ℕ, zero, suc, ◌+◌, ◌-◌, ◌≤◌, ◌<◌, ◌≡◌, ◌≢◌, sym, ap, ◌∙◌, subst, true, [], ◌∷◌, ◌++◌, Option,
  none, some, arith, Bytes, length, length-take, length-drop, length-append, take, drop, drop-take,
  drop-drop, take-add, u64_mod, add_u64, add_u64-eq-add, IoError,
}
use oxideav_source.Buffered.Ring.{RingState, discard}
use oxideav_source.Buffered.Reader.{past_end}

abbrev pub ErrOk : (IoError → Type 0) → Option IoError → Type 0
ErrOk Raises none = Unit
ErrOk Raises (some e) = Raises e

-- While the worker is asked for a position, the ring is empty there.
abbrev pub Asked : Option ℕ → Bytes → ℕ → Type 0
Asked none buf ring_start = Unit
Asked (some t) buf ring_start = (buf ≡ []) × (ring_start ≡ t)

module _ (Raises : IoError → Type 0) (c : Bytes) where
  pub record RingOk (st : RingState) : Type 0 where
    pub total : st.total_len ≡ some (length c)
    pub window : st.buf ≡ take (length st.buf) (drop st.ring_start c)
    pub bounded : length st.buf ≤ st.capacity
    pub room : 0 < st.capacity
    pub block : 0 < st.block_size
    pub fraction : st.lookback_num < st.lookback_den
    pub start_fits : st.ring_start < u64_mod
    pub ended : st.eof ≡ true → length c ≤ st.ring_start + length st.buf
    pub failed : ErrOk Raises st.err
    pub dead : st.worker_dead ≡ true → st.err ≢ none
    pub asked : Asked st.target_pos st.buf st.ring_start

  -- The reader is in the ring or at its end.
  pub record PosOk (st : RingState) (p : ℕ) : Type 0 where
    pub lower : st.ring_start ≤ p
    pub upper : p ≤ st.ring_start + length st.buf
    pub fits : p < u64_mod

-- The reader has at most dropped bytes at the front.
pub record Drained (st st' : RingState) : Type 0 where
  pub same_end : st'.ring_start + length st'.buf ≡ st.ring_start + length st.buf
  pub shorter : length st'.buf ≤ length st.buf
  pub same_target : st'.target_pos ≡ st.target_pos
  pub same_eof : st'.eof ≡ st.eof
  pub same_err : st'.err ≡ st.err
  pub same_dead : st'.worker_dead ≡ st.worker_dead
  pub same_stop : st'.stop ≡ st.stop
  pub same_capacity : st'.capacity ≡ st.capacity
  pub same_block : st'.block_size ≡ st.block_size

pub Drained-refl : (st : RingState) → Drained st st
Drained-refl st = ground arith

pub past_end-le : (o : Option ℕ) (total p : ℕ) → o ≡ some total → past_end o p ≡ true → total ≤ p
past_end-le o total p known e =
    let over : past_end (some total) p ≡ true = subst (λ o. past_end o p ≡ true) known e in
    ground arith

pub length-window :
    (s : Bytes) (i : ℕ) (c : Bytes) → s ≡ take (length s) (drop i c) → length s ≤ length c - i
length-window s i c h =
    omega (arith, ap length h, length-take (length s) (drop i c), length-drop i c)

pub drop-window :
    (k i : ℕ) (s c : Bytes)
    → s ≡ take (length s) (drop i c)
    → drop k s ≡ take (length (drop k s)) (drop (i + k) c)
drop-window k i s c h =
    ap (drop k) h
    ∙ drop-take k (length s) (drop i c)
    ∙ ap (take (length s - k)) (drop-drop k i c)
    ∙ ap (λ n. take n (drop (i + k) c)) (sym (length-drop k s))

pub append-window :
    (s t c : Bytes) (i : ℕ)
    → s ≡ take (length s) (drop i c)
    → t ≡ take (length t) (drop (i + length s) c)
    → s ++ t ≡ take (length (s ++ t)) (drop i c)
append-window s t c i h k =
    ap (λ x. x ++ t) h
    ∙ ap (λ x. take (length s) (drop i c) ++ x)
        (k ∙ ap (take (length t)) (sym (drop-drop (length s) i c)))
    ∙ take-add (length s) (length t) (drop i c)
    ∙ ap (λ n. take n (drop i c)) (sym (length-append s t))

Asked-drop :
    (o : Option ℕ) (k i : ℕ) (s : Bytes) → k ≤ length s → Asked o s i → Asked o (drop k s) (i + k)
Asked-drop none k i s h a = tt
Asked-drop (some t) zero i s h (e, f) = (e, omega (arith, f))
Asked-drop (some t) (suc k) i [] h a = absurd (omega arith)
Asked-drop (some t) (suc k) i (b ∷ s) h (e, f) = absurd (cc)

module _ (Raises : IoError → Type 0) (c : Bytes) (short : length c < u64_mod) (st : RingState)
    (h : RingOk Raises c st) where
  pub ring_end-lt : st.ring_start + length st.buf < u64_mod
  ring_end-lt = omega (arith, h.start_fits, length-window st.buf st.ring_start c h.window)

  module _ (k : ℕ) (le : k ≤ length st.buf) where
    pub discard_start : add_u64 st.ring_start k ≡ st.ring_start + k
    discard_start = add_u64-eq-add st.ring_start k (omega (arith, ring_end-lt))

    pub discard-Drained : Drained st (discard k st)
    unfolding discard
    discard-Drained = ground (arith, discard_start, length-drop k st.buf)

    pub discard-RingOk : RingOk Raises c (discard k st)
    unfolding discard
    discard-RingOk = record {
      total = h.total;
      window =
          drop-window k st.ring_start st.buf c h.window
          ∙ ap (λ i. take (length (drop k st.buf)) (drop i c)) (sym discard_start);
      bounded = omega (arith, length-drop k st.buf, h.bounded);
      room = h.room;
      block = h.block;
      fraction = h.fraction;
      start_fits = omega (arith, discard_start, ring_end-lt);
      ended = λ e. omega (arith, discard_start, length-drop k st.buf, h.ended e);
      failed = h.failed;
      dead = h.dead;
      asked =
          subst (Asked st.target_pos (drop k st.buf)) (sym discard_start)
            (Asked-drop st.target_pos k st.ring_start st.buf le h.asked);
    }
