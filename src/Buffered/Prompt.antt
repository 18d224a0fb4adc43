-- ===== src/Buffered/Prompt.antt =====
-- src/buffered.rs, the loop of `read`: an error that it returns without a timeout is the device's.
use oxideav_source.Prelude.{
  ℕ, ◌+◌, min, ◌<◌, ◌||◌, Option, none, some, arith, Bytes, length, u64_mod, ltb, ◌-◌, ◌==◌, ltb→lt,
  if-cases, Result, ok, err, IoError,
}
use oxideav_source.Buffered.Ring.{RingState, rear}
use oxideav_source.Buffered.Reader.{
  Round, returns, again, waits, past_end, hit, miss_with, miss, round, rounds, notified, go_round,
  attempt,
}
use oxideav_source.Buffered.Invariant.{ErrOk, RingOk, PosOk}
use oxideav_source.Buffered.Rounds.{Rounded, returned, again_round, waiting, round-Rounded}

module _ (Raises : IoError → Type 0) where
  -- Bytes, or an error of the device.
  abbrev pub Clean : Result IoError Bytes → Type 0
  Clean (ok s) = Unit
  Clean (err e) = Raises e

  abbrev CleanRound : Round → Type 0
  CleanRound (returns r q st b) = Clean r
  CleanRound (again st) = Unit
  CleanRound (waits st b) = Unit

  abbrev pub CleanReturn : Option Round → Type 0
  CleanReturn none = Unit
  CleanReturn (some r) = CleanRound r

  miss_with-Clean :
      (o : Option IoError) (p : ℕ) (st : RingState) → ErrOk Raises o → CleanRound (miss_with o p st)
  unfolding miss_with
  miss_with-Clean (some e) p st h = h
  miss_with-Clean none p st h =
      if-cases CleanRound (st.eof || past_end st.total_len p) (λ _. tt)
        (λ _. if-cases CleanRound (length st.buf == st.capacity) (λ _. tt) (λ _. tt))

  hit-Clean : (wrap n p : ℕ) (st : RingState) → CleanRound (hit wrap n p st)
  unfolding hit
  hit-Clean wrap n p st =
      if-cases CleanRound
        (ltb (rear st) (p - st.ring_start + min (length st.buf - (p - st.ring_start)) n)) (λ _. tt)
        (λ _. tt)

  module _ (c : Bytes) (short : length c < u64_mod) (wrap n : ℕ) (positive : 0 < n) (p : ℕ) where
    round-Clean :
        (st : RingState) → RingOk Raises c st → PosOk Raises c st p → CleanRound (round wrap n p st)
    unfolding round miss
    round-Clean st h at =
        if-cases CleanRound (ltb p st.ring_start)
          (λ low. absurd (omega (arith, at.lower, ltb→lt p st.ring_start low)))
          (λ _.
            if-cases CleanRound (ltb (p - st.ring_start) (length st.buf))
              (λ _. hit-Clean wrap n p st) (λ _. miss_with-Clean st.err p st h.failed))

    second_round :
        (r : Round) → CleanRound r → CleanReturn (notified (go_round (rounds 0 wrap n p) r))
    unfolding rounds
    second_round (returns r q st b) h = h
    second_round (again st) h = tt
    second_round (waits st b) h = tt

    first_round :
        (st : RingState) (r : Round)
        → Rounded Raises c n p st r
        → CleanRound r
        → CleanReturn (go_round (rounds 1 wrap n p) r)
    unfolding rounds
    first_round st _ (returned r q u b _ _ _ _ _) k = k
    first_round st _ (waiting u b _ _ _ _ _ _) k = tt
    first_round st _ (again_round u h at _ _ _) k =
        second_round (round wrap n p u) (round-Clean u h at)

    pub attempt-Clean :
        (st : RingState)
        → RingOk Raises c st
        → PosOk Raises c st p
        → CleanReturn (attempt wrap n p st)
    unfolding rounds
    attempt-Clean st h at =
        first_round st (round wrap n p st) (round-Rounded Raises c short n positive p st h at wrap)
          (round-Clean st h at)
