-- ===== src/Buffered/Attempts.antt =====
-- src/buffered.rs, the loop of `read`: its rounds up to a return or a wait.
use oxideav_source.Prelude.{
  ◌+◌, ◌≡◌, ℕ, ◌<◌, refl, ◌∙◌, Bool, true, false, Option, none, some, arith, Bytes, length, u64_mod,
  if-cases, Result, err, IoError,
}
use oxideav_source.Buffered.Ring.{RingState}
use oxideav_source.Buffered.Reader.{
  Round, returns, waits, timed_out, round, notified, go_round, rounds, attempt, expire_with, expire,
}
use oxideav_source.Buffered.Invariant.{RingOk, PosOk, Drained, Drained-refl}
use oxideav_source.Buffered.Rounds.{
  Returned, late, Starved, Told, Rounded, returned, again_round, waiting, round-Rounded,
}

Drained-trans : {a b d : RingState} → Drained a b → Drained b d → Drained a d
Drained-trans x y = record {
  same_end = omega (arith, x.same_end, y.same_end);
  shorter = omega (arith, x.shorter, y.shorter);
  same_target = y.same_target ∙ x.same_target;
  same_eof = y.same_eof ∙ x.same_eof;
  same_err = y.same_err ∙ x.same_err;
  same_dead = y.same_dead ∙ x.same_dead;
  same_stop = y.same_stop ∙ x.same_stop;
  same_capacity = y.same_capacity ∙ x.same_capacity;
  same_block = y.same_block ∙ x.same_block;
}

-- What the loop comes to: a return, or a wait on a ring that is neither full nor ended.
module _ (Raises : IoError → Type 0) (c : Bytes) (n p : ℕ) (st : RingState) where
  pub data Tried : Option Round → Type 0 where
    replied :
        (r : Result IoError Bytes) (q : ℕ) (st' : RingState) (b : Bool)
        → Returned Raises c n p r q
        → RingOk Raises c st'
        → PosOk Raises c st' q
        → Drained st st'
        → Told st st' b
        → Tried (some (returns r q st' b))
    slept :
        (st' : RingState) (b : Bool)
        → Starved st'
        → RingOk Raises c st'
        → PosOk Raises c st' p
        → p ≡ st'.ring_start + length st'.buf
        → Drained st st'
        → Told st st' b
        → Tried (some (waits st' b))

module _ (Raises : IoError → Type 0) (c : Bytes) (short : length c < u64_mod) (wrap n : ℕ)
    (positive : 0 < n) (p : ℕ) where
  one_more :
      (st st' : RingState)
      → Drained st st'
      → length st'.buf < st'.capacity
      → (r : Round) → Rounded Raises c n p st' r
      → Tried Raises c n p st (notified (go_round (rounds 0 wrap n p) r))
  one_more st st' d room _ (returned r q u b x h at e _) =
      replied r q u true x h at (Drained-trans d e) tt
  one_more st st' d room _ (waiting u b x h at edge e _) =
      slept u true x h at edge (Drained-trans d e) tt
  one_more st st' d room _ (again_round u _ _ _ _ full) = absurd (omega (arith, full))

  first_round :
      (st : RingState) (r : Round)
      → Rounded Raises c n p st r
      → Tried Raises c n p st (go_round (rounds 1 wrap n p) r)
  unfolding rounds
  first_round st _ (returned r q u b x h at e t) = replied r q u b x h at e t
  first_round st _ (waiting u b x h at edge e t) = slept u b x h at edge e t
  first_round st _ (again_round u h at e room full) =
      one_more st u e room (round wrap n p u)
        (round-Rounded Raises c short n positive p u h at wrap)

  -- On a ring and a position in the invariants for a content of less than 2 ^ 64 bytes, the loop
  -- of a read into a non-empty buffer comes to its return or its wait in at most two rounds: it
  -- returns what a reader of the content may return, or waits on a ring that is neither full nor
  -- ended and has no error; in both cases it has at most dropped bytes at the front, keeps the
  -- invariants, and has notified the worker if it dropped any.
  pub attempt-Tried :
      (st : RingState)
      → RingOk Raises c st
      → PosOk Raises c st p
      → Tried Raises c n p st (attempt wrap n p st)
  unfolding rounds
  attempt-Tried st h at =
      first_round st (round wrap n p st) (round-Rounded Raises c short n positive p st h at wrap)

  expire_with-Tried :
      (st : RingState)
      → RingOk Raises c st
      → PosOk Raises c st p
      → (o : Option IoError) → Tried Raises c n p st (expire_with o wrap n p st)
  unfolding rounds
  expire_with-Tried st h at (some e) = attempt-Tried st h at
  expire_with-Tried st h at none =
      if-cases (Tried Raises c n p st) st.eof (λ _. attempt-Tried st h at)
        (λ _. replied (err timed_out) p st false late h at (Drained-refl st) refl)

  pub expire-Tried :
      (st : RingState)
      → RingOk Raises c st
      → PosOk Raises c st p
      → Tried Raises c n p st (expire wrap n p st)
  unfolding expire
  expire-Tried st h at = expire_with-Tried st h at st.err
