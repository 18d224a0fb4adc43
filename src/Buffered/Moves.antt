-- ===== src/Buffered/Moves.antt =====
-- src/buffered.rs, `worker_loop`: the phases under the lock and the invariants.
use oxideav_source.Prelude.{
  ℕ, ◌+◌, ◌-◌, min, ◌≡◌, refl, sym, ap, subst, inl, inr, true, false, ◌||◌, [], ◌∷◌, ◌++◌, Option,
  none, some, arith, Bytes, length, length-append, ◌==◌, Bool-cases, if-cases, Result, ok, err,
  IoError,
}
use oxideav_source.Buffered.Ring.{RingState}
use oxideav_source.Buffered.Worker.{
  Phase, head, asleep, exited, seeking, reading, depositing, Move, take_target, phase1_with, phase1,
  fatal, deposit, phase3, is_some, is_interrupted,
}
use oxideav_source.Buffered.System.{Reader, wake_reader}
use oxideav_source.Buffered.Invariant.{Asked, RingOk, PosOk, append-window, past_end-le}
use oxideav_source.Buffered.Working.{
  aim, Somewhere, At, Landed, Working, WorkerOk, WorkerOk-free, free-WorkerOk, WorkerOk-dropped,
  kept-free,
}
use oxideav_source.Buffered.Reasons.{Sleeping, Waiting, Waiting-told, Waiting-untold, Alive}

module _ {S : Type 0} (Serves : S → Bytes → ℕ → Type 0) (Raises : IoError → Type 0) (c : Bytes)
    (p : ℕ) (inner : S) (r : Reader) (st : RingState) where
  -- The invariants behind a move, for a reader at `p`.
  pub record MoveOk (m : Move) : Type 0 where
    pub ring : RingOk Raises c m.0
    pub at : PosOk Raises c m.0 p
    pub work : WorkerOk Serves Raises c m.0 inner m.1
    pub sleep : Sleeping m.0 m.1
    pub wait : Waiting m.0 (wake_reader m.2 r)
    pub alive : Alive m.0 m.1
    pub same_stop : m.0.stop ≡ st.stop

  module _ (h : RingOk Raises c st) (at : PosOk Raises c st p) (waits : Waiting st r) where
    pub fatal-MoveOk : (e : IoError) → Raises e → MoveOk (fatal e st)
    unfolding fatal
    fatal-MoveOk e x = record {
      ring = record {
        total = h.total;
        window = h.window;
        bounded = h.bounded;
        room = h.room;
        block = h.block;
        fraction = h.fraction;
        start_fits = h.start_fits;
        ended = h.ended;
        failed = x;
        dead = λ _. cc;
        asked = h.asked;
      };
      at = record { lower = at.lower; upper = at.upper; fits = at.fits };
      work = tt;
      sleep = inl refl;
      wait = Waiting-told st (record st { err = some e; worker_dead = true }) r waits;
      alive = tt;
      same_stop = refl;
    }

    -- The ring as it is, with the reader not told.
    same-MoveOk :
        (w : Phase)
        → WorkerOk Serves Raises c st inner w
        → Sleeping st w
        → Alive st w
        → MoveOk (st, w, false)
    same-MoveOk w k s a = record {
      ring = h;
      at = at;
      work = k;
      sleep = s;
      wait = Waiting-untold st r waits;
      alive = a;
      same_stop = refl;
    }

    module _ (alive : st.worker_dead ≡ false) where
      sought-MoveOk :
          (t : ℕ)
          → st.target_pos ≡ some t
          → st.stop ≡ false
          → Somewhere Serves Raises c inner
          → MoveOk (take_target t st, seeking t, true)
      unfolding take_target
      sought-MoveOk t asked stopless somewhere =
          let (empty, same) = subst (λ o. Asked o st.buf st.ring_start) asked h.asked in
          let no_bytes = ap length empty in
          record {
            ring = record {
              total = h.total;
              window = refl;
              bounded = omega arith;
              room = h.room;
              block = h.block;
              fraction = h.fraction;
              start_fits = omega (arith, h.start_fits, same);
              ended = λ e. omega (arith, past_end-le st.total_len (length c) t h.total e);
              failed = tt;
              dead = λ d. absurd (cc);
              asked = tt;
            };
            at = omega (arith, at.lower, at.upper, at.fits, same, no_bytes);
            work =
                subst
                  (λ b.
                    Working Serves Raises c (aim b none) (t + 0) 0 st.capacity inner (seeking t))
                  (sym stopless) (somewhere, omega arith, omega (arith, h.start_fits, same));
            sleep = tt;
            wait = Waiting-told st (take_target t st) r waits;
            alive = alive;
            same_stop = refl;
          }

      phase1_with-MoveOk :
          (o : Option ℕ)
          → st.target_pos ≡ o
          → st.stop ≡ false
          → At Serves Raises c o (st.ring_start + length st.buf) inner
          → MoveOk (phase1_with o st)
      unfolding phase1_with
      phase1_with-MoveOk (some t) asked stopless somewhere =
          sought-MoveOk t asked stopless somewhere
      phase1_with-MoveOk none free stopless there =
          let working = λ (w : Phase). WorkerOk-free Serves Raises c st inner w free stopless in
          if-cases MoveOk (st.eof || (st.capacity - length st.buf == 0))
            (λ no_work.
              same-MoveOk asleep (working asleep there)
                (
                  free,
                  stopless,
                  elim (Bool-cases st.eof) [
                    | inl e ↦ inl e
                    | inr e ↦ inr (ground (arith, h.bounded))
                  ],
                )
                alive)
            (λ more.
              same-MoveOk (reading (min (st.capacity - length st.buf) st.block_size))
                (working (reading (min (st.capacity - length st.buf) st.block_size))
                  (there, ground (arith, h.block), ground arith))
                tt alive)

      pub phase1-MoveOk : WorkerOk Serves Raises c st inner head → MoveOk (phase1 st)
      unfolding phase1
      phase1-MoveOk k =
          if-cases MoveOk st.stop (λ stopped. same-MoveOk exited tt (inr stopped) tt)
            (λ stopless. phase1_with-MoveOk st.target_pos refl stopless (
              subst
                (λ b.
                  At Serves Raises c (aim b st.target_pos) (st.ring_start + length st.buf) inner)
                stopless k))

      deposit-MoveOk :
          (f : Result IoError Bytes)
          → st.target_pos ≡ none
          → st.stop ≡ false
          → Landed Serves Raises c
              (st.ring_start + length st.buf)
              (length st.buf)
              st.capacity
              inner
              f
          → MoveOk (deposit f st)
      unfolding deposit
      deposit-MoveOk (ok []) free stopless (_, _, over, there) = record {
        ring = record {
          total = h.total;
          window = h.window;
          bounded = h.bounded;
          room = h.room;
          block = h.block;
          fraction = h.fraction;
          start_fits = h.start_fits;
          ended = λ _. over refl;
          failed = h.failed;
          dead = h.dead;
          asked = h.asked;
        };
        at = record { lower = at.lower; upper = at.upper; fits = at.fits };
        work =
            WorkerOk-free Serves Raises c (record st { eof = true }) inner head free stopless
              (subst (Serves inner c) (omega arith) there);
        sleep = tt;
        wait = Waiting-told st (record st { eof = true }) r waits;
        alive = alive;
        same_stop = refl;
      }
      deposit-MoveOk (ok (b ∷ s)) free stopless (bytes, room, over, there) =
          let longer = length-append st.buf (b ∷ s) in
          record {
            ring = record {
              total = h.total;
              window = append-window st.buf (b ∷ s) c st.ring_start h.window bytes;
              bounded = omega (arith, room, longer);
              room = h.room;
              block = h.block;
              fraction = h.fraction;
              start_fits = h.start_fits;
              ended = λ e. omega (arith, h.ended e, longer);
              failed = h.failed;
              dead = h.dead;
              asked = subst (λ o. Asked o (st.buf ++ (b ∷ s)) st.ring_start) (sym free) tt;
            };
            at = omega (arith, at.lower, at.upper, at.fits, longer);
            work =
                WorkerOk-free Serves Raises c (record st { buf = st.buf ++ (b ∷ s) }) inner head
                  free stopless (subst (Serves inner c) (omega (arith, longer)) there);
            sleep = tt;
            wait = Waiting-told st (record st { buf = st.buf ++ (b ∷ s) }) r waits;
            alive = alive;
            same_stop = refl;
          }
      deposit-MoveOk (err e) free stopless (raised, there) =
          if-cases MoveOk (is_interrupted e.kind)
            (λ _.
              same-MoveOk head (WorkerOk-free Serves Raises c st inner head free stopless there) tt
                alive)
            (λ _. fatal-MoveOk e raised)

      pub phase3-MoveOk :
          (f : Result IoError Bytes)
          → WorkerOk Serves Raises c st inner (depositing f)
          → MoveOk (phase3 f st)
      unfolding phase3
      phase3-MoveOk f k =
          if-cases MoveOk (is_some st.target_pos || st.stop)
            (λ drop_it.
              same-MoveOk head (WorkerOk-dropped Serves Raises c st inner f drop_it k) tt alive)
            (λ keep_it.
              let (free, stopless) = kept-free st.stop st.target_pos keep_it in
              deposit-MoveOk f free stopless
                (free-WorkerOk Serves Raises c st inner (depositing f) free stopless k))
