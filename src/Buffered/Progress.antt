-- ===== src/Buffered/Progress.antt =====
-- src/buffered.rs, `worker_loop`: runs of the worker alone, and its phases on a known ring.
use oxideav_source.Prelude.{
  ℕ, suc, ◌-◌, ◌≤◌, min, ◌≡◌, refl, sym, ap, ◌∙◌, subst, inl, inr, Bool, true, false, ◌||◌, Option,
  none, some, arith, Bytes, length, ◌==◌, if-cases, Bool-cases, Result, IoError,
}
use oxideav_source.Source.{Source}
use oxideav_source.Buffered.Ring.{RingState}
use oxideav_source.Buffered.Worker.{
  Phase, head, exited, reading, Move, is_some, phase1_with, phase1, deposit, phase3,
}
use oxideav_source.Buffered.System.{Reader, woken, System, moves, work_from}
use oxideav_source.Buffered.Rounds.{Starved}

abbrev pub is_woken : Reader → Bool
is_woken (woken n) = true
is_woken _ = false

module _ {S : Type 0} (src : Source S) where
  -- The worker can make steps on its own that lead, in at most `k` of them, to a state of `Goal`,
  -- with the reader not woken before it.
  pub data Within (Goal : System S → Type 0) : ℕ → System S → Type 0 where
    now : (k : ℕ) (s : System S) → Goal s → Within Goal k s
    next :
        (k : ℕ) (s t : System S)
        → is_woken s.reader ≡ false
        → work_from src s.worker s ≡ some t
        → Within Goal k t
        → Within Goal (suc k) s

  pub Within-more :
      (Goal : System S → Type 0) (k : ℕ) (s : System S) → Within Goal k s → Within Goal (suc k) s
  Within-more Goal _ _ (now k s g) = now (suc k) s g
  Within-more Goal _ _ (next k s t r e h) = next (suc k) s t r e (Within-more Goal k t h)

  module _ (Goal : System S → Type 0) (s : System S) (r : is_woken s.reader ≡ false) where
    pub in_phase :
        (k : ℕ) (w : Phase) (t : System S)
        → s.worker ≡ w
        → work_from src w s ≡ some t
        → Within Goal k t
        → Within Goal (suc k) s
    in_phase k w t at e h = next k s t r (ap (λ w. work_from src w s) at ∙ e) h

    -- A step under the lock that is known.
    pub moved_on :
        (k : ℕ) (w : Phase) (m m' : Move)
        → s.worker ≡ w
        → work_from src w s ≡ some (moves m s)
        → m ≡ m'
        → Within Goal k (moves m' s)
        → Within Goal (suc k) s
    moved_on k w m m' at e same h =
        in_phase k w (moves m s) at e (subst (λ m. Within Goal k (moves m s)) (sym same) h)

pub phase1_stop : (st : RingState) → st.stop ≡ true → phase1 st ≡ (st, exited, false)
unfolding phase1
phase1_stop st h = if-cases (λ m. m ≡ (st, exited, false)) st.stop (λ _. refl) (λ e. absurd (cc))

pub phase1_on :
    (st : RingState) (o : Option ℕ)
    → st.stop ≡ false
    → st.target_pos ≡ o
    → phase1 st ≡ phase1_with o st
unfolding phase1
phase1_on st o h k =
    if-cases (λ m. m ≡ phase1_with o st) st.stop (λ e. absurd (cc))
      (λ _. ap (λ o. phase1_with o st) k)

pub phase1-Starved :
    (st : RingState)
    → Starved st
    → length st.buf ≤ st.capacity
    → phase1_with none st ≡ (st, reading (min (st.capacity - length st.buf) st.block_size), false)
unfolding phase1_with
phase1-Starved st h le =
    if-cases (λ m. m ≡ (st, reading (min (st.capacity - length st.buf) st.block_size), false))
      (st.eof || (st.capacity - length st.buf == 0))
      (λ e.
        absurd (elim (Bool-cases st.eof) [ inl f ↦ cc | inr f ↦ h.not_full (ground (arith, le)) ]))
      (λ _. refl)

pub phase3_drop :
    (f : Result IoError Bytes) (st : RingState)
    → (is_some st.target_pos || st.stop) ≡ true
    → phase3 f st ≡ (st, head, false)
unfolding phase3
phase3_drop f st h =
    if-cases (λ m. m ≡ (st, head, false)) (is_some st.target_pos || st.stop) (λ _. refl)
      (λ e. absurd (cc))

pub phase3_keep :
    (f : Result IoError Bytes) (st : RingState)
    → (is_some st.target_pos || st.stop) ≡ false
    → phase3 f st ≡ deposit f st
unfolding phase3
phase3_keep f st h =
    if-cases (λ m. m ≡ deposit f st) (is_some st.target_pos || st.stop) (λ e. absurd (cc))
      (λ _. refl)
