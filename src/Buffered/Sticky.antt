-- ===== src/Buffered/Sticky.antt =====
-- src/buffered.rs: the ring of a worker that has died.
use oxideav_source.Prelude.{
  ℕ, ◌+◌, ◌-◌, ◌<◌, ◌≡◌, refl, sym, ap, ◌∙◌, subst, Bool, true, false, ◌&&◌, Option, none, some,
  arith, Bytes, length, u64_mod, add_u64, ltb, leb, ◌==◌, if-cases, Result, ok, err, IoError,
}
use oxideav_source.Source.{SeekFrom, Source, IsSource}
use oxideav_source.Buffered.Ring.{RingState, surface_err}
use oxideav_source.Buffered.Reader.{
  Round, returns, attempt, expire, new_pos, miss, miss_with, round, go_round, rounds, reposition,
  seek_to,
}
use oxideav_source.Buffered.Worker.{
  Phase, head, asleep, exited, seeking, seek_failed, reading, depositing,
}
use oxideav_source.Buffered.System.{
  Reader, idle, System, Choice, call_read, go_on, time_out, call_seek, call_drop, work, wake, IsU64,
  wake_worker, Next, after_rounds, read, seek_at, seek, drop_source, work_from, unseen, wakes,
  by_reader, step, takes, Reach, at_once, later, reads,
}
use oxideav_source.Buffered.Invariant.{Drained}
use oxideav_source.Buffered.Attempts.{Tried, replied, slept, attempt-Tried, expire-Tried}
use oxideav_source.Buffered.Reasons.{Sleeping, Alive}
use oxideav_source.Buffered.Contract.{SystemOk}
use oxideav_source.Buffered.Seeking.{kept_error}
use oxideav_source.Buffered.Cases.{by_reader_cases}
use oxideav_source.Buffered.Steps.{held_positive}
use oxideav_source.Buffered.Reachable.{Reach-SystemOk}

-- The worker has died of `e`.
pub record DeadOf (e : IoError) (st : RingState) : Type 0 where
  pub dead : st.worker_dead ≡ true
  pub recorded : st.err ≡ some e

DeadOf-Drained : (e : IoError) (st st' : RingState) → Drained st st' → DeadOf e st → DeadOf e st'
DeadOf-Drained e st st' d h = record {
  dead = d.same_dead ∙ h.dead;
  recorded = d.same_err ∙ h.recorded;
}

DeadOf-seek_to : (e : IoError) (q : ℕ) (st : RingState) → DeadOf e st → DeadOf e (seek_to q st).0
unfolding seek_to reposition
DeadOf-seek_to e q st h =
    if-cases (λ (m : RingState × Bool). DeadOf e m.0)
      (leb st.ring_start q && leb q (add_u64 st.ring_start (length st.buf))) (λ _. h)
      (λ _. record {
        dead = h.dead;
        recorded = kept_error st.worker_dead st.err h.dead ∙ h.recorded;
      })

module _ {S : Type 0} (Serves : S → Bytes → ℕ → Type 0) (Raises : IoError → Type 0) (c : Bytes)
    (short : length c < u64_mod) (e : IoError) where
  abbrev Dead : Next S → Type 0
  Dead none = Unit
  Dead (some (_, t)) = DeadOf e t.ring

  module _ (s : System S) (k : SystemOk Serves Raises c s) (h : DeadOf e s.ring) where
    after_rounds-Dead :
        (n : ℕ) (o : Option Round) → Tried Raises c n s.pos s.ring o → Dead (after_rounds n s o)
    unfolding after_rounds
    after_rounds-Dead n _ (replied r q st b x ring at d t) = DeadOf-Drained e s.ring st d h
    after_rounds-Dead n _ (slept st b x ring at edge d t) = DeadOf-Drained e s.ring st d h

    resume-Dead : (n wrap : ℕ) → 0 < n → Dead (after_rounds n s (attempt wrap n s.pos s.ring))
    resume-Dead n wrap positive =
        after_rounds-Dead n (attempt wrap n s.pos s.ring)
          (attempt-Tried Raises c short wrap n positive s.pos s.ring k.ring k.at)

    expired-Dead : (n wrap : ℕ) → 0 < n → Dead (after_rounds n s (expire wrap n s.pos s.ring))
    expired-Dead n wrap positive =
        after_rounds-Dead n (expire wrap n s.pos s.ring)
          (expire-Tried Raises c short wrap n positive s.pos s.ring k.ring k.at)

    read-Dead : (n wrap : ℕ) → Dead (read n wrap s)
    unfolding read
    read-Dead n wrap =
        if-cases Dead (n == 0) (λ _. h) (λ some_room. resume-Dead n wrap (ground arith))

    seek_at-Dead : (from : SeekFrom) (r : Result IoError ℕ) → Dead (some (seek_at from r s))
    unfolding seek_at
    seek_at-Dead from (err x) = h
    seek_at-Dead from (ok q) = DeadOf-seek_to e q s.ring h

    by_reader-Dead : (src : Source S) (ch : Choice) → IsU64 ch → Dead (by_reader src s.reader ch s)
    unfolding seek drop_source
    by_reader-Dead src =
        by_reader_cases src s Dead tt (λ n wrap _. read-Dead n wrap)
          (λ from _ _. seek_at-Dead from (new_pos s.ring s.pos from))
          (record { dead = h.dead; recorded = h.recorded })
          (λ n wrap x. resume-Dead n wrap (held_positive Serves Raises c short s k n x))
          (λ n wrap x. expired-Dead n wrap (held_positive Serves Raises c short s k n x))

    work-Dead :
        (src : Source S) (w : Phase)
        → Sleeping s.ring w
        → Alive s.ring w
        → Dead (unseen src (work_from src w s))
    unfolding work_from
    work-Dead src asleep z a = tt
    work-Dead src exited z a = tt
    work-Dead src head z a = let dead = h.dead in absurd (cc)
    work-Dead src (seeking _) z a = let dead = h.dead in absurd (cc)
    work-Dead src (seek_failed _) z a = let dead = h.dead in absurd (cc)
    work-Dead src (reading _) z a = let dead = h.dead in absurd (cc)
    work-Dead src (depositing _) z a = let dead = h.dead in absurd (cc)

    wakes-Dead : (src : Source S) (w : Phase) → Dead (wakes src w s)
    wakes-Dead src asleep = h
    wakes-Dead src head = tt
    wakes-Dead src exited = tt
    wakes-Dead src (seeking _) = tt
    wakes-Dead src (seek_failed _) = tt
    wakes-Dead src (reading _) = tt
    wakes-Dead src (depositing _) = tt

    step-Dead : (src : Source S) (ch : Choice) → IsU64 ch → Dead (step src ch s)
    unfolding step
    step-Dead src work x = work-Dead src s.worker k.sleep k.alive
    step-Dead src wake x = wakes-Dead src s.worker
    step-Dead src (call_read n wrap) x = by_reader-Dead src (call_read n wrap) x
    step-Dead src (go_on wrap) x = by_reader-Dead src (go_on wrap) x
    step-Dead src (time_out wrap) x = by_reader-Dead src (time_out wrap) x
    step-Dead src (call_seek from) x = by_reader-Dead src (call_seek from) x
    step-Dead src call_drop x = by_reader-Dead src call_drop x

  module _ (src : Source S) (law : IsSource src Serves Raises) where
    Reach-DeadOf :
        (s t : System S)
        → SystemOk Serves Raises c s
        → DeadOf e s.ring
        → Reach src s t
        → DeadOf e t.ring
    Reach-DeadOf s _ k h at_once = h
    Reach-DeadOf s _ k h (later {t = t} r (takes ch small same)) = subst Dead same (
        step-Dead t (Reach-SystemOk src Serves Raises law c short s t k r) (Reach-DeadOf s t k h r)
          src ch small)

wake_worker-false : (w : Phase) → wake_worker false w ≡ w
wake_worker-false asleep = refl
wake_worker-false exited = refl
wake_worker-false head = refl
wake_worker-false (seeking _) = refl
wake_worker-false (seek_failed _) = refl
wake_worker-false (reading _) = refl
wake_worker-false (depositing _) = refl

round_edge :
    (wrap n p : ℕ) (st : RingState) (o : Option IoError)
    → p ≡ st.ring_start + length st.buf
    → st.err ≡ o
    → round wrap n p st ≡ miss_with o p st
unfolding round miss surface_err
round_edge wrap n p st o edge known =
    if-cases P (ltb p st.ring_start) (λ below. absurd (ground arith))
      (λ _.
        if-cases P (ltb (p - st.ring_start) (length st.buf)) (λ inside. absurd (ground arith))
          (λ _. ap (λ o. miss_with o p st) known))
  where
    P : Round → Type 0
    P r = r ≡ miss_with o p st

module _ {S : Type 0} (src : Source S) (e : IoError) (s : System S) where
  after_rounds-same :
      (n : ℕ)
      → s.reader ≡ idle
      → after_rounds n s (some (returns (err e) s.pos s.ring false)) ≡ some (reads n (err e), s)
  unfolding after_rounds
  after_rounds-same n here =
      ap (λ (x : Reader × Phase). some (reads n (err e), record s { reader = x.0; worker = x.1 }))
        (ap (λ (r : Reader). (r, wake_worker false s.worker)) (sym here)
          ∙ ap (λ (w : Phase). (s.reader, w)) (wake_worker-false s.worker))

  edge_read :
      (n wrap : ℕ)
      → 0 < n
      → s.reader ≡ idle
      → DeadOf e s.ring
      → s.pos ≡ s.ring.ring_start + length s.ring.buf
      → step src (call_read n wrap) s ≡ some (reads n (err e), s)
  unfolding step read rounds miss_with
  edge_read n wrap positive here h edge =
      ap (λ r. by_reader src r (call_read n wrap) s) here
      ∙ if-cases (λ x. x ≡ some (reads n (err e), s)) (n == 0) (λ none_asked. absurd (ground arith))
          (λ _.
            ap (λ r. after_rounds n s (go_round (rounds 1 wrap n s.pos) r))
              (round_edge wrap n s.pos s.ring (some e) edge h.recorded)
            ∙ after_rounds-same n here)

module _ {S : Type 0} (src : Source S) (Serves : S → Bytes → ℕ → Type 0) (Raises : IoError → Type 0)
    (law : IsSource src Serves Raises) (c : Bytes) (short : length c < u64_mod) (e : IoError) where
  -- Let the inner source keep the promise of `BytesSource` for a content `c` of less than 2 ^ 64
  -- bytes. Once the worker has died of an error in a state in the invariants, whatever steps
  -- follow, seeks included, a read into a non-empty buffer at the end of the ring returns that
  -- error at once and changes nothing.
  pub dead_read :
      (s t : System S) (n wrap : ℕ)
      → SystemOk Serves Raises c s
      → DeadOf e s.ring
      → Reach src s t
      → t.reader ≡ idle
      → t.pos ≡ t.ring.ring_start + length t.ring.buf
      → 0 < n
      → step src (call_read n wrap) t ≡ some (reads n (err e), t)
  dead_read s t n wrap k h r here edge positive =
      edge_read src e t n wrap positive here
        (Reach-DeadOf Serves Raises c short e src law s t k h r) edge
