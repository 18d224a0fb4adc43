-- ===== src/Buffered/Reachable.antt =====
-- src/buffered.rs: the runs of the two threads from `build` on.
use oxideav_source.Prelude.{
  ◌==◌, ℕ, ◌*◌, ◌%◌, ◌≤◌, ◌<◌, max, ◌≡◌, refl, sym, subst, true, some, arith, Bytes, length,
  u64_mod, Result, ok, err, IoError,
}
use oxideav_source.Source.{
  pos, start, from_end, current, target, offset_by, checked_add, and_then, return, Source, Seeks,
  moved, refused, broken, IsSource,
}
use oxideav_source.Buffered.Builder.{
  BufferedSourceBuilder, BufferedSource, built, build, len, is_empty, is_at,
}
use oxideav_source.Buffered.System.{
  System, Event, Choice, call_read, go_on, time_out, call_seek, call_drop, work, wake, IsU64, step,
  Step, takes, Reach, at_once, later, spawn,
}
use oxideav_source.Buffered.Knobs.{sanitise_lookback-lt}
use oxideav_source.Buffered.Contract.{Behaves, SystemOk, Stepped}
use oxideav_source.Buffered.Steps.{by_reader-Stepped, wakes-Stepped}
use oxideav_source.Buffered.Serving.{work_from-Stepped}

module _ {S : Type 0} (src : Source S) (Serves : S → Bytes → ℕ → Type 0) (Raises : IoError → Type 0)
    (law : IsSource src Serves Raises) (c : Bytes) (short : length c < u64_mod) where
  pub step-Stepped :
      (s : System S) (ch : Choice)
      → SystemOk Serves Raises c s
      → IsU64 ch
      → Stepped Serves Raises c s.pos (step src ch s)
  unfolding step
  step-Stepped s work k h = work_from-Stepped Serves Raises c src law s k s.worker refl
  step-Stepped s wake k h = wakes-Stepped Serves Raises c short s k src s.worker refl
  step-Stepped s (call_read n wrap) k h =
      by_reader-Stepped Serves Raises c short s k src (call_read n wrap) h
  step-Stepped s (go_on wrap) k h = by_reader-Stepped Serves Raises c short s k src (go_on wrap) h
  step-Stepped s (time_out wrap) k h =
      by_reader-Stepped Serves Raises c short s k src (time_out wrap) h
  step-Stepped s (call_seek from) k h =
      by_reader-Stepped Serves Raises c short s k src (call_seek from) h
  step-Stepped s call_drop k h = by_reader-Stepped Serves Raises c short s k src call_drop h

  pub Step-Stepped :
      (s t : System S) (e : Event)
      → SystemOk Serves Raises c s
      → Step src s e t
      → SystemOk Serves Raises c t × Behaves Raises c s.pos e t.pos
  Step-Stepped s t e k (takes ch h same) =
      subst (Stepped Serves Raises c s.pos) same (step-Stepped s ch k h)

  -- Let the inner source keep the promise of `BytesSource` for a content `c` of less than 2 ^ 64
  -- bytes. Every interleaving of the reader's and the worker's steps keeps the invariants: the
  -- ring is a part of `c` of at most the capacity, the reader stands in it or at its end, the end-
  -- of-file flag is set only where the ring reaches the end of `c`, a recorded error is one of the
  -- device, a dead worker has recorded one and has returned, the worker sleeps only if the ring is
  -- full or ended and nothing is asked of it, the reader only if the ring is not full, not ended
  -- and without an error, and unless a position is asked for or the reader is dropped, the inner
  -- source stands where the ring ends when the worker reads.
  pub Reach-SystemOk :
      (s t : System S) → SystemOk Serves Raises c s → Reach src s t → SystemOk Serves Raises c t
  Reach-SystemOk s _ k at_once = k
  Reach-SystemOk s _ k (later {t = t} {u = u} {e = e} r x) =
      (Step-Stepped t u e (Reach-SystemOk s t k r) x).0

  -- Let the inner source keep the promise of `BytesSource` for a content `c` of less than 2 ^ 64
  -- bytes. From a state in the invariants, however the calls of the reader and the steps of the
  -- worker are interleaved, the next step looks to the caller like one of a plain reader of `c`: a
  -- read returns the next bytes, none only for an empty buffer or at the end of `c`, an error of
  -- the device or a timeout; a seek leads to its target, or is refused where there is none in a
  -- `u64`; and the position moves accordingly.
  pub Reach-Behaves :
      (s t u : System S) (e : Event)
      → SystemOk Serves Raises c s
      → Reach src s t
      → Step src t e u
      → Behaves Raises c t.pos e u.pos
  Reach-Behaves s t u e k r x = (Step-Stepped t u e (Reach-SystemOk s t k r) x).1

  -- What `build` gives: a source at the inner source's position, or an error of the device.
  pub data Built (p : ℕ) : Result IoError BufferedSource × S → Type 0 where
    running :
        (b : BufferedSource) (inner : S)
        → b.pos ≡ p
        → len b ≡ some (length c)
        → is_empty b ≡ (length c == 0)
        → SystemOk Serves Raises c (spawn b inner)
        → Built p (ok b, inner)
    lost : (e : IoError) (inner : S) → Raises e → Built p (err e, inner)

  module _ (b : BufferedSourceBuilder) (sane : 4 * b.block_size < u64_mod) (p : ℕ)
      (fits : p < u64_mod) where
    at_end-le : (n : ℕ) → is_at (some n) p ≡ true → n ≤ p
    at_end-le n e = ground arith

    clamped : 4 * max b.block_size (4 * 1024) % u64_mod ≡ 4 * max b.block_size (4 * 1024)
    clamped = omega (arith, sane)

    pub built-SystemOk :
        (inner : S)
        → Serves inner c p
        → SystemOk Serves Raises c (spawn (built b p (length c)) inner)
    unfolding built spawn
    built-SystemOk inner there = record {
      ring = record {
        total = refl;
        window = refl;
        bounded = omega arith;
        room = omega (arith, clamped);
        block = omega arith;
        fraction = sanitise_lookback-lt b.lookback_num b.lookback_den;
        start_fits = fits;
        ended = λ e. omega (arith, at_end-le (length c) e);
        failed = tt;
        dead = λ e. absurd (cc);
        asked = tt;
      };
      at = omega (arith, fits);
      work = subst (Serves inner c) (omega arith) there;
      sleep = tt;
      wait = tt;
      alive = refl;
      stopped = refl;
    }

    here_target : target (length c) p (current (pos 0)) ≡ some p
    unfolding target offset_by checked_add
    here_target = ground arith

    end_target : target (length c) p (from_end (pos 0)) ≡ some (length c)
    unfolding target offset_by checked_add
    end_target = ground arith

    back :
        (q : ℕ) (out : Result IoError ℕ × S)
        → Seeks Serves Raises c q (start p) out
        → Built p (and_then out (λ _. return (built b p (length c))))
    unfolding target
    back q _ (moved u s there h) =
        running (built b p (length c)) s (unfold built in refl) (unfold built len in refl)
          (unfold built len is_empty in refl)
          (built-SystemOk s (subst (Serves s c) (ground arith) h))
    back q _ (refused m s there h) = absurd (cc)
    back q _ (broken e s raised h) = lost e s raised

    at_end :
        (out : Result IoError ℕ × S)
        → Seeks Serves Raises c p (from_end (pos 0)) out
        → Built p
            (and_then out (λ end s. and_then (src.seek (start p) s) (λ _. return (built b p end))))
    at_end _ (moved q s there h) =
        let same : length c ≡ q = ground (arith, end_target) in
        subst (λ end. Built p (and_then (src.seek (start p) s) (λ _. return (built b p end)))) same
          (back q (src.seek (start p) s) (law.seeks s c q (start p) h))
    at_end _ (refused m s there h) = absurd (ground (arith, end_target))
    at_end _ (broken e s raised h) = lost e s raised

    at_start :
        (out : Result IoError ℕ × S)
        → Seeks Serves Raises c p (current (pos 0)) out
        → Built p (
            and_then out (λ p s.
              and_then
                (src.seek (from_end (pos 0)) s)
                (λ end s. and_then (src.seek (start p) s) (λ _. return (built b p end)))))
    at_start _ (moved q s there h) =
        let same : p ≡ q = ground (arith, here_target) in
        subst
          (λ q. Built p (
            and_then (src.seek (from_end (pos 0)) s)
              (λ end s. and_then (src.seek (start q) s) (λ _. return (built b q end)))))
          same
          (at_end (src.seek (from_end (pos 0)) s)
            (law.seeks s c p (from_end (pos 0)) (subst (Serves s c) (sym same) h)))
    at_start _ (refused m s there h) = absurd (ground (arith, here_target))
    at_start _ (broken e s raised h) = lost e s raised

    -- Let the inner source keep the promise of `BytesSource` for a content `c` of less than 2 ^ 64
    -- bytes. For a block size of less than 2 ^ 62 and an inner source that stands at `p` below 2 ^
    -- 64, `build` gives a reader at `p` whose two threads start in the invariants, whatever the
    -- other knobs are, and that knows the length of `c`; or an error of the device.
    pub build-Built : (inner : S) → Serves inner c p → Built p (build src b inner)
    unfolding build
    build-Built inner there =
        at_start (src.seek (current (pos 0)) inner) (law.seeks inner c p (current (pos 0)) there)
