-- ===== src/Buffered/Steps.antt =====
-- src/buffered.rs: the steps of the two threads and the invariants.
use oxideav_source.Prelude.{
  ℕ, ◌+◌, ◌<◌, ◌≡◌, refl, ap, ◌∙◌, subst, inl, inr, Bool, true, false, Option, some, arith, Bytes,
  length, u64_mod, ◌==◌, if-cases, IoError,
}
use oxideav_source.Source.{Source}
use oxideav_source.Buffered.Ring.{RingState}
use oxideav_source.Buffered.Reader.{Round, attempt, expire}
use oxideav_source.Buffered.Worker.{
  Phase, head, asleep, exited, seeking, seek_failed, reading, depositing,
}
use oxideav_source.Buffered.System.{
  System, Choice, wake_worker, IsU64, Next, after_rounds, read, drop_source, wakes, by_reader,
}
use oxideav_source.Buffered.Invariant.{Drained}
use oxideav_source.Buffered.Attempts.{Tried, replied, slept, attempt-Tried, expire-Tried}
use oxideav_source.Buffered.Working.{aim, Working-asked, Working-wake, WorkerOk, WorkerOk-Drained}
use oxideav_source.Buffered.Reasons.{Sleeping-Drained, Sleeping-told, Waiting, Alive}
use oxideav_source.Buffered.Contract.{
  is_dropped, silent, dropping, empty_buffer, answered, SystemOk, Stepped, Alive-wake, Alive-same,
}
use oxideav_source.Buffered.Seeking.{seek-Stepped}
use oxideav_source.Buffered.Cases.{InRead, by_reader_cases}

module _ {S : Type 0} (Serves : S → Bytes → ℕ → Type 0) (Raises : IoError → Type 0) (c : Bytes)
    (short : length c < u64_mod) (s : System S) (k : SystemOk Serves Raises c s) where
  abbrev P : Next S → Type 0
  P = Stepped Serves Raises c s.pos

  wake-WorkerOk :
      (st : RingState) (b : Bool)
      → Drained s.ring st
      → WorkerOk Serves Raises c st s.inner (wake_worker b s.worker)
  wake-WorkerOk st b d =
      Working-wake Serves Raises c (aim st.stop st.target_pos) (st.ring_start + length st.buf)
        (length st.buf) st.capacity s.inner s.worker b
        (WorkerOk-Drained Serves Raises c s.ring st s.inner s.worker d k.work)

  after_rounds-Stepped :
      (n : ℕ) (o : Option Round)
      → 0 < n
      → is_dropped s.reader ≡ false
      → Tried Raises c n s.pos s.ring o
      → P (after_rounds n s o)
  unfolding after_rounds
  after_rounds-Stepped n _ positive there (replied r q st b x h at d t) = (
    record {
      ring = h;
      at = at;
      work = wake-WorkerOk st b d;
      sleep = Sleeping-Drained s.ring st s.worker b d t k.sleep;
      wait = tt;
      alive = Alive-wake st s.worker b (Alive-same s.ring st s.worker d.same_dead k.alive);
      stopped = d.same_stop ∙ k.stopped ∙ there;
    },
    answered n q r x,
  )
  after_rounds-Stepped n _ positive there (slept st b x h at edge d t) = (
    record {
      ring = h;
      at = at;
      work = wake-WorkerOk st b d;
      sleep = Sleeping-Drained s.ring st s.worker b d t k.sleep;
      wait = (x, positive);
      alive = Alive-wake st s.worker b (Alive-same s.ring st s.worker d.same_dead k.alive);
      stopped = d.same_stop ∙ k.stopped ∙ there;
    },
    silent,
  )

  resume-Stepped :
      (n wrap : ℕ)
      → 0 < n
      → is_dropped s.reader ≡ false
      → P (after_rounds n s (attempt wrap n s.pos s.ring))
  resume-Stepped n wrap positive there =
      after_rounds-Stepped n (attempt wrap n s.pos s.ring) positive there
        (attempt-Tried Raises c short wrap n positive s.pos s.ring k.ring k.at)

  expired-Stepped :
      (n wrap : ℕ)
      → 0 < n
      → is_dropped s.reader ≡ false
      → P (after_rounds n s (expire wrap n s.pos s.ring))
  expired-Stepped n wrap positive there =
      after_rounds-Stepped n (expire wrap n s.pos s.ring) positive there
        (expire-Tried Raises c short wrap n positive s.pos s.ring k.ring k.at)

  read-Stepped : (n wrap : ℕ) → is_dropped s.reader ≡ false → P (read n wrap s)
  unfolding read
  read-Stepped n wrap there =
      if-cases P (n == 0) (λ _. (k, empty_buffer))
        (λ some_room. resume-Stepped n wrap (ground arith) there)

  drop_source-Stepped : P (some (drop_source s))
  unfolding drop_source
  drop_source-Stepped =
      let st : RingState = record s.ring { stop = true } in
      let h = k.ring in
      (
        record {
          ring = record {
            total = h.total;
            window = h.window;
            bounded = h.bounded;
            room = h.room;
            block = h.block;
            fraction = h.fraction;
            start_fits = h.start_fits;
            ended = h.ended;
            failed = h.failed;
            dead = h.dead;
            asked = h.asked;
          };
          at = record { lower = k.at.lower; upper = k.at.upper; fits = k.at.fits };
          work =
              Working-wake Serves Raises c (some 0) (st.ring_start + length st.buf) (length st.buf)
                st.capacity s.inner s.worker true
                (Working-asked Serves Raises c (aim s.ring.stop s.ring.target_pos) 0
                  (st.ring_start + length st.buf) (length st.buf) st.capacity
                  (st.ring_start + length st.buf) (length st.buf) st.capacity s.inner s.worker
                  k.work);
          sleep = Sleeping-told s.ring st s.worker (λ _. inr refl) k.sleep;
          wait = tt;
          alive = Alive-wake st s.worker true (Alive-same s.ring st s.worker refl k.alive);
          stopped = refl;
        },
        dropping,
      )

  pub held_positive : (n : ℕ) → InRead n s → 0 < n
  held_positive n (inl e) = (subst (Waiting s.ring) e k.wait).1
  held_positive n (inr e) = subst (Waiting s.ring) e k.wait

  held_there : (n : ℕ) → InRead n s → is_dropped s.reader ≡ false
  held_there n (inl e) = ap is_dropped e
  held_there n (inr e) = ap is_dropped e

  pub by_reader-Stepped :
      (src : Source S) (ch : Choice) → IsU64 ch → P (by_reader src s.reader ch s)
  by_reader-Stepped src =
      by_reader_cases src s P tt (λ n wrap e. read-Stepped n wrap (ap is_dropped e))
        (λ from e h. seek-Stepped Serves Raises c short from s k e h) drop_source-Stepped
        (λ n wrap h. resume-Stepped n wrap (held_positive n h) (held_there n h))
        (λ n wrap h. expired-Stepped n wrap (held_positive n h) (held_there n h))

  pub wakes-Stepped : (src : Source S) (w : Phase) → s.worker ≡ w → P (wakes src w s)
  wakes-Stepped src asleep e = (
    record {
      ring = k.ring;
      at = k.at;
      work = subst (WorkerOk Serves Raises c s.ring s.inner) e k.work;
      sleep = tt;
      wait = k.wait;
      alive = subst (Alive s.ring) e k.alive;
      stopped = k.stopped;
    },
    silent,
  )
  wakes-Stepped src head e = tt
  wakes-Stepped src exited e = tt
  wakes-Stepped src (seeking _) e = tt
  wakes-Stepped src (seek_failed _) e = tt
  wakes-Stepped src (reading _) e = tt
  wakes-Stepped src (depositing _) e = tt
