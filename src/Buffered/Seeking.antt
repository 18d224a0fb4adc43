-- ===== src/Buffered/Seeking.antt =====
-- src/buffered.rs, `seek`: the position it computes, and the invariants.
use oxideav_source.Prelude.{
  ℕ, suc, ◌+◌, ◌<◌, ◌≡◌, refl, sym, ◌∙◌, subst, Bool, true, false, ◌&&◌, Option, none, some, arith,
  Bytes, String, length, u64_mod, add_u64, add_u64-eq-add, leb, if◌then◌else◌, if-cases, Result, ok,
  err, ok_or, IoError, ErrorKind, io_error,
}
use oxideav_source.Source.{
  ℤ, pos, negsuc, SeekFrom, start, from_end, current, checked_add, checked_sub, offset_by, target,
}
use oxideav_source.Buffered.Ring.{RingState}
use oxideav_source.Buffered.Reader.{add_signed, from_total, new_pos, reposition, seek_to}
use oxideav_source.Buffered.Worker.{Phase}
use oxideav_source.Buffered.System.{
  idle, System, call_seek, IsU64, wake_worker, wake_reader, seek_at, seek,
}
use oxideav_source.Buffered.Invariant.{ErrOk, RingOk, PosOk, Drained-refl, ring_end-lt, past_end-le}
use oxideav_source.Buffered.Working.{aim, Working-aimed, Working-wake, WorkerOk}
use oxideav_source.Buffered.Reasons.{Sleeping, Sleeping-Drained, Sleeping-told, Waiting, Alive}
use oxideav_source.Buffered.Contract.{
  SystemOk, Stepped, moved, refused, Alive-wake, Alive-same, is_dropped-wake_reader,
}

-- The position of a seek, or its refusal.
data Placed (len p : ℕ) (from : SeekFrom) : Result IoError ℕ → Type 0 where
  placed : (q : ℕ) → target len p from ≡ some q → q < u64_mod → Placed len p from (ok q)
  unplaced :
      (m : String)
      → target len p from ≡ none
      → Placed len p from (err (io_error ErrorKind.invalid_input m))

module _ (len p : ℕ) (from : SeekFrom) where
  or_else-Placed :
      (o : Option ℕ) (m : String)
      → target len p from ≡ o
      → ((q : ℕ) → o ≡ some q → q < u64_mod)
      → Placed len p from (ok_or o (io_error ErrorKind.invalid_input m))
  or_else-Placed none m e small = unplaced m e
  or_else-Placed (some q) m e small = placed q e (small q refl)

  add_signed-Placed :
      (base : ℕ) (d : ℤ)
      → base < u64_mod
      → target len p from ≡ offset_by base d
      → Placed len p from (add_signed base d)
  unfolding add_signed offset_by
  add_signed-Placed base (pos d) h e =
      or_else-Placed (checked_add base d) "seek overflow" e
        (λ q e. unfold checked_add in ground arith)
  add_signed-Placed base (negsuc d) h e =
      or_else-Placed (checked_sub base (suc d)) "seek before start" e
        (λ q e. unfold checked_sub in ground arith)

abbrev Fitting : SeekFrom → Type 0
Fitting from = IsU64 (call_seek from)

new_pos-Placed :
    (st : RingState) (len p : ℕ) (from : SeekFrom)
    → st.total_len ≡ some len
    → len < u64_mod
    → p < u64_mod
    → Fitting from
    → Placed len p from (new_pos st p from)
unfolding new_pos target
new_pos-Placed st len p (start n) known small fits h = placed n refl h
new_pos-Placed st len p (current d) known small fits h =
    add_signed-Placed len p (current d) p d fits refl
new_pos-Placed st len p (from_end d) known small fits h =
    subst (λ o. Placed len p (from_end d) (from_total o d)) (sym known)
      (add_signed-Placed len p (from_end d) len d small refl)

pub kept_error : (b : Bool) (o : Option IoError) → b ≡ true → (if b then o else none) ≡ o
kept_error true o h = refl
kept_error false o h = absurd (cc)

module _ {S : Type 0} (Serves : S → Bytes → ℕ → Type 0) (Raises : IoError → Type 0) (c : Bytes)
    (short : length c < u64_mod) (q : ℕ) (inner : S) (w : Phase) (st : RingState) where
  -- The invariants behind a change of the position to `q`.
  record SoughtOk (m : RingState × Bool) : Type 0 where
    ring : RingOk Raises c m.0
    at : PosOk Raises c m.0 q
    work : WorkerOk Serves Raises c m.0 inner (wake_worker m.1 w)
    sleep : Sleeping m.0 (wake_worker m.1 w)
    alive : Alive m.0 (wake_worker m.1 w)
    same_stop : m.0.stop ≡ st.stop

  module _ (fits : q < u64_mod) (h : RingOk Raises c st) (k : WorkerOk Serves Raises c st inner w)
      (sleep : Sleeping st w) (alive : Alive st w) where
    reposition-SoughtOk : SoughtOk (reposition q st, true)
    unfolding reposition
    reposition-SoughtOk = record {
      ring = record {
        total = h.total;
        window = refl;
        bounded = omega arith;
        room = h.room;
        block = h.block;
        fraction = h.fraction;
        start_fits = fits;
        ended = λ e. omega (arith, past_end-le st.total_len (length c) q h.total e);
        failed = if-cases (ErrOk Raises) st.worker_dead (λ _. h.failed) (λ _. tt);
        dead = λ d e. h.dead d (sym (kept_error st.worker_dead st.err d) ∙ e);
        asked = (refl, refl);
      };
      at = omega (arith, fits);
      work =
          Working-wake Serves Raises c (aim st.stop (some q)) (q + 0) 0 st.capacity inner w true (
            Working-aimed Serves Raises c st.stop (aim st.stop st.target_pos) q
              (st.ring_start + length st.buf) (length st.buf) st.capacity (q + 0) 0 st.capacity
              inner w k);
      sleep = Sleeping-told st (reposition q st) w (λ r. r) sleep;
      alive = Alive-wake (reposition q st) w true (Alive-same st (reposition q st) w refl alive);
      same_stop = refl;
    }

    seek_to-SoughtOk : SoughtOk (seek_to q st)
    unfolding seek_to
    seek_to-SoughtOk =
        let no_wrap =
          add_u64-eq-add st.ring_start (length st.buf)
            (omega (arith, ring_end-lt Raises c short st h)) in
        if-cases SoughtOk (leb st.ring_start q && leb q (add_u64 st.ring_start (length st.buf)))
          (λ inside. record {
            ring = h;
            at = ground (arith, fits, no_wrap);
            work =
                Working-wake Serves Raises c (aim st.stop st.target_pos)
                  (st.ring_start + length st.buf) (length st.buf) st.capacity inner w false k;
            sleep = Sleeping-Drained st st w false (Drained-refl st) refl sleep;
            alive = Alive-wake st w false alive;
            same_stop = refl;
          })
          (λ _. reposition-SoughtOk)

module _ {S : Type 0} (Serves : S → Bytes → ℕ → Type 0) (Raises : IoError → Type 0) (c : Bytes)
    (short : length c < u64_mod) where
  seek_at-Stepped :
      (from : SeekFrom) (r : Result IoError ℕ) (s : System S)
      → SystemOk Serves Raises c s
      → s.reader ≡ idle
      → Placed (length c) s.pos from r
      → Stepped Serves Raises c s.pos (some (seek_at from r s))
  unfolding seek_at
  seek_at-Stepped from _ s k e (unplaced m t) = (k, refused from m t)
  seek_at-Stepped from _ s k e (placed q t fits) =
      let x =
        seek_to-SoughtOk Serves Raises c short q s.inner s.worker s.ring fits k.ring k.work k.sleep
          k.alive in
      (
        record {
          ring = x.ring;
          at = x.at;
          work = x.work;
          sleep = x.sleep;
          wait =
              subst (λ r. Waiting (seek_to q s.ring).0 (wake_reader (seek_to q s.ring).1 r)) (sym e)
                tt;
          alive = x.alive;
          stopped =
              x.same_stop ∙ k.stopped ∙ sym (is_dropped-wake_reader (seek_to q s.ring).1 s.reader);
        },
        moved from q t,
      )

  pub seek-Stepped :
      (from : SeekFrom) (s : System S)
      → SystemOk Serves Raises c s
      → s.reader ≡ idle
      → Fitting from
      → Stepped Serves Raises c s.pos (some (seek from s))
  unfolding seek
  seek-Stepped from s k e h =
      seek_at-Stepped from (new_pos s.ring s.pos from) s k e
        (new_pos-Placed s.ring (length c) s.pos from k.ring.total short k.at.fits h)
