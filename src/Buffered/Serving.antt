-- ===== src/Buffered/Serving.antt =====
-- src/buffered.rs, `worker_loop`: the steps on an inner source that serves a content.
use oxideav_source.Prelude.{
  ℕ, ◌+◌, ◌-◌, ◌≤◌, ◌<◌, ◌≡◌, sym, ap, subst, false, Option, none, some, arith, Bytes, length,
  length-take, length-drop, take, drop, Result, ok, IoError,
}
use oxideav_source.Source.{
  start, target, Source, Reads, got, failed, Seeks, moved, refused, broken, IsSource,
}
use oxideav_source.Buffered.Worker.{
  Phase, head, asleep, exited, seeking, seek_failed, reading, depositing, phase1, phase3, fatal,
}
use oxideav_source.Buffered.System.{System, sought, fetched, work_from, unseen}
use oxideav_source.Buffered.Working.{aim, Somewhere, At, Due, Fits, Landed, Fetched, WorkerOk}
use oxideav_source.Buffered.Reasons.{Alive}
use oxideav_source.Buffered.Moves.{phase1-MoveOk, phase3-MoveOk, fatal-MoveOk}
use oxideav_source.Buffered.Contract.{silent, SystemOk, Stepped, moves-SystemOk}

module _ {S : Type 0} (Serves : S → Bytes → ℕ → Type 0) (Raises : IoError → Type 0)
    (c : Bytes) where
  Due-At :
      (o : Option ℕ) (t end : ℕ) (inner : S)
      → Due Serves Raises c o t end
      → Serves inner c t
      → At Serves Raises c o end inner
  Due-At none t end inner same h = subst (Serves inner c) (sym same) h
  Due-At (some u) t end inner same h = (t, h)

  -- What a read of the inner source at the ring's end gives.
  got-Landed :
      (end l cap j n : ℕ) (inner : S)
      → j ≤ n
      → j ≤ length c - end
      → (0 < n → end < length c → 0 < j)
      → 0 < n
      → l + n ≤ cap
      → Serves inner c (end + j)
      → Landed Serves Raises c end l cap inner (ok (take j (drop end c)))
  got-Landed end l cap j n inner le within progress positive room there =
      let all_of : length (take j (drop end c)) ≡ j =
        omega (arith, length-take j (drop end c), length-drop end c) in
      (
        ap (λ i. take i (drop end c)) (sym all_of),
        omega (arith, all_of),
        λ e. ground (arith, all_of, progress positive),
        subst (λ i. Serves inner c (end + i)) (sym all_of) there,
      )

  Reads-Landed :
      (end l cap n : ℕ) (out : Result IoError Bytes × S)
      → Reads Serves Raises c end n out
      → 0 < n
      → l + n ≤ cap
      → Landed Serves Raises c end l cap out.1 out.0
  Reads-Landed end l cap n _ (got j s le within progress there) positive room =
      got-Landed end l cap j n s le within progress positive room there
  Reads-Landed end l cap n _ (failed e s raised there) positive room = (raised, there)

  Reads-Somewhere :
      (q n : ℕ) (out : Result IoError Bytes × S)
      → Reads Serves Raises c q n out
      → Somewhere Serves Raises c out.1
  Reads-Somewhere q n _ (got j s le within progress there) = (q + j, there)
  Reads-Somewhere q n _ (failed e s raised there) = (q, there)

  module _ (src : Source S) (law : IsSource src Serves Raises) where
    read-Fetched :
        (o : Option ℕ) (end l cap n : ℕ) (inner : S)
        → At Serves Raises c o end inner
        → 0 < n
        → Fits Serves Raises c o (l + n) cap
        → Fetched Serves Raises c o end l cap (src.read n inner).1 (src.read n inner).0
    read-Fetched none end l cap n inner there positive room =
        Reads-Landed end l cap n (src.read n inner) (law.reads inner c end n there) positive room
    read-Fetched (some t) end l cap n inner (q, there) positive room =
        Reads-Somewhere q n (src.read n inner) (law.reads inner c q n there)

    module _ (s : System S) (k : SystemOk Serves Raises c s) where
      sought-Stepped :
          (q t : ℕ) (out : Result IoError ℕ × S)
          → Seeks Serves Raises c q (start t) out
          → Due Serves Raises c
              (aim s.ring.stop s.ring.target_pos)
              t
              (s.ring.ring_start + length s.ring.buf)
          → s.ring.worker_dead ≡ false
          → Stepped Serves Raises c s.pos (unseen src (some (sought out s)))
      unfolding sought target
      sought-Stepped q t _ (moved u inner there serves) due alive = (
        record {
          ring = k.ring;
          at = k.at;
          work =
              Due-At (aim s.ring.stop s.ring.target_pos) t (s.ring.ring_start + length s.ring.buf)
                inner due (subst (Serves inner c) (ground arith) serves);
          sleep = tt;
          wait = k.wait;
          alive = alive;
          stopped = k.stopped;
        },
        silent,
      )
      sought-Stepped q t _ (refused m inner there serves) due alive = absurd (cc)
      sought-Stepped q t _ (broken e inner raised serves) due alive = (
        record {
          ring = k.ring;
          at = k.at;
          work = raised;
          sleep = tt;
          wait = k.wait;
          alive = alive;
          stopped = k.stopped;
        },
        silent,
      )

      fetched-SystemOk :
          (out : Result IoError Bytes × S)
          → s.ring.worker_dead ≡ false
          → WorkerOk Serves Raises c s.ring out.1 (depositing out.0)
          → SystemOk Serves Raises c (fetched out s)
      unfolding fetched
      fetched-SystemOk (r, inner) alive h = record {
        ring = k.ring;
        at = k.at;
        work = h;
        sleep = tt;
        wait = k.wait;
        alive = alive;
        stopped = k.stopped;
      }

      pub work_from-Stepped :
          (w : Phase)
          → s.worker ≡ w
          → Stepped Serves Raises c s.pos (unseen src (work_from src w s))
      unfolding work_from
      work_from-Stepped w e =
          go w (subst (WorkerOk Serves Raises c s.ring s.inner) e k.work)
            (subst (Alive s.ring) e k.alive)
        where
          go :
              (w : Phase)
              → WorkerOk Serves Raises c s.ring s.inner w
              → Alive s.ring w
              → Stepped Serves Raises c s.pos (unseen src (work_from src w s))
          go head h alive = (
            moves-SystemOk Serves Raises c (phase1 s.ring) s k (
                phase1-MoveOk Serves Raises c s.pos s.inner s.reader s.ring k.ring k.at k.wait alive
                  h),
            silent,
          )
          go (seeking t) ((q, there), due, fits) alive =
              sought-Stepped q t (src.seek (start t) s.inner)
                (law.seeks s.inner c q (start t) there) due alive
          go (seek_failed x) h alive = (
            moves-SystemOk Serves Raises c (fatal x s.ring) s k
                (fatal-MoveOk Serves Raises c s.pos s.inner s.reader s.ring k.ring k.at k.wait x h),
            silent,
          )
          go (reading n) (there, positive, room) alive = (
            fetched-SystemOk (src.read n s.inner) alive (
                read-Fetched (aim s.ring.stop s.ring.target_pos)
                  (s.ring.ring_start + length s.ring.buf) (length s.ring.buf) s.ring.capacity n
                  s.inner there positive room),
            silent,
          )
          go (depositing f) h alive = (
            moves-SystemOk Serves Raises c (phase3 f s.ring) s k (
                phase3-MoveOk Serves Raises c s.pos s.inner s.reader s.ring k.ring k.at k.wait alive
                  f h),
            silent,
          )
          go asleep h alive = tt
          go exited h alive = tt
