-- ===== src/Buffered/Contract.antt =====
-- src/buffered.rs: the invariants of the two threads together, and what a caller may see of a step.
use oxideav_source.Prelude.{
  ℕ, ◌≡◌, refl, sym, ◌∙◌, Bool, true, false, [], none, some, Bytes, String, length, Result, ok, err,
  IoError, ErrorKind, io_error,
}
use oxideav_source.Source.{SeekFrom, target}
use oxideav_source.Buffered.Ring.{RingState}
use oxideav_source.Buffered.Worker.{
  Phase, head, asleep, exited, seeking, seek_failed, reading, depositing, Move,
}
use oxideav_source.Buffered.System.{
  Reader, idle, dropped, waiting, woken, System, Event, nothing, drops, reads, seeks, wake_worker,
  wake_reader, Next, moves,
}
use oxideav_source.Buffered.Invariant.{RingOk, PosOk}
use oxideav_source.Buffered.Rounds.{Returned}
use oxideav_source.Buffered.Working.{WorkerOk}
use oxideav_source.Buffered.Reasons.{Sleeping, Waiting, Alive}
use oxideav_source.Buffered.Moves.{MoveOk}

abbrev pub is_dropped : Reader → Bool
is_dropped dropped = true
is_dropped _ = false

-- What a caller at position `p` may see of a step, and the position behind it.
pub data Behaves (Raises : IoError → Type 0) (c : Bytes) (p : ℕ) : Event → ℕ → Type 0 where
  silent : Behaves Raises c p nothing p
  dropping : Behaves Raises c p drops p
  empty_buffer : Behaves Raises c p (reads 0 (ok [])) p
  answered :
      (n q : ℕ) (r : Result IoError Bytes)
      → Returned Raises c n p r q
      → Behaves Raises c p (reads n r) q
  moved :
      (from : SeekFrom) (q : ℕ)
      → target (length c) p from ≡ some q
      → Behaves Raises c p (seeks from (ok q)) q
  refused :
      (from : SeekFrom) (m : String)
      → target (length c) p from ≡ none
      → Behaves Raises c p (seeks from (err (io_error ErrorKind.invalid_input m))) p

pub is_dropped-wake_reader : (b : Bool) (r : Reader) → is_dropped (wake_reader b r) ≡ is_dropped r
is_dropped-wake_reader b idle = refl
is_dropped-wake_reader b dropped = refl
is_dropped-wake_reader true (waiting n) = refl
is_dropped-wake_reader false (waiting n) = refl
is_dropped-wake_reader b (woken n) = refl

pub Alive-wake : (st : RingState) (w : Phase) (b : Bool) → Alive st w → Alive st (wake_worker b w)
Alive-wake st asleep true k = k
Alive-wake st asleep false k = k
Alive-wake st exited b k = k
Alive-wake st head b k = k
Alive-wake st (seeking _) b k = k
Alive-wake st (seek_failed _) b k = k
Alive-wake st (reading _) b k = k
Alive-wake st (depositing _) b k = k

pub Alive-same :
    (st st' : RingState) (w : Phase) → st'.worker_dead ≡ st.worker_dead → Alive st w → Alive st' w
Alive-same st st' asleep e k = e ∙ k
Alive-same st st' exited e k = k
Alive-same st st' head e k = e ∙ k
Alive-same st st' (seeking _) e k = e ∙ k
Alive-same st st' (seek_failed _) e k = e ∙ k
Alive-same st st' (reading _) e k = e ∙ k
Alive-same st st' (depositing _) e k = e ∙ k

module _ {S : Type 0} (Serves : S → Bytes → ℕ → Type 0) (Raises : IoError → Type 0)
    (c : Bytes) where
  pub record SystemOk (s : System S) : Type 0 where
    pub ring : RingOk Raises c s.ring
    pub at : PosOk Raises c s.ring s.pos
    pub work : WorkerOk Serves Raises c s.ring s.inner s.worker
    pub sleep : Sleeping s.ring s.worker
    pub wait : Waiting s.ring s.reader
    pub alive : Alive s.ring s.worker
    pub stopped : s.ring.stop ≡ is_dropped s.reader

  abbrev pub Stepped : ℕ → Next S → Type 0
  Stepped p none = Unit
  Stepped p (some (e, t)) = SystemOk t × Behaves Raises c p e t.pos

  pub moves-SystemOk :
      (m : Move) (s : System S)
      → SystemOk s
      → MoveOk Serves Raises c s.pos s.inner s.reader s.ring m
      → SystemOk (moves m s)
  unfolding moves
  moves-SystemOk (st, w, b) s k m = record {
    ring = m.ring;
    at = m.at;
    work = m.work;
    sleep = m.sleep;
    wait = m.wait;
    alive = m.alive;
    stopped = m.same_stop ∙ k.stopped ∙ sym (is_dropped-wake_reader b s.reader);
  }
