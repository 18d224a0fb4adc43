-- ===== src/Buffered/System.antt =====
-- src/buffered.rs: the reader's thread and the worker's, interleaved. A step is what one of them does
-- from one lock to the next unlock, or one call on the inner source.
use oxideav_source.Prelude.{
  ℕ, Bool, true, Option, none, some, Bytes, ◌==◌, if◌then◌else◌, [], Result, ok, err, IoError, ◌≡◌,
  ◌<◌, u64_mod,
}
use oxideav_source.Source.{SeekFrom, start, Source}
use oxideav_source.Buffered.Ring.{RingState}
use oxideav_source.Buffered.Builder.{BufferedSource}
use oxideav_source.Buffered.Reader.{Round, returns, again, waits, attempt, expire, new_pos, seek_to}
use oxideav_source.Buffered.Worker.{
  Phase, head, asleep, exited, seeking, seek_failed, reading, depositing, Move, phase1, fatal,
  phase3,
}

-- The reader between two calls; asleep on `not_empty` in a `read` of `n` bytes; woken in it; or
-- dropped.
pub data Reader : Type 0 where
  idle dropped : Reader
  waiting : ℕ → Reader
  woken : ℕ → Reader

pub record System (S : Type 0) : Type 0 where
  pub ring : RingState
  pub pos : ℕ
  pub reader : Reader
  pub worker : Phase
  pub inner : S

-- What the caller sees of a step.
pub data Event : Type 0 where
  nothing drops : Event
  reads : ℕ → Result IoError Bytes → Event
  seeks : SeekFrom → Result IoError ℕ → Event

-- What happens next: a call of the reader; a waiting read goes on, or its wait times out; the worker
-- goes on, or wakes up by itself. Reads are given the layout of the deque.
pub data Choice : Type 0 where
  call_read : ℕ → ℕ → Choice
  go_on : ℕ → Choice
  time_out : ℕ → Choice
  call_seek : SeekFrom → Choice
  call_drop work wake : Choice

-- `notify_one` or `notify_all` on `not_full`, where only the worker waits; and on `not_empty`, where
-- only the reader does.
abbrev pub wake_worker : Bool → Phase → Phase
wake_worker b asleep = if b then head else asleep
wake_worker b p = p

abbrev pub wake_reader : Bool → Reader → Reader
wake_reader b (waiting n) = if b then woken n else waiting n
wake_reader b r = r

-- `SeekFrom::Start` holds a `u64`.
abbrev pub IsU64 : Choice → Type 0
IsU64 (call_seek (start n)) = n < u64_mod
IsU64 _ = Unit

abbrev pub Next : Type 0 → Type 0
Next S = Option (Event × System S)

module _ {S : Type 0} where
  -- `thread::spawn`
  unfoldable pub spawn : BufferedSource → S → System S
  spawn b inner = record {
    ring = b.shared;
    pos = b.pos;
    reader = idle;
    worker = head;
    inner = inner;
  }

  -- A read of `n` bytes behind its rounds under the lock.
  unfoldable pub after_rounds : ℕ → System S → Option Round → Next S
  after_rounds n s none = none
  after_rounds n s (some (again st)) = none
  after_rounds n s (some (returns r q st b)) =
      some
        (reads n r, record s { ring = st; pos = q; reader = idle; worker = wake_worker b s.worker })
  after_rounds n s (some (waits st b)) =
      some (nothing, record s { ring = st; reader = waiting n; worker = wake_worker b s.worker })

  -- `read`, which does not lock for an empty buffer.
  unfoldable pub read : ℕ → ℕ → System S → Next S
  unfolding after_rounds
  read n wrap s =
      if n == 0 then some (reads 0 (ok []), s) else after_rounds n s (attempt wrap n s.pos s.ring)

  -- `seek` behind the computation of the position.
  unfoldable pub seek_at : SeekFrom → Result IoError ℕ → System S → Event × System S
  unfolding seek_to
  seek_at from (err e) s = (seeks from (err e), s)
  seek_at from (ok q) s =
      let (st, b) = seek_to q s.ring in
      (
        seeks from (ok q),
        record s {
          ring = st;
          pos = q;
          reader = wake_reader b s.reader;
          worker = wake_worker b s.worker;
        },
      )

  unfoldable pub seek : SeekFrom → System S → Event × System S
  unfolding seek_at new_pos
  seek from s = seek_at from (new_pos s.ring s.pos from) s

  -- `drop`, up to the `join`.
  unfoldable pub drop_source : System S → Event × System S
  drop_source s = (
    drops,
    record s {
      ring = record s.ring { stop = true };
      reader = dropped;
      worker = wake_worker true s.worker;
    },
  )

  unfoldable pub moves : Move → System S → System S
  moves (st, p, b) s = record s { ring = st; worker = p; reader = wake_reader b s.reader }

  -- Behind the seek of the inner source.
  unfoldable pub sought : Result IoError ℕ × S → System S → System S
  sought (ok _, inner) s = record s { worker = head; inner = inner }
  sought (err e, inner) s = record s { worker = seek_failed e; inner = inner }

  -- Behind the read of the inner source.
  unfoldable pub fetched : Result IoError Bytes × S → System S → System S
  fetched (r, inner) s = record s { worker = depositing r; inner = inner }

  module _ (src : Source S) where
    -- A step of the worker.
    unfoldable pub work_from : Phase → System S → Option (System S)
    unfolding moves phase1 phase3 fatal sought fetched
    work_from head s = some (moves (phase1 s.ring) s)
    work_from (seeking t) s = some (sought (src.seek (start t) s.inner) s)
    work_from (seek_failed e) s = some (moves (fatal e s.ring) s)
    work_from (reading k) s = some (fetched (src.read k s.inner) s)
    work_from (depositing r) s = some (moves (phase3 r s.ring) s)
    work_from asleep s = none
    work_from exited s = none

    abbrev pub unseen : Option (System S) → Next S
    unseen none = none
    unseen (some s) = some (nothing, s)

    -- A spurious wake-up of the worker.
    abbrev pub wakes : Phase → System S → Next S
    wakes asleep s = some (nothing, record s { worker = head })
    wakes _ s = none

    -- A step that the reader's thread can make where it stands.
    abbrev pub by_reader : Reader → Choice → System S → Next S
    by_reader idle (call_read n wrap) s = read n wrap s
    by_reader idle (call_seek from) s = some (seek from s)
    by_reader idle call_drop s = some (drop_source s)
    by_reader (waiting n) (go_on wrap) s = after_rounds n s (attempt wrap n s.pos s.ring)
    by_reader (waiting n) (time_out wrap) s = after_rounds n s (expire wrap n s.pos s.ring)
    by_reader (woken n) (go_on wrap) s = after_rounds n s (attempt wrap n s.pos s.ring)
    by_reader (woken n) (time_out wrap) s = after_rounds n s (expire wrap n s.pos s.ring)
    by_reader _ _ s = none

    unfoldable pub step : Choice → System S → Next S
    unfolding read after_rounds seek drop_source work_from
    step work s = unseen (work_from s.worker s)
    step wake s = wakes s.worker s
    step c s = by_reader s.reader c s

    -- The steps, and the states that they lead to from the one behind `spawn`.
    pub data Step (s : System S) : Event → System S → Type 0 where
      takes :
          (c : Choice) {e : Event} {t : System S} → IsU64 c → step c s ≡ some (e, t) → Step s e t

    pub data Reach (s : System S) : System S → Type 0 where
      at_once : Reach s s
      later : {t u : System S} {e : Event} → Reach s t → Step t e u → Reach s u
