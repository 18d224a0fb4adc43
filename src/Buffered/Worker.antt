-- ===== src/Buffered/Worker.antt =====
-- src/buffered.rs, `worker_loop`: the worker's phases, and what it does under the lock.
use oxideav_source.Prelude.{
  ℕ, ◌-◌, min, Bool, true, false, ◌||◌, [], ◌∷◌, ◌++◌, Option, none, some, Bytes, ◌==◌,
  if◌then◌else◌, length, Result, ok, err, IoError, ErrorKind,
}
use oxideav_source.Buffered.Ring.{RingState}
use oxideav_source.Buffered.Reader.{past_end}

-- Where the worker stands: before the lock of phase 1; asleep on `not_full`; before the seek of the
-- inner source, or with its error before the lock; before the read of phase 2; before the lock of
-- phase 3, with what the read gave; or returned.
pub data Phase : Type 0 where
  head asleep exited : Phase
  seeking : ℕ → Phase
  seek_failed : IoError → Phase
  reading : ℕ → Phase
  depositing : Result IoError Bytes → Phase

-- The ring, the next phase, and whether `not_empty` is notified.
abbrev pub Move : Type 0
Move = RingState × Phase × Bool

-- `target_pos.take()`
unfoldable pub take_target : ℕ → RingState → RingState
take_target target st = record st {
  target_pos = none;
  buf = [];
  ring_start = target;
  eof = past_end st.total_len target;
  err = none;
}

-- Phase 1, from the lock to the next unlock, behind the test of `stop`.
unfoldable pub phase1_with : Option ℕ → RingState → Move
unfolding take_target
phase1_with (some target) st = (take_target target st, seeking target, true)
phase1_with none st =
    if st.eof || (st.capacity - length st.buf == 0)
    then (st, asleep, false)
    else (st, reading (min (st.capacity - length st.buf) st.block_size), false)

unfoldable pub phase1 : RingState → Move
unfolding phase1_with
phase1 st = if st.stop then (st, exited, false) else phase1_with st.target_pos st

-- A fatal error: recorded, and the worker returns.
unfoldable pub fatal : IoError → RingState → Move
fatal e st = (record st { err = some e; worker_dead = true }, exited, true)

abbrev pub is_interrupted : ErrorKind → Bool
is_interrupted ErrorKind.interrupted = true
is_interrupted _ = false

abbrev pub is_some : Option ℕ → Bool
is_some none = false
is_some (some _) = true

-- The `match` of phase 3.
unfoldable pub deposit : Result IoError Bytes → RingState → Move
unfolding fatal
deposit (ok []) st = (record st { eof = true }, head, true)
deposit (ok (b ∷ s)) st = (record st { buf = st.buf ++ (b ∷ s) }, head, true)
deposit (err e) st = if is_interrupted e.kind then (st, head, false) else fatal e st

unfoldable pub phase3 : Result IoError Bytes → RingState → Move
unfolding deposit
phase3 r st = if is_some st.target_pos || st.stop then (st, head, false) else deposit r st
