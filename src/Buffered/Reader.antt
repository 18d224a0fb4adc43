-- ===== src/Buffered/Reader.antt =====
-- src/buffered.rs, `Read` and `Seek` of `BufferedSource`: what the reader does under the lock.
use oxideav_source.Prelude.{
  ℕ, zero, suc, ◌+◌, ◌-◌, min, Bool, true, false, ◌&&◌, ◌||◌, [], Option, none, some, Bytes, ltb,
  leb, ◌==◌, if◌then◌else◌, add_u64, length, take, drop, Result, ok, err, ok_or, IoError, ErrorKind,
  io_error,
}
use oxideav_source.Source.{
  ℤ, pos, negsuc, SeekFrom, start, from_end, current, checked_add, checked_sub,
}
use oxideav_source.Buffered.Ring.{RingState, surface_err, rear, discard, copy_out}

-- A round of the loop in `read`: it returns, with the reader's next position; it goes round again;
-- or it waits on `not_empty`. The flag says that `not_full` is notified.
pub data Round : Type 0 where
  returns : Result IoError Bytes → ℕ → RingState → Bool → Round
  again : RingState → Round
  waits : RingState → Bool → Round

abbrev pub behind : IoError
behind = io_error ErrorKind.invalid_input "BufferedSource: reader behind ring start"

abbrev pub timed_out : IoError
timed_out = io_error ErrorKind.timed_out "BufferedSource: prefetch timeout"

-- A buffer of `n` bytes. `wrap` is the length of the first half of the deque.
unfoldable pub hit : ℕ → ℕ → ℕ → RingState → Round
unfolding copy_out rear discard
hit wrap n p st =
    let rel = p - st.ring_start in
    let k = min (length st.buf - rel) n in
    let bytes = copy_out (take wrap st.buf) (drop wrap st.buf) rel k in
    let drop_n = rel + k in
    if ltb (rear st) drop_n
    then returns (ok bytes) (add_u64 p k) (discard (drop_n - rear st) st) true
    else returns (ok bytes) (add_u64 p k) st false

-- `matches!(total_len, Some(total) if p >= total)`
abbrev pub past_end : Option ℕ → ℕ → Bool
past_end none p = false
past_end (some total) p = leb total p

-- The error, end of file, or a drained ring, or the wait.
unfoldable pub miss_with : Option IoError → ℕ → RingState → Round
unfolding rear discard
miss_with (some e) p st = returns (err e) p st false
miss_with none p st =
    if st.eof || past_end st.total_len p
    then returns (ok []) p st false
    else if length st.buf == st.capacity
    then again (discard (length st.buf - rear st) st)
    else waits st false

unfoldable pub miss : ℕ → RingState → Round
unfolding surface_err miss_with
miss p st = miss_with (surface_err st) p st

unfoldable pub round : ℕ → ℕ → ℕ → RingState → Round
unfolding hit miss
round wrap n p st =
    if ltb p st.ring_start
    then returns (err behind) p st false
    else if ltb (p - st.ring_start) (length st.buf)
    then hit wrap n p st
    else miss p st

-- A round behind one that has notified the worker.
abbrev pub notified : Option Round → Option Round
notified (some (returns r p st b)) = some (returns r p st true)
notified (some (waits st b)) = some (waits st true)
notified (some (again st)) = none
notified none = none

abbrev pub go_round : (RingState → Option Round) → Round → Option Round
go_round loop (again st) = notified (loop st)
go_round loop (returns r p st b) = some (returns r p st b)
go_round loop (waits st b) = some (waits st b)

-- The loop up to its return or its wait, in at most `fuel` rounds; `none` if these do not do.
unfoldable pub rounds : ℕ → ℕ → ℕ → ℕ → RingState → Option Round
unfolding round
rounds zero wrap n p st = none
rounds (suc fuel) wrap n p st = go_round (rounds fuel wrap n p) (round wrap n p st)

-- The loop goes round again at most once: a ring that it has drained is not full.
abbrev pub attempt : ℕ → ℕ → ℕ → RingState → Option Round
attempt = rounds 2

-- The wait timed out: `TimedOut` if the worker has reported nothing.
abbrev pub expire_with : Option IoError → ℕ → ℕ → ℕ → RingState → Option Round
expire_with none wrap n p st =
    if st.eof then attempt wrap n p st else some (returns (err timed_out) p st false)
expire_with (some _) wrap n p st = attempt wrap n p st

unfoldable pub expire : ℕ → ℕ → ℕ → RingState → Option Round
unfolding rounds
expire wrap n p st = expire_with st.err wrap n p st

unfoldable pub add_signed : ℕ → ℤ → Result IoError ℕ
unfolding checked_add checked_sub
add_signed base (pos d) =
    ok_or (checked_add base d) (io_error ErrorKind.invalid_input "seek overflow")
add_signed base (negsuc d) =
    ok_or (checked_sub base (suc d)) (io_error ErrorKind.invalid_input "seek before start")

-- `total.ok_or_else(..)?`, then `add_signed`.
abbrev pub from_total : Option ℕ → ℤ → Result IoError ℕ
from_total none d = err (io_error ErrorKind.unsupported "stream length unknown")
from_total (some end) d = add_signed end d

unfoldable pub new_pos : RingState → ℕ → SeekFrom → Result IoError ℕ
unfolding add_signed
new_pos st p (start n) = ok n
new_pos st p (current d) = add_signed p d
new_pos st p (from_end d) = from_total st.total_len d

-- The request to the worker.
unfoldable pub reposition : ℕ → RingState → RingState
reposition q st = record st {
  target_pos = some q;
  buf = [];
  ring_start = q;
  eof = past_end st.total_len q;
  err = if st.worker_dead then st.err else none;
}

-- The ring, and whether both condition variables are notified.
unfoldable pub seek_to : ℕ → RingState → RingState × Bool
unfolding reposition
seek_to q st =
    let ring_end = add_u64 st.ring_start (length st.buf) in
    if leb st.ring_start q && leb q ring_end then (st, false) else (reposition q st, true)
