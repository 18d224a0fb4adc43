-- ===== src/Buffered/Ring.antt =====
-- src/buffered.rs, `RingState`: what the reader and the worker share under the lock.
use oxideav_source.Prelude.{
  ℕ, ◌-◌, ◌*◌, ◌/◌, min, Bool, ◌++◌, [], Option, Bytes, ltb, ◌==◌, if◌then◌else◌, u64_mod, add_u64,
  length, take, drop, IoError,
}

-- `buf` is a `VecDeque`, oldest byte first. `usize` has 64 bits.
pub record RingState : Type 0 where
  pub buf : Bytes
  pub ring_start : ℕ
  pub capacity : ℕ
  pub block_size : ℕ
  pub lookback_num : ℕ
  pub lookback_den : ℕ
  pub total_len : Option ℕ
  pub eof : Bool
  pub err : Option IoError
  pub worker_dead : Bool
  pub target_pos : Option ℕ
  pub stop : Bool

-- A copy of the sticky error: its kind with its message.
unfoldable pub surface_err : RingState → Option IoError
surface_err st = st.err

-- `saturating_mul` and `checked_div(..).unwrap_or(0)`
abbrev pub saturating_mul : ℕ → ℕ → ℕ
saturating_mul a b = min (a * b) (u64_mod - 1)

unfoldable pub rear : RingState → ℕ
rear st =
    if st.lookback_den == 0 then 0 else saturating_mul st.capacity st.lookback_num / st.lookback_den

-- `st.buf.drain(..to_drop); st.ring_start += to_drop`
unfoldable pub discard : ℕ → RingState → RingState
discard to_drop st = record st {
  buf = drop to_drop st.buf;
  ring_start = add_u64 st.ring_start to_drop;
}

-- `s[i..i + k]`
abbrev pub part : ℕ → ℕ → Bytes → Bytes
part i k s = take k (drop i s)

-- The copy of `n` bytes from `rel` on, out of the two halves that `as_slices` returns.
unfoldable pub copy_out : Bytes → Bytes → ℕ → ℕ → Bytes
copy_out front back rel n =
    let f_take = min (length front - rel) n in
    let rest = if ltb f_take n then part 0 (n - f_take) back else [] in
    if ltb rel (length front)
    then part rel f_take front ++ rest
    else part (rel - length front) n back
