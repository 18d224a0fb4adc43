-- ===== src/Sub.antt =====
-- src/sub.rs: the windowed view over an inner source, `stream_len`, and their arithmetic.
pub mod Probe
pub mod Window
pub mod Make
use oxideav_source.Prelude.{
  ℕ, suc, ◌+◌, ◌-◌, min, Bool, ◌||◌, [], Option, some, none, Bytes, ltb, leb, ◌==◌, if◌then◌else◌,
  add_u64, length, ok_or, Result, ok, err, Error, invalid, IoError, ErrorKind, io_error,
}
use oxideav_source.Source.{
  ℤ, pos, negsuc, SeekFrom, start, from_end, current, checked_add, checked_sub, Run, and_then,
  ◌>>=◌, return, fail, on_err, Source,
}

pub record SubSource (S : Type 0) : Type 0 where
  pub inner : S
  pub base : ℕ
  pub len : ℕ
  pub pos : ℕ

abbrev pub bad_seek : IoError
bad_seek =
    io_error ErrorKind.invalid_input
      "SubSource: seek resolves to a negative or overflowing position"

unfoldable pub add_signed : ℕ → ℤ → Result IoError ℕ
unfolding checked_add checked_sub
add_signed base (pos d) = ok_or (checked_add base d) bad_seek
add_signed base (negsuc d) = ok_or (checked_sub base (suc d)) bad_seek

unfoldable pub new_pos : ℕ → ℕ → SeekFrom → Result IoError ℕ
unfolding add_signed
new_pos len p (start n) = ok n
new_pos len p (from_end d) = add_signed len d
new_pos len p (current d) = add_signed p d

-- What a read of the inner source leaves in the window.
unfoldable pub advance :
    {S : Type 0} → SubSource S → Result IoError Bytes × S → Result IoError Bytes × SubSource S
advance w (ok bytes, i) = (ok bytes, record w { inner = i; pos = add_u64 w.pos (length bytes) })
advance w (err e, i) = (err e, record w { inner = i })

-- The end of `new`; the inner source is dropped on an error.
unfoldable pub finish :
    {S : Type 0} → ℕ → ℕ → Result Error (Unit {0}) × S → Result Error (SubSource S)
finish base len (ok _, inner) = ok (record { inner = inner; base = base; len = len; pos = 0 })
finish base len (err e, inner) = err e

module _ {S : Type 0} (src : Source S) where
  -- Back to `saved`, unless the end is there.
  unfoldable pub restore : ℕ → ℕ → Run IoError S ℕ
  restore saved end =
      if saved == end then return end else (src.seek (start saved) >>= λ _. return end)

  -- `stream_position()` is a seek by 0 from the current position.
  unfoldable pub stream_len : Run IoError S ℕ
  unfolding restore
  stream_len = do
    saved ← src.seek (current (pos 0))
    end ← src.seek (from_end (pos 0))
    restore saved end

  -- What `new` does to the inner source behind the overflow test, once its length is known.
  unfoldable pub check_end : ℕ → ℕ → ℕ → Run Error S (Unit {0})
  check_end base end inner_len =
      if ltb inner_len end
      then fail (invalid "SubSource: window extends past inner length")
      else (on_err (λ _. invalid "SubSource: cannot seek inner to base") (src.seek (start base))
          >>= λ _. return tt)

  -- What `new` does to the inner source behind the overflow test.
  unfoldable pub place : ℕ → ℕ → Run Error S (Unit {0})
  unfolding stream_len check_end
  place base end = do
    inner_len ← on_err (λ _. invalid "SubSource: cannot probe inner length") stream_len
    check_end base end inner_len

  unfoldable pub new : S → ℕ → ℕ → Result Error (SubSource S)
  unfolding place finish checked_add
  new inner base len = elim (checked_add base len) [
    | none ↦ err (invalid "SubSource: base + len overflows u64")
    | some end ↦ finish base len (place base end inner)
  ]

  -- The inner source's part of a read of `want` bytes at `inner_off`.
  unfoldable pub read_inner : ℕ → ℕ → Run IoError S Bytes
  read_inner inner_off want = do _ ← src.seek (start inner_off); src.read want

  unfoldable pub read : ℕ → Run IoError (SubSource S) Bytes
  unfolding read_inner advance
  read n w =
      if n == 0 || leb w.len w.pos
      then (ok [], w)
      else let remaining = w.len - w.pos in
        let want = min n remaining in
        let inner_off = add_u64 w.base w.pos in advance w (read_inner inner_off want w.inner)

unfoldable pub seek_to : {S : Type 0} → Result IoError ℕ → Run IoError (SubSource S) ℕ
seek_to (ok q) w = (ok q, record w { pos = q })
seek_to (err e) w = (err e, w)

unfoldable pub seek : {S : Type 0} → SeekFrom → Run IoError (SubSource S) ℕ
unfolding new_pos seek_to
seek from w = seek_to (new_pos w.len w.pos from) w

unfoldable pub source : {S : Type 0} → Source S → Source (SubSource S)
unfolding read seek
source src = record { read = read src; seek = seek }

-- The accessors.
module _ {S : Type 0} where
  unfoldable len : SubSource S → ℕ
  len w = w.len

  unfoldable is_empty : SubSource S → Bool
  is_empty w = w.len == 0

  unfoldable base : SubSource S → ℕ
  base w = w.base

  unfoldable into_inner : SubSource S → S
  into_inner w = w.inner
