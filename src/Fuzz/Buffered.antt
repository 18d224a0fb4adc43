-- ===== src/Fuzz/Buffered.antt =====
-- fuzz/fuzz_targets/buffered_model.rs: a `BufferedSource` with any knobs beside a cursor over the
-- same bytes. The threads are scheduled so that the worker runs only while the reader waits, and no
-- wait times out; the layout of the deque is a parameter.
use oxideav_source.Prelude.{
  ℕ, zero, suc, ◌+◌, ◌%◌, [], ◌∷◌, Option, none, some, Bool, false, ◌==◌, if◌then◌else◌, Bytes,
  String, length, Result, ok, err, IoError,
}
use oxideav_source.Source.{◌>>=◌, return}
use oxideav_source.Mem
use oxideav_source.Mem.{MemReader}
use oxideav_source.Open.{cursor_new}
use oxideav_source.Buffered.Builder
use oxideav_source.Buffered.Builder.{BufferedSource, BufferedSourceBuilder}
use oxideav_source.Buffered.System.{System, spawn}
use oxideav_source.Buffered.Sequential.{sequential}
use oxideav_source.Fuzz.Compose
use oxideav_source.Fuzz.Compose.{Script, Draw, u8, u16, assert}
use oxideav_source.Fuzz.Drive.{drive}

-- `(0..n).map(|i| (i as u8).wrapping_add(seed))`, from index `i` on.
unfoldable pub ramp : ℕ → ℕ → ℕ → Bytes
ramp i zero seed = []
ramp i (suc n) seed = ((i % 256 + seed) % 256) ∷ ramp (suc i) n seed

pub record Setup : Type 0 where
  pub knobs : BufferedSourceBuilder
  pub payload : Bytes

-- The knobs as they are drawn, and a payload of at most 65535 bytes: the remainder of a `u16` by
-- 80000 is the number itself.
unfoldable pub chosen : (capacity block num den x seed : ℕ) → Setup
unfolding ramp Builder.lookback_fraction Builder.block_size Builder.capacity Builder.new
chosen capacity block num den x seed = record {
  knobs =
      Builder.lookback_fraction num den
        (Builder.block_size block (Builder.capacity capacity Builder.new));
  payload = ramp 0 (x % 80000) seed;
}

unfoldable pub setup : Draw Setup
unfolding u8 u16 chosen
setup = do
  capacity ← u16
  block ← u16
  num ← u8
  den ← u8
  x ← u16
  seed ← u8
  return (chosen capacity block num den x seed)

abbrev pub eq_length : Option ℕ → ℕ → Bool
eq_length none n = false
eq_length (some total) n = total == n

module _ (wrap : ℕ) where
  -- Behind `build`: the assertion on the length, and the loop of `compose_open`.
  unfoldable pub drive_probed :
      Option ℕ → Bytes → Script → System MemReader → Result String (Unit {0})
  unfolding drive
  drive_probed total payload sc opened =
      if eq_length total (length payload)
      then (drive (sequential Mem.source wrap) 4000 (suc (length sc.d)) (length payload)
          (record { script = sc; opened = opened; cur = cursor_new payload })).0
      else err "probed total length"

  abbrev pub drive_buffered :
      Bytes → Script → Result IoError BufferedSource × MemReader → Result String (Unit {0})
  drive_buffered payload sc (err e, inner) = err "in-memory build cannot fail"
  drive_buffered payload sc (ok b, inner) = drive_probed (Builder.len b) payload sc (spawn b inner)

  unfoldable pub build_and_drive : Setup → Script → Result String (Unit {0})
  unfolding Builder.build Builder.len Mem.source spawn drive_probed
  build_and_drive s sc =
      drive_buffered s.payload sc (Builder.build Mem.source s.knobs (cursor_new s.payload))

  abbrev pub drive_drawn : Result String Setup × Script → Result String (Unit {0})
  drive_drawn (ok s, sc) = build_and_drive s sc
  drive_drawn (err e, sc) = err e

  -- The whole target, on the fuzzer's bytes.
  unfoldable pub buffered_model : Bytes → Result String (Unit {0})
  unfolding setup build_and_drive
  buffered_model d = drive_drawn (setup (Compose.new d))
