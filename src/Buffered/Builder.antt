-- ===== src/Buffered/Builder.antt =====
-- src/buffered.rs, `BufferedSourceBuilder`.
use oxideav_source.Prelude.{
  ℕ, ◌-◌, ◌*◌, ◌%◌, max, u64_mod, Bool, false, [], Option, none, some, leb, ◌==◌, if◌then◌else◌,
  IoError,
}
use oxideav_source.Source.{pos, start, from_end, current, Run, ◌>>=◌, return, Source}
use oxideav_source.Buffered.Ring.{RingState}

-- `prefetch_timeout` is in nanoseconds.
pub record BufferedSourceBuilder : Type 0 where
  pub capacity : ℕ
  pub block_size : ℕ
  pub prefetch_timeout : ℕ
  pub lookback_num : ℕ
  pub lookback_den : ℕ

abbrev pub default_block : ℕ
default_block = 256 * 1024

abbrev pub default_prefetch_timeout : ℕ
default_prefetch_timeout = 30000000000

abbrev pub default_lookback_num : ℕ
default_lookback_num = 1

abbrev pub default_lookback_den : ℕ
default_lookback_den = 8

-- `BufferedSourceBuilder::new`, which is `default`.
unfoldable pub new : BufferedSourceBuilder
new = record {
  capacity = 1024 * 1024;
  block_size = default_block;
  prefetch_timeout = default_prefetch_timeout;
  lookback_num = default_lookback_num;
  lookback_den = default_lookback_den;
}

unfoldable pub capacity : ℕ → BufferedSourceBuilder → BufferedSourceBuilder
capacity bytes b = record b { capacity = bytes }

unfoldable pub block_size : ℕ → BufferedSourceBuilder → BufferedSourceBuilder
block_size bytes b = record b { block_size = bytes }

unfoldable prefetch_timeout : ℕ → BufferedSourceBuilder → BufferedSourceBuilder
prefetch_timeout dt b = record b { prefetch_timeout = dt }

unfoldable pub lookback_fraction : ℕ → ℕ → BufferedSourceBuilder → BufferedSourceBuilder
lookback_fraction num den b = record b { lookback_num = num; lookback_den = den }

unfoldable pub sanitise_lookback : ℕ → ℕ → ℕ × ℕ
sanitise_lookback num den =
    if den == 0 then (0, 1) else if leb den num then (den - 1, den) else (num, den)

abbrev pub is_at : Option ℕ → ℕ → Bool
is_at none p = false
is_at (some end) p = end == p

-- `BufferedSource`: the state behind the lock, the reader's position and its timeout. The worker's
-- handle is the worker itself, in `System`.
pub record BufferedSource : Type 0 where
  pub shared : RingState
  pub pos : ℕ
  pub prefetch_timeout : ℕ

-- What `build` makes at position `p` of a source of length `end`, with all knobs clamped.
unfoldable pub built : BufferedSourceBuilder → ℕ → ℕ → BufferedSource
unfolding sanitise_lookback
built b p end =
    let block = max b.block_size (4 * 1024) in
    let fraction = sanitise_lookback b.lookback_num b.lookback_den in
    let total_len = some end in
    record {
      shared = record {
        buf = [];
        ring_start = p;
        capacity = max b.capacity (4 * block % u64_mod);
        block_size = block;
        lookback_num = fraction.0;
        lookback_den = fraction.1;
        total_len = total_len;
        eof = is_at total_len p;
        err = none;
        worker_dead = false;
        target_pos = none;
        stop = false;
      };
      pos = p;
      prefetch_timeout = max b.prefetch_timeout 1000000;
    }

-- The inner source, which then goes to the worker: `stream_position`, and the seeks to the end and
-- back.
unfoldable pub build :
    {S : Type 0} → Source S → BufferedSourceBuilder → Run IoError S BufferedSource
unfolding built
build src b = do
  p ← src.seek (current (pos 0))
  end ← src.seek (from_end (pos 0))
  _ ← src.seek (start p)
  return (built b p end)

-- `BufferedSource::new`
unfoldable new_source : {S : Type 0} → Source S → ℕ → Run IoError S BufferedSource
unfolding build capacity new
new_source src bytes = build src (capacity bytes new)

unfoldable builder : BufferedSourceBuilder
unfolding new
builder = new

unfoldable pub len : BufferedSource → Option ℕ
len s = s.shared.total_len

abbrev is_zero : Option ℕ → Bool
is_zero none = false
is_zero (some n) = n == 0

unfoldable pub is_empty : BufferedSource → Bool
unfolding len
is_empty s = is_zero (len s)
