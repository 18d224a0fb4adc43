-- ===== src/Mem.antt =====
-- src/mem.rs: the table of `mem://` buffers and the reader over one of them. The table is the
-- `HashMap` behind the process-global lock, as an association list that is passed on; a buffer
-- behind an `Arc` never changes, so a reader holds its bytes.
pub mod Table
pub mod Reader
use oxideav_source.Prelude.{
  ℕ, suc, ◌+◌, ◌-◌, min, Bool, true, false, ◌||◌, not, List, [], ◌∷◌, Option, none, some, Bytes,
  codes, leb, ◌==◌, if◌then◌else◌, add_u64, length, take, drop, is_empty, contains, eq_bytes,
  Result, ok, err, ◌>>=◌, ◌>>◌, reject_if, ok_or, Error, invalid, io, IoError, ErrorKind, io_error,
}
use oxideav_source.Uri.{split, scheme_is}
use oxideav_source.Source.{
  ℤ, pos, negsuc, SeekFrom, start, from_end, current, checked_add, checked_sub, Run, Source,
}

abbrev pub Table : Type 0
Table = List (Bytes × Bytes)

unfoldable pub get : Bytes → Table → Option Bytes
get id [] = none
get id ((k, v) ∷ t) = if eq_bytes k id then some v else get id t

-- `HashMap::remove`, without its result.
unfoldable pub without : Bytes → Table → Table
without id [] = []
without id ((k, v) ∷ t) = let rest = without id t in if eq_bytes k id then rest else (k, v) ∷ rest

-- `put` replaces an entry with the same id.
unfoldable pub put : Bytes → Bytes → Table → Table
unfolding without
put id buffer t = (id, buffer) ∷ without id t

abbrev is_some : Option Bytes → Bool
is_some none = false
is_some (some _) = true

-- The new table, and whether a buffer was there.
unfoldable pub remove : Bytes → Table → Table × Bool
unfolding without get
remove id t = (without id t, is_some (get id t))

unfoldable pub clear : Table → Table
clear t = []

pub record MemReader : Type 0 where
  pub buf : Bytes
  pub pos : ℕ

unfoldable pub new : Bytes → MemReader
new buf = record { buf = buf; pos = 0 }

abbrev pub not_registered : Error
not_registered = io (io_error ErrorKind.not_found "mem:// id is not registered")

unfoldable pub open_mem : Table → Bytes → Result Error MemReader
unfolding new
open_mem table uri_str = do
  let (scheme, id) = split uri_str
  reject_if (not (scheme_is scheme (codes "mem"))) (invalid "mem driver invoked on non-mem URI")
  reject_if (is_empty id) (invalid "mem:// URI requires a non-empty id")
  reject_if (contains b'/' id) (invalid "mem:// id must not contain '/'")
  buf ← ok_or (get id table) not_registered
  ok (new buf)

-- `read` on a buffer of `n` bytes.
unfoldable pub read : ℕ → Run IoError MemReader Bytes
read n r =
    if n == 0
    then (ok [], r)
    else if leb (length r.buf) r.pos
    then (ok [], r)
    else let count = min n (length r.buf - r.pos) in
      (ok (take count (drop r.pos r.buf)), record r { pos = add_u64 r.pos count })

abbrev bad_seek : IoError
bad_seek =
    io_error ErrorKind.invalid_input
      "mem:// reader: seek resolves to a negative or overflowing position"

unfoldable pub add_signed : ℕ → ℤ → Result IoError ℕ
unfolding checked_add checked_sub
add_signed base (pos d) = ok_or (checked_add base d) bad_seek
add_signed base (negsuc d) = ok_or (checked_sub base (suc d)) bad_seek

-- The new position, from the length and the position.
unfoldable pub new_pos : ℕ → ℕ → SeekFrom → Result IoError ℕ
unfolding add_signed
new_pos len p (start n) = ok n
new_pos len p (from_end d) = add_signed len d
new_pos len p (current d) = add_signed p d

unfoldable pub seek_to : Result IoError ℕ → Run IoError MemReader ℕ
seek_to (ok q) r = (ok q, record r { pos = q })
seek_to (err e) r = (err e, r)

unfoldable pub seek : SeekFrom → Run IoError MemReader ℕ
unfolding new_pos seek_to
seek from r = seek_to (new_pos (length r.buf) r.pos from) r

unfoldable pub source : Source MemReader
unfolding read seek
source = record { read = read; seek = seek }
