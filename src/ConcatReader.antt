-- ===== src/ConcatReader.antt =====
-- src/concat.rs, `ConcatSource`: several sources presented as one. (The URI is in Concat.)
pub mod Segments
pub mod Reading
pub mod Laws
pub mod Make
use oxideav_source.Prelude.{
  ℕ, zero, suc, ◌+◌, ◌-◌, min, Bool, ◌&&◌, List, [], ◌∷◌, Option, some, none, Bytes, ltb, leb, ◌==◌,
  if◌then◌else◌, add_u64, length, get_or, get_elem?, set, last_or, ok_or, Result, ok, err, Error,
  invalid, io, IoError, ErrorKind, io_error,
}
use oxideav_source.Source.{
  ℤ, pos, negsuc, SeekFrom, start, from_end, current, checked_add, checked_sub, Run, ◌>>=◌, Source,
}

pub record ConcatSource (S : Type 0) : Type 0 where
  pub parts : List S
  pub starts : List ℕ
  pub pos : ℕ

abbrev pub bad_seek : IoError
bad_seek =
    io_error ErrorKind.invalid_input "concat: seek resolves to a negative or overflowing position"

unfoldable pub add_signed : ℕ → ℤ → Result IoError ℕ
unfolding checked_add checked_sub
add_signed base (pos d) = ok_or (checked_add base d) bad_seek
add_signed base (negsuc d) = ok_or (checked_sub base (suc d)) bad_seek

abbrev pub overflows : Error
overflows = invalid "concat: total length overflows u64"

-- `(i..i + k).find(p)`
unfoldable pub find_from : (ℕ → Bool) → ℕ → ℕ → Option ℕ
find_from p i zero = none
find_from p i (suc k) = let rest = find_from p (suc i) k in if p i then some i else rest

-- `pos >= self.starts[i] && pos < self.starts[i + 1]`
abbrev pub holds : List ℕ → ℕ → ℕ → Bool
holds starts p i = leb (get_or starts i 0) p && ltb p (get_or starts (suc i) 0)

module _ {S : Type 0} where
  unfoldable pub total_len : ConcatSource S → ℕ
  total_len w = last_or w.starts 0

  unfoldable pub segment_for : ConcatSource S → ℕ → Option ℕ
  unfolding total_len find_from
  segment_for w p =
      if leb (total_len w) p then none else find_from (holds w.starts p) 0 (length w.parts)

  unfoldable pub new_pos : ConcatSource S → SeekFrom → Result IoError ℕ
  unfolding add_signed total_len
  new_pos w (start off) = ok off
  new_pos w (from_end off) = add_signed (total_len w) off
  new_pos w (current off) = add_signed w.pos off

  unfoldable pub seek_to : Result IoError ℕ → Run IoError (ConcatSource S) ℕ
  seek_to (ok q) w = (ok q, record w { pos = q })
  seek_to (err e) w = (err e, w)

  unfoldable pub seek : SeekFrom → Run IoError (ConcatSource S) ℕ
  unfolding new_pos seek_to
  seek from w = seek_to (new_pos w from) w

  -- What a read of the segment `idx` leaves in the composite.
  unfoldable pub advance :
      ConcatSource S → ℕ → Result IoError Bytes × S → Result IoError Bytes × ConcatSource S
  advance w idx (ok bytes, part) =
      (ok bytes, record w { parts = set w.parts idx part; pos = add_u64 w.pos (length bytes) })
  advance w idx (err e, part) = (err e, record w { parts = set w.parts idx part })

module _ {S : Type 0} where
  -- What the first seek leaves, and the value made of the parts and the table.
  abbrev pub rewound : List S → Result IoError ℕ × S → Result Error (List S)
  rewound rest (err e, _) = err (io e)
  rewound rest (ok _, first) = ok (first ∷ rest)

  abbrev pub composite : List ℕ → Result Error (List S) → Result Error (ConcatSource S)
  composite starts (err e) = err e
  composite starts (ok parts) = ok (record { parts = parts; starts = starts; pos = 0 })

-- An index out of bounds is a panic in the source; `segment_for` returns none.
abbrev pub out_of_bounds : IoError
out_of_bounds = io_error (ErrorKind.other 0) "index out of bounds"

module _ {S : Type 0} (src : Source S) where
  -- The loop of `new` from the accumulated length `acc` on: the rest of `starts`, its trailing
  -- total included, and the parts after their seeks.
  unfoldable pub measure : List S → ℕ → Result Error (List ℕ × List S)
  unfolding checked_add
  measure [] acc = ok (acc ∷ [], [])
  measure (part ∷ rest) acc =
      let later = measure rest in
      elim (src.seek (from_end (pos 0)) part).0 [
        | err e ↦ err (io e)
        | ok len ↦ elim (checked_add acc len) [
          | none ↦ err overflows
          | some total ↦ elim (later total) [
            | err e ↦ err e
            | ok m ↦ ok (acc ∷ m.0, (src.seek (from_end (pos 0)) part).1 ∷ m.1)
          ]
        ]
      ]

  -- `if let Some(first) = parts.first_mut()`
  unfoldable pub rewind_first : List S → Result Error (List S)
  rewind_first [] = ok []
  rewind_first (first ∷ rest) = rewound rest (src.seek (start 0) first)

  unfoldable pub rewind_measured : Result Error (List ℕ × List S) → Result Error (ConcatSource S)
  unfolding rewind_first
  rewind_measured (err e) = err e
  rewind_measured (ok (starts, parts)) = composite starts (rewind_first parts)

  unfoldable pub new : List S → Result Error (ConcatSource S)
  unfolding measure rewind_measured
  new parts = rewind_measured (measure parts 0)

  -- `part.seek(..)?`, then `part.read(..)?`.
  unfoldable pub read_part : ℕ → ℕ → Run IoError S Bytes
  read_part intra want = do _ ← src.seek (start intra); src.read want

  unfoldable pub read_segment : ℕ → ℕ → Run IoError (ConcatSource S) Bytes
  unfolding read_part advance
  read_segment n idx w =
      let seg_start = get_or w.starts idx 0 in
      let seg_end = get_or w.starts (suc idx) 0 in
      let intra = w.pos - seg_start in
      let remaining_in_seg = seg_end - w.pos in
      let want = min n remaining_in_seg in
      elim (get_elem? w.parts idx) [
        | none ↦ (err out_of_bounds, w)
        | some part ↦ advance w idx (read_part intra want part)
      ]

  unfoldable pub read : ℕ → Run IoError (ConcatSource S) Bytes
  unfolding segment_for read_segment
  read n w =
      if n == 0
      then (ok [], w)
      else elim (segment_for w w.pos) [ none ↦ (ok [], w) | some idx ↦ read_segment n idx w ]

unfoldable pub source : {S : Type 0} → Source S → Source (ConcatSource S)
unfolding read seek
source src = record { read = read src; seek = seek }
