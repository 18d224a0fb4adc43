-- ===== src/Fuzz/Drive.antt =====
-- fuzz/fuzz_targets/compose_open.rs, the third part: the opened URI and a cursor over the model are
-- driven by the same operations, and every observable must agree.
use oxideav_source.Prelude.{
  ℕ, zero, suc, ◌+◌, ◌-◌, ◌*◌, ◌%◌, Bool, true, false, [], ◌++◌, Bytes, String, leb, ◌==◌,
  if◌then◌else◌, length, is_empty, eq_bytes, u64_mod, Result, ok, err, Error, IoError, ErrorKind,
  io_error,
}
use oxideav_source.Source.{
  ℤ, pos, negsuc, SeekFrom, start, from_end, current, Run, ◌>>=◌, ◌>>◌, return, fail, on_err,
  Source,
}
use oxideav_source.Mem
use oxideav_source.Mem.{Table}
use oxideav_source.Open.{FileSystem, Cursor, cursor_new, Dyn, dyn_source, open_bytes}
use oxideav_source.Fuzz.Compose.{
  Script, new, assert, Draw, u8, u16, exhausted, below, Composition, level_of, build,
}

-- The `while` loop of `read_upto`, for the bytes that are left to fill; a round fills at least one,
-- so that as many rounds as bytes are enough.
module _ {S : Type 0} (src : Source S) where
  unfoldable pub fill : (rounds : ℕ) → ℕ → Run IoError S Bytes
  fill zero n = if n == 0 then return [] else fail (io_error (ErrorKind.other 0) "out of rounds")
  fill (suc rounds) n =
      let round = (do
        got ← src.read n
        let more = (do rest ← fill rounds (n - length got); return (got ++ rest))
        if is_empty got then return [] else more) in
      if n == 0 then return [] else round

  unfoldable pub read_upto : ℕ → Run IoError S Bytes
  unfolding fill
  read_upto n = fill n n

-- `-mag`
abbrev pub negated : ℕ → ℤ
negated zero = pos 0
negated (suc k) = negsuc k

-- `i64::MIN`
abbrev pub i64_min : ℤ
i64_min = negsuc 9223372036854775807

-- The targets of the three seeks, in a model of `len` bytes.
unfoldable pub start_from : ℕ → Draw SeekFrom
unfolding u8 below
start_from len = do
  x ← u8
  let far = (do y ← u8; return (start (u64_mod - 1 - y % 4)))
  let near = (do t ← below (len * 2 + 16); return (start t))
  if x % 16 == 0 then far else near

unfoldable pub current_delta : ℕ → ℕ → ℤ
current_delta mag n = if n == 0 then i64_min else if n % 2 == 0 then pos mag else negated mag

unfoldable pub end_delta : ℕ → ℕ → ℤ
end_delta mag x = if x % 2 == 0 then pos mag else negated mag

unfoldable pub current_from : ℕ → Draw SeekFrom
unfolding u8 below current_delta
current_from len = do mag ← below (len + 24); x ← u8; return (current (current_delta mag (x % 12)))

unfoldable pub end_from : ℕ → Draw SeekFrom
unfolding u8 below end_delta
end_from len = do mag ← below (len + 24); x ← u8; return (from_end (end_delta mag x))

-- The script, the opened source and the cursor over the model.
pub record Fuzzing (S : Type 0) : Type 0 where
  pub script : Script
  pub opened : S
  pub cur : Cursor

abbrev is_ok : {E A : Type 0} → Result E A → Bool
is_ok (ok a) = true
is_ok (err e) = false

abbrev eq_bool : Bool → Bool → Bool
eq_bool true b = b
eq_bool false true = false
eq_bool false false = true

module _ {S : Type 0} (src : Source S) where
  -- A part of the state moves on.
  abbrev pub on_script : {A : Type 0} → Draw A → Run String (Fuzzing S) A
  on_script m z = ((m z.script).0, record z { script = (m z.script).1 })

  abbrev pub on_opened : {E A : Type 0} → Run E S A → Run E (Fuzzing S) A
  on_opened m z = ((m z.opened).0, record z { opened = (m z.opened).1 })

  abbrev pub on_cur : {E A : Type 0} → Run E Cursor A → Run E (Fuzzing S) A
  on_cur m z = ((m z.cur).0, record z { cur = (m z.cur).1 })

  -- `expect`
  abbrev pub expect : {A : Type 0} → String → Run IoError (Fuzzing S) A → Run String (Fuzzing S) A
  expect message = on_err (λ _. message)

  -- The result as a value.
  abbrev pub attempt : {E A : Type 0} → Run E (Fuzzing S) A → Run String (Fuzzing S) (Result E A)
  attempt m z = (ok (m z).0, (m z).1)

  -- `if let (Ok(a), Ok(b)) = (got, want)`, and the assertion under it.
  abbrev pub same_position :
      {E D : Type 0} → Result E ℕ → Result D ℕ → Run String (Fuzzing S) (Unit {0})
  same_position (ok a) (ok b) = assert (a == b) "seek position"
  same_position (ok a) (err e) = return tt
  same_position (err e) want = return tt

  unfoldable pub read_both : ℕ → Run String (Fuzzing S) (Unit {0})
  unfolding read_upto Mem.source
  read_both n = do
    got ← expect "composite read" (on_opened (read_upto src n))
    want ← expect "model read" (on_cur (read_upto Mem.source n))
    assert (eq_bytes got want) "read bytes diverge"

  unfoldable pub seeks_agree :
      {E D : Type 0} → Result E ℕ → Result D ℕ → Run String (Fuzzing S) (Unit {0})
  seeks_agree got want = do
    assert (eq_bool (is_ok got) (is_ok want)) "seek ok-ness"
    same_position got want

  unfoldable pub seek_both : SeekFrom → Run String (Fuzzing S) (Unit {0})
  unfolding seeks_agree
  seek_both from = do
    got ← attempt (on_opened (src.seek from))
    want ← attempt (on_cur (Mem.seek from))
    seeks_agree got want

  unfoldable pub read_nothing : Run String (Fuzzing S) (Unit {0})
  unfolding read_upto
  read_nothing = do
    got ← expect "zero-sized read" (on_opened (read_upto src 0))
    assert (is_empty got) "zero-sized read must return no bytes"

  -- `stream_position` is `seek(SeekFrom::Current(0))`.
  unfoldable pub positions_agree : Run String (Fuzzing S) (Unit {0})
  positions_agree = do
    sp ← expect "composite stream_position" (on_opened (src.seek (current (pos 0))))
    mp ← expect "model stream_position" (on_cur (Mem.seek (current (pos 0))))
    assert (sp == mp) "positions diverge after op"

  -- The `match` on an operation. A read asks for less than `most` bytes: 300 in this target, and 4000
  -- in `buffered_model`, which has the same loop.
  unfoldable pub operation : (most : ℕ) → ℕ → ℕ → Run String (Fuzzing S) (Unit {0})
  unfolding u16 start_from current_from end_from read_both seek_both read_nothing
  operation most len k =
      if leb k 3
      then (do x ← on_script u16; read_both (x % most))
      else if k == 4
      then (do from ← on_script (start_from len); seek_both from)
      else if k == 5
      then (do from ← on_script (current_from len); seek_both from)
      else if k == 6
      then (do from ← on_script (end_from len); seek_both from)
      else read_nothing

  -- The `while` loop, with a script byte or more in every round.
  unfoldable pub drive : (most rounds : ℕ) → ℕ → Run String (Fuzzing S) (Unit {0})
  unfolding exhausted u8 operation positions_agree
  drive most zero len z = fail "out of rounds" z
  drive most (suc rounds) len z =
      let round = (do
        x ← on_script u8
        operation most len (x % 8)
        positions_agree
        drive most rounds len) in
      (if exhausted z.script then return tt else round) z

module _ {F : Type 0} (fs : FileSystem F) (table : Table) where
  -- `expect`, and what follows it.
  abbrev pub drive_opened :
      (c : Composition) → Script → Result Error (Dyn fs (level_of c.uri)) → Result String (Unit {0})
  drive_opened c sc (err e) = err "in-range composition must open"
  drive_opened c sc (ok src) =
      (drive (dyn_source fs (level_of c.uri)) 300 (suc (length sc.d)) (length c.model)
        (record { script = sc; opened = src; cur = cursor_new c.model })).0

  unfoldable pub open_and_drive : Composition → Script → Result String (Unit {0})
  unfolding open_bytes drive
  open_and_drive c sc = drive_opened c sc (open_bytes fs table (level_of c.uri) c.uri)

  abbrev pub drive_built : Result String Composition × Script → Result String (Unit {0})
  drive_built (ok c, sc) = open_and_drive c sc
  drive_built (err e, sc) = err e

  -- The whole target, on the fuzzer's bytes.
  unfoldable pub compose_open : Bytes → Result String (Unit {0})
  unfolding new build open_and_drive
  compose_open d = drive_built (build fs table (new d))
