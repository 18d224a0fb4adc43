-- ===== src/Source.antt =====
-- The trait `BytesSource` (`Read + Seek`) that every reader implements, and what a reader promises:
-- to serve a fixed content from a position. `read` on a buffer of `n` bytes returns the bytes that
-- it writes there; both operations return the reader's next state, on errors too.
use oxideav_source.Prelude.{
  ℕ, suc, ◌+◌, ◌-◌, ◌≤◌, ◌<◌, ◌≡◌, Option, none, some, Bytes, arith, ltb, leb, if◌then◌else◌,
  length, take, drop, u64_mod, Result, ok, err, map_err, IoError, ErrorKind, io_error, String,
}

-- `i64`
pub data ℤ : Type 0 where
  pos : ℕ → ℤ
  negsuc : ℕ → ℤ

pub data SeekFrom : Type 0 where
  start : ℕ → SeekFrom
  from_end : ℤ → SeekFrom
  current : ℤ → SeekFrom

-- `u64::checked_add` and `u64::checked_sub`
unfoldable pub checked_add : ℕ → ℕ → Option ℕ
checked_add a b = if ltb (a + b) u64_mod then some (a + b) else none

unfoldable pub checked_sub : ℕ → ℕ → Option ℕ
checked_sub a b = if leb b a then some (a - b) else none

pub checked_add-some : (a b : ℕ) → a + b < u64_mod → checked_add a b ≡ some (a + b)
unfolding checked_add
checked_add-some a b h = ground arith

pub checked_add-none : (a b : ℕ) → u64_mod ≤ a + b → checked_add a b ≡ none
unfolding checked_add
checked_add-none a b h = ground arith

-- A computation on a state, which may fail: the state moves on in both cases.
abbrev pub Run : Type 0 → Type 0 → Type 0 → Type 0
Run E S A = S → Result E A × S

module _ {E S A B : Type 0} where
  abbrev pub and_then : Result E A × S → (A → Run E S B) → Result E B × S
  and_then (ok a, s) f = f a s
  and_then (err e, s) f = (err e, s)

infixl 5 ◌>>=◌ ◌>>◌
abbrev pub ◌>>=◌ : {E S A B : Type 0} → Run E S A → (A → Run E S B) → Run E S B
◌>>=◌ m f s = and_then (m s) f

abbrev pub ◌>>◌ : {E S B : Type 0} → Run E S (Unit {0}) → Run E S B → Run E S B
m >> k = m >>= λ _. k

abbrev pub return : {E S A : Type 0} → A → Run E S A
return a s = (ok a, s)

abbrev pub fail : {E S A : Type 0} → E → Run E S A
fail e s = (err e, s)

-- `map_err`
abbrev pub on_err : {E F S A : Type 0} → (E → F) → Run E S A → Run F S A
on_err f m s = (map_err f (m s).0, (m s).1)

-- The operations of a reader.
pub record Source (S : Type 0) : Type 0 where
  pub read : ℕ → Run IoError S Bytes
  pub seek : SeekFrom → Run IoError S ℕ

-- An offset from a base; `none` below zero and above `u64`.
unfoldable pub offset_by : ℕ → ℤ → Option ℕ
unfolding checked_add checked_sub
offset_by base (pos d) = checked_add base d
offset_by base (negsuc d) = checked_sub base (suc d)

-- Where a seek leads in a content of `len` bytes, from a position.
unfoldable pub target : ℕ → ℕ → SeekFrom → Option ℕ
target len p (start n) = some n
target len p (from_end d) = offset_by len d
target len p (current d) = offset_by p d

-- What a reader promises, given what it means that a state serves a content from a position, and
-- the errors that its device may raise.
module _ {S : Type 0} (Serves : S → Bytes → ℕ → Type 0) (Raises : IoError → Type 0) (c : Bytes)
    (p : ℕ) where
  -- A read of `k ≤ n` bytes from the position on; it is empty only for an empty buffer and at the end.
  pub data Reads (n : ℕ) : Result IoError Bytes × S → Type 0 where
    got :
        (k : ℕ) (s : S)
        → k ≤ n
        → k ≤ length c - p
        → (0 < n → p < length c → 0 < k)
        → Serves s c (p + k)
        → Reads n (ok (take k (drop p c)), s)
    failed : (e : IoError) (s : S) → Raises e → Serves s c p → Reads n (err e, s)

  -- A seek leads to its target; without one it is refused, and the position stays.
  pub data Seeks (from : SeekFrom) : Result IoError ℕ × S → Type 0 where
    moved :
        (q : ℕ) (s : S) → target (length c) p from ≡ some q → Serves s c q → Seeks from (ok q, s)
    refused :
        (m : String) (s : S)
        → target (length c) p from ≡ none
        → Serves s c p
        → Seeks from (err (io_error ErrorKind.invalid_input m), s)
    broken : (e : IoError) (s : S) → Raises e → Serves s c p → Seeks from (err e, s)

pub record IsSource {S : Type 0} (src : Source S) (Serves : S → Bytes → ℕ → Type 0)
    (Raises : IoError → Type 0) : Type 0 where
  pub bounded : (s : S) (c : Bytes) (p : ℕ) → Serves s c p → length c < u64_mod
  pub reads :
      (s : S) (c : Bytes) (p n : ℕ) → Serves s c p → Reads Serves Raises c p n (src.read n s)
  pub seeks :
      (s : S) (c : Bytes) (p : ℕ) (from : SeekFrom)
      → Serves s c p
      → Seeks Serves Raises c p from (src.seek from s)

-- A reader without a device raises no error of its own.
abbrev pub Never : IoError → Type 0
Never _ = ⊥
