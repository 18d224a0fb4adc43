-- ===== src/Mem/Table.antt =====
-- src/mem.rs: what `put`, `remove` and `clear` leave in the table, seen through `open_mem`.
use oxideav_source.Prelude.{
  ◌≡◌, ◌↔◌, refl, sym, ◌∙◌, false, [], ◌∷◌, ◌++◌, none, some, arith, Bytes, codes, if◌then◌else◌,
  is_empty, contains, eq_bytes, eq_bytes_sound, eq_bytes_refl, ok, err, ◌>>=◌, ok_or,
}
use oxideav_source.Uri.Split.{split-scheme, strip_slashes-slashes}
use oxideav_source.Mem.{Table, get, without, put, remove, clear, new, open_mem, not_registered}

get-without :
    (i j : Bytes) (t : Table) → get j (without i t) ≡ (if eq_bytes i j then none else get j t)
unfolding get without
get-without i j [] = ground arith
get-without i j ((k, v) ∷ t) = ground (
  arith,
  get-without i j t,
  eq_bytes_sound k i,
  eq_bytes_sound k j,
  eq_bytes_sound i j,
  eq_bytes_refl i,
  eq_bytes_refl j,
  eq_bytes_refl k,
)

-- A lookup after `put`: the new buffer under its id, and every other entry as it was.
pub get-put :
    (i j v : Bytes) (t : Table) → get j (put i v t) ≡ (if eq_bytes i j then some v else get j t)
unfolding put get
get-put i j v t = ground (arith, get-without i j t)

-- The ids that an URI can name.
abbrev pub IsId : Bytes → Type 0
IsId id = (is_empty id ≡ false) × (contains b'/' id ≡ false)

open_mem_lem :
    (t : Table) (id : Bytes)
    → IsId id
    → open_mem t (codes "mem://" ++ id) ≡ (ok_or (get id t) not_registered >>= λ b. ok (new b))
unfolding open_mem
open_mem_lem t id (given, no_slash) = rw (
  split-scheme (codes "mem") (codes "//" ++ id) refl refl,
  strip_slashes-slashes id,
  given,
  no_slash,
)

-- For a non-empty id `j` without a slash, opening `mem://j` after a buffer was put at `i` gives a
-- reader of the new buffer at its start if the ids are the same, and what an open gave before the
-- put if they are not.
pub open_mem-put :
    (t : Table) (i j v : Bytes)
    → IsId j
    → open_mem (put i v t) (codes "mem://" ++ j)
      ≡ (if eq_bytes i j then ok (new v) else open_mem t (codes "mem://" ++ j))
open_mem-put t i j v h =
    rw (open_mem_lem (put i v t) j h, open_mem_lem t j h, get-put i j v t) (ground arith)

-- For a non-empty id `j` without a slash, opening `mem://j` after `remove(i)` is a `NotFound`
-- error if the ids are the same, and what an open gave before if they are not; and `remove(j)`
-- reports that there was no buffer if and only if an open of `mem://j` gives that error.
pub open_mem-remove :
    (t : Table) (i j : Bytes)
    → IsId j
    → (open_mem (remove i t).0 (codes "mem://" ++ j)
        ≡ (if eq_bytes i j then err not_registered else open_mem t (codes "mem://" ++ j)))
      × (((remove j t).1 ≡ false) ↔ (open_mem t (codes "mem://" ++ j) ≡ err not_registered))
unfolding remove
open_mem-remove t i j h = (
  rw (open_mem_lem (without i t) j h, open_mem_lem t j h, get-without i j t) (ground arith),
  (λ f. rw (open_mem_lem t j h) (ground arith), λ f. absent (sym (open_mem_lem t j h) ∙ f)),
)
  where
    absent :
        (ok_or (get j t) not_registered >>= λ b. ok (new b)) ≡ err not_registered
        → (remove j t).1 ≡ false
    absent f = ground arith

-- For a non-empty id `j` without a slash, opening `mem://j` after `clear` is a `NotFound` error.
open_mem-clear :
    (t : Table) (j : Bytes) → IsId j → open_mem (clear t) (codes "mem://" ++ j) ≡ err not_registered
unfolding clear
open_mem-clear t j h = open_mem_lem [] j h ∙ (unfold get in refl)
