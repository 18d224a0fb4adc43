-- ===== src/Examples/Readers.antt =====
-- The theorems on readers, over buffers of the `mem://` table.
use oxideav_source.Prelude.{
  Option, none, subst, ok-injective, length, ◌<◌, u64_mod, ℕ, ◌≡◌, ◌↔◌, refl, false, [], ◌∷◌, ◌++◌,
  Bytes, codes, arith, some, eq_bytes, if◌then◌else◌, ok, err,
}
use oxideav_source.Source.{IsSource, Never}
use oxideav_source.Mem.{Table, MemReader, get, put, remove, clear, open_mem, not_registered}
use oxideav_source.Mem
use oxideav_source.Mem.Reader.{MemReader-IsSource, new-Serves}
use oxideav_source.Mem.Table.{open_mem-put, open_mem-remove}
use oxideav_source.Sub
use oxideav_source.Sub.Window.{Windows, SubSource-IsSource}
use oxideav_source.Sub.Make.{Made, SubSource-new-Made}
use oxideav_source.ConcatReader
use oxideav_source.ConcatReader.Reading.{Joins}
use oxideav_source.ConcatReader.Laws.{ConcatSource-IsSource}
use oxideav_source.ConcatReader.Make.{ConcatSource-new-Made}
use oxideav_source.Open.{FileSystem, dyn_source, open_bytes}
use oxideav_source.Uri.{split}
use oxideav_source.Open.Registry.{
  Registry, IsRegistry, Opener, dispatch, with_defaults, with_defaults-open_bytes,
}
use oxideav_source.Open.Leaves.{Outcome}
use oxideav_source.Open.Outcomes.{open_bytes-Outcome}
use oxideav_source.Open.Boxes.{ServesDyn, Dyn-IsSource}

abbrev Served : MemReader → Bytes → ℕ → Type 0
Served = Mem.Reader.Serves

open_mem-put_example : open_mem (put (codes "a") (codes "new") []) (codes "mem://" ++ codes "a") ≡ (
    if eq_bytes (codes "a") (codes "a")
    then ok (Mem.new (codes "new"))
    else open_mem [] (codes "mem://" ++ codes "a"))
open_mem-put_example = open_mem-put [] (codes "a") (codes "a") (codes "new") (refl, refl)

open_mem-remove_example :
    (open_mem (remove (codes "a") ((codes "a", codes "old") ∷ [])).0 (codes "mem://" ++ codes "b")
      ≡ (if eq_bytes (codes "a") (codes "b")
          then err not_registered
          else open_mem ((codes "a", codes "old") ∷ []) (codes "mem://" ++ codes "b")))
    × (((remove (codes "b") ((codes "a", codes "old") ∷ [])).1 ≡ false) ↔ (
        open_mem ((codes "a", codes "old") ∷ []) (codes "mem://" ++ codes "b")
        ≡ err not_registered))
open_mem-remove_example =
    open_mem-remove ((codes "a", codes "old") ∷ []) (codes "a") (codes "b") (refl, refl)

SubSource-IsSource_example :
    IsSource (Sub.source Mem.source) (Windows Mem.source Served Never MemReader-IsSource) Never
SubSource-IsSource_example = SubSource-IsSource Mem.source Served Never MemReader-IsSource

SubSource-new-Made_example :
    Made Mem.source Served Never MemReader-IsSource
      (codes "Hello")
      1
      3
      (Sub.new Mem.source (Mem.new (codes "Hello")) 1 3)
SubSource-new-Made_example =
    SubSource-new-Made Mem.source Served Never MemReader-IsSource (codes "Hello") 1 3
      (Mem.new (codes "Hello")) 0 (omega arith) (new-Serves (codes "Hello") (omega arith))

ConcatSource-IsSource_example :
    IsSource
      (ConcatReader.source Mem.source)
      (Joins Mem.source Served Never MemReader-IsSource)
      Never
ConcatSource-IsSource_example = ConcatSource-IsSource Mem.source Served Never MemReader-IsSource

ConcatSource-new-Made_example :
    ConcatReader.Make.Made Mem.source Served Never MemReader-IsSource
      (codes "Hel" ∷ [] ∷ codes "lo" ∷ [])
      (ConcatReader.new Mem.source (Mem.new (codes "Hel") ∷ Mem.new [] ∷ Mem.new (codes "lo") ∷ []))
ConcatSource-new-Made_example =
    ConcatSource-new-Made Mem.source Served Never MemReader-IsSource
      (Mem.new (codes "Hel") ∷ Mem.new [] ∷ Mem.new (codes "lo") ∷ [])
      (codes "Hel" ∷ [] ∷ codes "lo" ∷ [])
      (
        (0, new-Serves (codes "Hel") (omega arith)),
        ((0, new-Serves [] (omega arith)), ((0, new-Serves (codes "lo") (omega arith)), tt)),
      )

-- Files that are buffers: every path opens the same one.
abbrev files : FileSystem MemReader
files = record { open_at = λ path. ok (Mem.new (codes "Hello")); device = Mem.source }

Dyn-IsSource_example :
    IsSource (dyn_source files 3) (ServesDyn files Served Never MemReader-IsSource 3) Never
Dyn-IsSource_example = Dyn-IsSource files Served Never MemReader-IsSource 3

abbrev buffers : Table
buffers = (codes "a", codes "old") ∷ []

fresh_file : (path : Bytes) (f : MemReader) → files.open_at path ≡ ok f → (c : Bytes) × Served f c 0
fresh_file path f e = (
  codes "Hello",
  subst (λ (x : MemReader). Served x (codes "Hello") 0) (ok-injective e)
      (new-Serves (codes "Hello") (omega arith)),
)

small_buffers : (id b : Bytes) → get id buffers ≡ some b → length b < u64_mod
unfolding get
small_buffers id b e = ground arith

open_bytes-Outcome_example :
    Outcome files buffers Served Never MemReader-IsSource 40
      (codes "concat:slice:1+3!/tmp/x|mem://a")
      (open_bytes files buffers 40 (codes "concat:slice:1+3!/tmp/x|mem://a"))
open_bytes-Outcome_example =
    open_bytes-Outcome files buffers Served Never MemReader-IsSource fresh_file small_buffers 40
      (codes "concat:slice:1+3!/tmp/x|mem://a") (omega arith) (omega arith)

-- A registry that is a function from schemes to openers.
abbrev DynOpener : Type 0
DynOpener = Opener files buffers 2

abbrev registry : Registry DynOpener (Bytes → Option DynOpener)
registry = record {
  new = λ k. none;
  register_bytes = λ k o r. λ j. if eq_bytes j k then some o else r j;
  lookup = λ j r. r j;
}

registry-IsRegistry : IsRegistry registry
registry-IsRegistry = record { empty = λ k. refl; registered = λ j k o r. refl }

with_defaults-open_bytes_example :
    open_bytes files buffers 3 (codes "mem://a")
    ≡ dispatch files buffers 2
        (registry.lookup (split (codes "mem://a")).0 (with_defaults files buffers 2 registry))
        (codes "mem://a")
with_defaults-open_bytes_example =
    with_defaults-open_bytes files buffers 2 registry registry-IsRegistry (codes "mem://a")
      (unfold split in (refl, (refl, (refl, tt))))
