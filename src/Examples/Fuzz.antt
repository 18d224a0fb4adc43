-- ===== src/Examples/Fuzz.antt =====
-- The fuzz targets, on a short input.
use oxideav_source.Prelude.{
  ℕ, ◌≡◌, refl, [], ◌∷◌, arith, Bytes, codes, String, ltb, if◌then◌else◌, Result, ok,
}
use oxideav_source.Mem
use oxideav_source.Mem.Reader
use oxideav_source.Mem.Reader.{MemReader-IsSource, new-Serves}
use oxideav_source.Open.{FileSystem}
use oxideav_source.Decimal.{print_u64}
use oxideav_source.Fuzz.Compose
use oxideav_source.Fuzz.Compose.{Composition, Script, build}
use oxideav_source.Fuzz.Draws.{Draws}
use oxideav_source.Fuzz.Drive.{compose_open, read_upto}
use oxideav_source.Fuzz.Landing.{IsFollower, source-IsFollower}
use oxideav_source.Fuzz.Buffered.{buffered_model}
use oxideav_source.Fuzz.Buffering.{buffered_model_passes}
use oxideav_source.Fuzz.Reading.{Fills, read_upto-Fills}
use oxideav_source.Fuzz.Composed.{IsComposed}
use oxideav_source.Fuzz.Composing.{build-Draws}
use oxideav_source.Fuzz.Passing.{compose_open_passes}
use oxideav_source.Fuzz.Parse.{uri_parse}
use oxideav_source.Fuzz.Contracts.{uri_parse_passes}

-- Files that are read as buffers; the targets open none.
abbrev some_files : FileSystem Mem.MemReader
some_files = record { open_at = λ path. ok (Mem.new path); device = Mem.source }

-- A leaf of "ABC" in the percent form, two steps (another leaf "d" in front, in base64; the window
-- of two bytes from the first on), and then a read, two seeks and an empty read.
abbrev input : Bytes
input =
    3 ∷ 0 ∷ 65 ∷ 66 ∷ 67 ∷ 0 ∷ 2 ∷ 2 ∷ 1 ∷ 0 ∷ 100 ∷ 1 ∷ 1 ∷ 0 ∷ 1 ∷ 0 ∷ 2 ∷ 0 ∷ 0 ∷ 1 ∷ 0 ∷ 4 ∷ 1
    ∷ 5 ∷ 0 ∷ 5 ∷ 1 ∷ 0 ∷ 1 ∷ 7 ∷ []

abbrev built : Result String Composition
unfolding build Compose.new
built = (build some_files [] (Compose.new input)).0

built_text :
    built
    ≡ ok (record {
      uri = codes "slice:1+2!concat:data:;base64,ZA==|data:,%41%42%43";
      model = codes "AB";
    })
unfolding built print_u64
built_text = refl

compose_open_passes_example : compose_open some_files [] input ≡ ok tt
compose_open_passes_example = compose_open_passes some_files [] input (omega arith)

-- A conversion that replaces every byte that is not ASCII by U+FFFD.
abbrev replaced : ℕ → Bytes → Bytes
replaced b rest = if ltb b 128 then b ∷ rest else 239 ∷ 191 ∷ 189 ∷ rest

abbrev ascii_lossy : Bytes → Bytes
ascii_lossy [] = []
ascii_lossy (b ∷ s) = replaced b (ascii_lossy s)

uri_parse_passes_example : uri_parse ascii_lossy (codes "slice:0+5!data:,a%62c") ≡ ok tt
uri_parse_passes_example =
    uri_parse_passes ascii_lossy (codes "slice:0+5!data:,a%62c") (omega arith)

build-Draws_example : Draws (IsComposed some_files [] 4096) (build some_files [])
build-Draws_example = build-Draws some_files []

abbrev mem_follows : IsFollower Mem.source Mem.Reader.Serves
mem_follows = source-IsFollower Mem.source Mem.Reader.Serves MemReader-IsSource

read_upto-Fills_example :
    Fills Mem.source Mem.Reader.Serves mem_follows
      (codes "hello")
      0
      9
      (read_upto Mem.source 9 (Mem.new (codes "hello")))
read_upto-Fills_example =
    read_upto-Fills Mem.source Mem.Reader.Serves mem_follows (codes "hello") 9 0
      (Mem.new (codes "hello")) (new-Serves (codes "hello") (omega arith))

-- A ring of 16384 bytes (both knobs are raised to their least), a payload of three, a read of two
-- bytes and a seek to the end.
buffered_model_passes_example :
    buffered_model 1 (1 ∷ 0 ∷ 1 ∷ 0 ∷ 3 ∷ 2 ∷ 3 ∷ 0 ∷ 9 ∷ 0 ∷ 2 ∷ 0 ∷ 6 ∷ 0 ∷ 0 ∷ 0 ∷ []) ≡ ok tt
buffered_model_passes_example =
    buffered_model_passes 1 (1 ∷ 0 ∷ 1 ∷ 0 ∷ 3 ∷ 2 ∷ 3 ∷ 0 ∷ 9 ∷ 0 ∷ 2 ∷ 0 ∷ 6 ∷ 0 ∷ 0 ∷ 0 ∷ [])
      (omega arith)
