-- ===== src/Examples/Buffered.antt =====
-- The theorems on the read-ahead reader, over a buffer of the `mem://` table and a broken device.
use oxideav_source.Prelude.{
  inr, none, [], ◌∷◌, List, ℕ, ◌<◌, ◌≡◌, refl, sym, subst, ◌++◌, Bytes, codes, arith, length, take,
  drop, u64_mod, some, none, ok, err, IoError, ErrorKind, io_error,
}
use oxideav_source.Source.{Source, IsSource, failed, broken, Never}
use oxideav_source.Mem.{MemReader}
use oxideav_source.Mem
use oxideav_source.Mem.Reader.{MemReader-IsSource, new-Serves}
use oxideav_source.Buffered.Ring.{rear, copy_out}
use oxideav_source.Buffered.Builder.{built, build, new}
use oxideav_source.Buffered.Reader.{rounds, attempt, hit}
use oxideav_source.Buffered.System.{
  go_on, Event, nothing, System, reads, Choice, call_read, call_drop, work, Next, step, spawn, Step,
  takes, Reach, at_once, later,
}
use oxideav_source.Buffered.Copy.{copy_out_lem}
use oxideav_source.Buffered.Knobs.{rear-lt-capacity}
use oxideav_source.Buffered.Attempts.{Tried, attempt-Tried}
use oxideav_source.Buffered.Contract.{SystemOk, Behaves}
use oxideav_source.Buffered.Reachable.{
  Built, build-Built, built-SystemOk, Reach-SystemOk, Reach-Behaves,
}
use oxideav_source.Buffered.Delivery.{Trace, stops, goes_on, delivered, Covers, Trace-Covers}
use oxideav_source.Buffered.Progress.{Within}
use oxideav_source.Buffered.Blocking.{blocking_read}
use oxideav_source.Buffered.Completing.{Completes, blocking_read-Completes}
use oxideav_source.Buffered.Stopping.{HasReturned, drop-Within}
use oxideav_source.Buffered.Waking.{IsUninterrupted, IsTold, waiting-Within}
use oxideav_source.Buffered.Replying.{Replies, go_on-Replies}
use oxideav_source.Buffered.Sticky.{dead_read}
use oxideav_source.Buffered.Lookback.{Keeps, hit-Keeps}

abbrev hello : Bytes
hello = codes "Hello"

abbrev Served : MemReader → Bytes → ℕ → Type 0
Served = Mem.Reader.Serves

-- The state behind a step, or the one before where there is no such step.
abbrev behind : {S : Type 0} → System S → Next S → System S
behind s none = s
behind s (some (e, t)) = t

abbrev after : Choice → System MemReader → System MemReader
after ch s = behind s (step Mem.source ch s)

abbrev begun : System MemReader
begun = spawn (built new 0 (length hello)) (Mem.new hello)

begun-SystemOk : SystemOk Served Never hello begun
begun-SystemOk =
    built-SystemOk Mem.source Served Never MemReader-IsSource hello (omega arith) new
      (unfold new in omega arith) 0 (omega arith) (Mem.new hello) (new-Serves hello (omega arith))

build-Built_example :
    Built Mem.source Served Never MemReader-IsSource hello
      (omega arith)
      0
      (build Mem.source new (Mem.new hello))
build-Built_example =
    build-Built Mem.source Served Never MemReader-IsSource hello (omega arith) new
      (unfold new in omega arith) 0 (omega arith) (Mem.new hello) (new-Serves hello (omega arith))

-- The worker has read the content into the ring.
abbrev filled : System MemReader
filled = after work (after work (after work begun))

begun-filled : Reach Mem.source begun filled
unfolding step spawn built new
begun-filled =
    later (later (later at_once (takes work tt refl)) (takes work tt refl)) (takes work tt refl)

Reach-SystemOk_example : SystemOk Served Never hello filled
Reach-SystemOk_example =
    Reach-SystemOk Mem.source Served Never MemReader-IsSource hello (omega arith) begun filled
      begun-SystemOk begun-filled

filled-read : Step Mem.source filled (reads 3 (ok (codes "Hel"))) (after (call_read 3 2) filled)
unfolding step spawn built new rounds Mem.source Mem.new
filled-read = takes (call_read 3 2) tt refl

Reach-Behaves_example : Behaves Never hello 0 (reads 3 (ok (codes "Hel"))) 3
unfolding step spawn built new rounds Mem.source Mem.new
Reach-Behaves_example =
    Reach-Behaves Mem.source Served Never MemReader-IsSource hello (omega arith) begun filled
      (after (call_read 3 2) filled) (reads 3 (ok (codes "Hel"))) begun-SystemOk begun-filled
      filled-read

never_quiet : IsUninterrupted Never
never_quiet e h = absurd h

-- Two reads behind the worker's steps.
abbrev first_read : System MemReader
first_read = after (call_read 3 2) filled

abbrev second_read : System MemReader
second_read = after (call_read 9 2) first_read

abbrev seen : List Event
seen = nothing ∷ nothing ∷ nothing ∷ reads 3 (ok (codes "Hel")) ∷ reads 9 (ok (codes "lo")) ∷ []

begun-second_read : Trace Mem.source begun seen second_read
unfolding step spawn built new rounds Mem.source Mem.new
begun-second_read = goes_on (takes work tt refl) (
    goes_on (takes work tt refl) (
      goes_on (takes work tt refl)
        (goes_on (takes (call_read 3 2) tt refl) (goes_on (takes (call_read 9 2) tt refl) stops))))

Trace-Covers_example : Covers Never hello begun.pos second_read.pos (delivered seen)
Trace-Covers_example =
    Trace-Covers Mem.source Served Never MemReader-IsSource hello (omega arith) begun second_read
      seen begun-SystemOk begun-second_read (tt, (tt, (tt, (tt, (tt, tt)))))

-- The reader waits for the first bytes.
abbrev hungry : System MemReader
hungry = after (call_read 3 0) begun

hungry-SystemOk : SystemOk Served Never hello hungry
unfolding step spawn rounds built new
hungry-SystemOk =
    Reach-SystemOk Mem.source Served Never MemReader-IsSource hello (omega arith) begun hungry
      begun-SystemOk (later at_once (takes (call_read 3 0) tt refl))

waiting-Within_example :
    Within Mem.source
      (IsTold Mem.source Served Never MemReader-IsSource hello never_quiet 3
        (hungry.ring.target_pos ≡ none))
      5
      hungry
unfolding step spawn rounds built new
waiting-Within_example =
    waiting-Within Mem.source Served Never MemReader-IsSource hello never_quiet 3 hungry
      hungry-SystemOk refl

-- The worker has put bytes in the ring that the reader waits on.
abbrev fed : System MemReader
fed = after work (after work (after work hungry))

fed-SystemOk : SystemOk Served Never hello fed
unfolding step spawn rounds built new Mem.source Mem.new
fed-SystemOk =
    Reach-SystemOk Mem.source Served Never MemReader-IsSource hello (omega arith) hungry fed
      hungry-SystemOk
      (later (later (later at_once (takes work tt refl)) (takes work tt refl)) (takes work tt refl))

go_on-Replies_example : Replies Never hello 3 fed.pos (step Mem.source (go_on 0) fed)
unfolding step spawn rounds built new Mem.source Mem.new
go_on-Replies_example =
    go_on-Replies Mem.source Served Never hello (omega arith) fed fed-SystemOk 3
      (inr (inr (omega arith))) 0 refl

-- The reader is dropped while the worker reads.
abbrev abandoned : System MemReader
abandoned = after call_drop (after work begun)

abandoned-SystemOk : SystemOk Served Never hello abandoned
unfolding step spawn
abandoned-SystemOk =
    Reach-SystemOk Mem.source Served Never MemReader-IsSource hello (omega arith) begun abandoned
      begun-SystemOk (later (later at_once (takes work tt refl)) (takes call_drop tt refl))

drop-Within_example : Within Mem.source (HasReturned Mem.source) 3 abandoned
unfolding step spawn
drop-Within_example = drop-Within Mem.source Served Never hello abandoned abandoned-SystemOk refl

attempt-Tried_example : Tried Never hello 3 0 filled.ring (attempt 2 3 0 filled.ring)
unfolding step spawn built new
attempt-Tried_example =
    attempt-Tried Never hello (omega arith) 2 3 (omega arith) 0 filled.ring
      Reach-SystemOk_example.ring Reach-SystemOk_example.at

copy_out_lem_example :
    copy_out (codes "Hel") (codes "lo") 1 3 ≡ take 3 (drop 1 (codes "Hel" ++ codes "lo"))
copy_out_lem_example = copy_out_lem (codes "Hel") (codes "lo") 1 3

rear-lt-capacity_example : rear begun.ring < begun.ring.capacity
unfolding spawn built new
rear-lt-capacity_example = rear-lt-capacity begun.ring (omega arith) (omega arith)

hit-Keeps_example : Keeps Never hello (omega arith) filled.ring (hit 2 3 0 filled.ring)
unfolding step spawn built new Mem.source Mem.new
hit-Keeps_example =
    hit-Keeps Never hello (omega arith) 2 3 0 filled.ring Reach-SystemOk_example.ring
      Reach-SystemOk_example.at (omega arith)

-- A device on which every call fails.
abbrev unplugged : IoError
unplugged = io_error ErrorKind.timed_out "unplugged"

abbrev broken_device : Source (Unit {0})
broken_device = record { read = λ n s. (err unplugged, s); seek = λ from s. (err unplugged, s) }

abbrev Holds : Unit {0} → Bytes → ℕ → Type 0
Holds s c p = c ≡ hello

abbrev IsUnplugged : IoError → Type 0
IsUnplugged e = e ≡ unplugged

broken_device-IsSource : IsSource broken_device Holds IsUnplugged
broken_device-IsSource = record {
  bounded = λ s c p h. subst (λ c. length c < u64_mod) (sym h) (omega arith);
  reads = λ s c p n h. failed unplugged s refl h;
  seeks = λ s c p from h. broken unplugged s refl h;
}

abbrev fresh : System (Unit {0})
fresh = spawn (built new 0 (length hello)) tt

abbrev works : System (Unit {0}) → System (Unit {0})
works s = behind s (step broken_device work s)

-- The worker has met the device's error.
abbrev failing : System (Unit {0})
failing = works (works (works fresh))

failing-SystemOk : SystemOk Holds IsUnplugged hello failing
unfolding step spawn built new
failing-SystemOk =
    Reach-SystemOk broken_device Holds IsUnplugged broken_device-IsSource hello (omega arith) fresh
      failing
      (built-SystemOk broken_device Holds IsUnplugged broken_device-IsSource hello (omega arith) new
        (unfold new in omega arith) 0 (omega arith) tt refl)
      (later (later (later at_once (takes work tt refl)) (takes work tt refl)) (takes work tt refl))

dead_read_example :
    step broken_device (call_read 3 0) failing ≡ some (reads 3 (err unplugged), failing)
unfolding step spawn built new
dead_read_example =
    dead_read broken_device Holds IsUnplugged broken_device-IsSource hello (omega arith) unplugged
      failing failing 3 0 failing-SystemOk (record { dead = refl; recorded = refl }) at_once refl
      refl (omega arith)

blocking_read-Completes_example :
    Completes Mem.source Served Never MemReader-IsSource hello
      (omega arith)
      0
      3
      (omega arith)
      begun.pos
      (blocking_read Mem.source 0 3 begun)
blocking_read-Completes_example =
    blocking_read-Completes Mem.source Served Never MemReader-IsSource hello (omega arith) 0 3
      (omega arith) never_quiet begun begun-SystemOk (unfold spawn in refl)
