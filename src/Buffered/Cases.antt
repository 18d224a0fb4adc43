-- ===== src/Buffered/Cases.antt =====
-- src/buffered.rs: what the reader's thread can do where it stands.
use oxideav_source.Prelude.{ℕ, ◌≡◌, refl, inl, inr, ◌⊎◌, none, some}
use oxideav_source.Source.{SeekFrom, Source}
use oxideav_source.Buffered.Reader.{attempt, expire}
use oxideav_source.Buffered.System.{
  Reader, idle, dropped, waiting, woken, System, Choice, call_read, go_on, time_out, call_seek,
  call_drop, work, wake, IsU64, Next, after_rounds, read, seek, drop_source, by_reader,
}

-- In a read of `n` bytes, asleep or woken.
abbrev pub InRead : {S : Type 0} → ℕ → System S → Type 0
InRead n s = (s.reader ≡ waiting n) ⊎ (s.reader ≡ woken n)

module _ {S : Type 0} (src : Source S) (s : System S) (P : Next S → Type 0) (nowhere : P none)
    (reading : (n wrap : ℕ) → s.reader ≡ idle → P (read n wrap s))
    (seeking : (from : SeekFrom)
      → s.reader ≡ idle
      → IsU64 (call_seek from)
      → P (some (seek from s)))
    (dropping : P (some (drop_source s)))
    (resuming : (n wrap : ℕ) → InRead n s → P (after_rounds n s (attempt wrap n s.pos s.ring)))
    (expiring : (n wrap : ℕ) → InRead n s → P (after_rounds n s (expire wrap n s.pos s.ring))) where
  at_reader : (r : Reader) → s.reader ≡ r → (ch : Choice) → IsU64 ch → P (by_reader src r ch s)
  at_reader idle e (call_read n wrap) h = reading n wrap e
  at_reader idle e (call_seek from) h = seeking from e h
  at_reader idle e call_drop h = dropping
  at_reader idle e (go_on wrap) h = nowhere
  at_reader idle e (time_out wrap) h = nowhere
  at_reader idle e work h = nowhere
  at_reader idle e wake h = nowhere
  at_reader (waiting n) e (go_on wrap) h = resuming n wrap (inl e)
  at_reader (waiting n) e (time_out wrap) h = expiring n wrap (inl e)
  at_reader (waiting n) e (call_read _ _) h = nowhere
  at_reader (waiting n) e (call_seek _) h = nowhere
  at_reader (waiting n) e call_drop h = nowhere
  at_reader (waiting n) e work h = nowhere
  at_reader (waiting n) e wake h = nowhere
  at_reader (woken n) e (go_on wrap) h = resuming n wrap (inr e)
  at_reader (woken n) e (time_out wrap) h = expiring n wrap (inr e)
  at_reader (woken n) e (call_read _ _) h = nowhere
  at_reader (woken n) e (call_seek _) h = nowhere
  at_reader (woken n) e call_drop h = nowhere
  at_reader (woken n) e work h = nowhere
  at_reader (woken n) e wake h = nowhere
  at_reader dropped e ch h = nowhere

  pub by_reader_cases : (ch : Choice) → IsU64 ch → P (by_reader src s.reader ch s)
  by_reader_cases = at_reader s.reader refl
