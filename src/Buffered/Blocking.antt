-- ===== src/Buffered/Blocking.antt =====
-- src/buffered.rs: a whole `read`, where the worker runs only while the reader waits and no wait
-- times out.
use oxideav_source.Prelude.{
  ℕ, zero, suc, ◌≡◌, Bool, true, false, Option, none, some, Bytes, Result, IoError,
}
use oxideav_source.Source.{Source}
use oxideav_source.Buffered.System.{System, reads, call_read, go_on, Next, work_from, step}
use oxideav_source.Buffered.Progress.{Within, now, next, is_woken}

module _ {S : Type 0} (src : Source S) where
  -- A step of the worker, unless the reader is woken, and then `rest`.
  abbrev pub run_on : (rest : System S → System S) → System S → Bool → Option (System S) → System S
  run_on rest s true o = s
  run_on rest s false none = s
  run_on rest s false (some t) = rest t

  -- The worker alone, until it has woken the reader, in at most so many steps.
  unfoldable pub run_worker : ℕ → System S → System S
  unfolding work_from
  run_worker zero s = s
  run_worker (suc k) s = run_on (run_worker k) s (is_woken s.reader) (work_from src s.worker s)

  -- From a step of the read on: its result, or, behind a wait, the worker's steps and the next
  -- step of the read. `none` if the read waits more often than that.
  unfoldable pub resume : (waits : ℕ) → ℕ → Next S → Option (Result IoError Bytes × System S)
  unfolding run_worker step
  resume k wrap none = none
  resume k wrap (some (reads n r, t)) = some (r, t)
  resume zero wrap (some (e, t)) = none
  resume (suc k) wrap (some (e, t)) = resume k wrap (step src (go_on wrap) (run_worker 5 t))

  -- A read waits at most twice: once for a position that was asked for before, and once for bytes.
  unfoldable pub blocking_read : ℕ → ℕ → System S → Option (Result IoError Bytes × System S)
  unfolding resume
  blocking_read wrap n s = resume 2 wrap (step src (call_read n wrap) s)

  pub run-Within :
      (Goal : System S → Type 0) (told : (s : System S) → Goal s → is_woken s.reader ≡ true) (k : ℕ)
      (s : System S)
      → Within src Goal k s
      → Goal (run_worker k s)
  unfolding run_worker
  run-Within Goal told zero s (now _ _ g) = g
  run-Within Goal told (suc k) s (now _ _ g) = rw (told s g) g
  run-Within Goal told _ s (next k _ t r e h) = rw (r, e) (run-Within Goal told k t h)
