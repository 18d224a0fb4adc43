-- ===== src/Buffered/Stopping.antt =====
-- src/buffered.rs, `drop`: the worker that is joined.
use oxideav_source.Prelude.{
  ℕ, ◌≡◌, refl, ap, ◌∙◌, Bool, true, false, ◌||◌, Option, none, some, Bytes, Result, ok, err,
  IoError,
}
use oxideav_source.Source.{start, Source}
use oxideav_source.Buffered.Worker.{
  Phase, head, asleep, exited, seeking, seek_failed, reading, depositing, is_some, phase1, fatal,
  phase3,
}
use oxideav_source.Buffered.System.{
  Reader, idle, waiting, woken, wake_reader, dropped, System, moves, sought, fetched, work_from,
}
use oxideav_source.Buffered.Reasons.{Sleeping}
use oxideav_source.Buffered.Contract.{is_dropped, SystemOk}
use oxideav_source.Buffered.Progress.{
  Within, is_woken, now, Within-more, in_phase, moved_on, phase1_stop, phase3_drop,
}

stopped_or : (o : Option ℕ) (b : Bool) → b ≡ true → (is_some o || b) ≡ true
stopped_or none b h = h
stopped_or (some t) b h = refl

kept : (r : Reader) → is_woken r ≡ false → is_woken (wake_reader false r) ≡ false
kept idle h = refl
kept dropped h = refl
kept (waiting n) h = refl
kept (woken n) h = h

module _ {S : Type 0} (src : Source S) where
  abbrev pub HasReturned : System S → Type 0
  HasReturned t = t.worker ≡ exited

  abbrev Ends : ℕ → System S → Type 0
  Ends = Within src HasReturned

  head-Ends :
      (s : System S) → is_woken s.reader ≡ false → s.worker ≡ head → s.ring.stop ≡ true → Ends 1 s
  unfolding work_from moves
  head-Ends s r at stop =
      moved_on src HasReturned s r 0 head (phase1 s.ring) (s.ring, exited, false) at refl
        (phase1_stop s.ring stop) (now 0 _ refl)

  seek_failed-Ends :
      (s : System S) (e : IoError) → is_woken s.reader ≡ false → s.worker ≡ seek_failed e → Ends 1 s
  unfolding work_from moves fatal
  seek_failed-Ends s e r at =
      in_phase src HasReturned s r 0 (seek_failed e) _ at refl (now 0 _ refl)

  sought-Ends :
      (s : System S) (out : Result IoError ℕ × S)
      → is_woken s.reader ≡ false
      → s.ring.stop ≡ true
      → Ends 1 (sought out s)
  unfolding sought
  sought-Ends s (ok _, inner) r stop =
      head-Ends (record s { worker = head; inner = inner }) r refl stop
  sought-Ends s (err e, inner) r stop =
      seek_failed-Ends (record s { worker = seek_failed e; inner = inner }) e r refl

  depositing-Ends :
      (s : System S) (f : Result IoError Bytes)
      → is_woken s.reader ≡ false
      → s.worker ≡ depositing f
      → s.ring.stop ≡ true
      → Ends 2 s
  unfolding work_from moves
  depositing-Ends s f r at stop =
      moved_on src HasReturned s r 1 (depositing f) (phase3 f s.ring) (s.ring, head, false) at refl
        (phase3_drop f s.ring (stopped_or s.ring.target_pos s.ring.stop stop))
        (head-Ends (moves (s.ring, head, false) s) (kept s.reader r) refl stop)

  at-Ends :
      (w : Phase) (s : System S)
      → is_woken s.reader ≡ false
      → s.worker ≡ w
      → s.ring.stop ≡ true
      → Sleeping s.ring w
      → Ends 3 s
  unfolding work_from fetched
  at-Ends head s r at stop k =
      Within-more src HasReturned 2 s (Within-more src HasReturned 1 s (head-Ends s r at stop))
  at-Ends (seek_failed e) s r at stop k =
      Within-more src HasReturned 2 s (Within-more src HasReturned 1 s (seek_failed-Ends s e r at))
  at-Ends (seeking t) s r at stop k = Within-more src HasReturned 2 s (
      in_phase src HasReturned s r 1 (seeking t) _ at refl
        (sought-Ends s (src.seek (start t) s.inner) r stop))
  at-Ends (reading n) s r at stop k =
      in_phase src HasReturned s r 2 (reading n) _ at refl
        (depositing-Ends (fetched (src.read n s.inner) s) (src.read n s.inner).0 r refl stop)
  at-Ends (depositing f) s r at stop k =
      Within-more src HasReturned 2 s (depositing-Ends s f r at stop)
  at-Ends asleep s r at stop (_, on, _) = absurd (cc)
  at-Ends exited s r at stop k = now 3 s at

  -- In a state in the invariants in which the reader has been dropped, the worker is not asleep
  -- and returns within three steps of its own, so that the join of `drop` comes to an end.
  pub drop-Within :
      (Serves : S → Bytes → ℕ → Type 0) (Raises : IoError → Type 0) (c : Bytes) (s : System S)
      → SystemOk Serves Raises c s
      → s.reader ≡ dropped
      → Within src HasReturned 3 s
  drop-Within Serves Raises c s k gone =
      at-Ends s.worker s (ap is_woken gone) refl (k.stopped ∙ ap is_dropped gone) k.sleep
