-- ===== src/Buffered/Waking.antt =====
-- src/buffered.rs: the worker while the reader waits for bytes.
use oxideav_source.Prelude.{
  ◌≢◌, ◌<◌, ◌≤◌, ◌+◌, ◌⊎◌, length-append, arith, ℕ, suc, ◌-◌, min, ◌≡◌, refl, ap, ◌∙◌, subst, inl,
  inr, true, false, ◌||◌, [], ◌∷◌, ◌++◌, none, some, Bytes, length, if-cases, Option-cases, Result,
  ok, err, IoError,
}
use oxideav_source.Source.{start, Source, IsSource}
use oxideav_source.Buffered.Ring.{RingState}
use oxideav_source.Buffered.Worker.{
  Phase, head, asleep, exited, seeking, seek_failed, reading, depositing, is_interrupted, is_some,
  take_target, phase1_with, phase1, fatal, deposit, phase3,
}
use oxideav_source.Buffered.System.{
  waiting, woken, System, wake_reader, moves, sought, fetched, work_from,
}
use oxideav_source.Buffered.Rounds.{Starved}
use oxideav_source.Buffered.Working.{WorkerOk, free-WorkerOk}
use oxideav_source.Buffered.Reasons.{Sleeping, Waiting}
use oxideav_source.Buffered.Contract.{is_dropped, SystemOk}
use oxideav_source.Buffered.Serving.{work_from-Stepped}
use oxideav_source.Buffered.Progress.{
  Within, is_woken, now, Within-more, in_phase, moved_on, phase1_on, phase1-Starved, phase3_drop,
  phase3_keep,
}

abbrev pub IsUninterrupted : (IoError → Type 0) → Type 0
IsUninterrupted Raises = (e : IoError) → Raises e → is_interrupted e.kind ≡ false

-- What a read at the end of the ring can return on: an error, the end of file, or a byte.
abbrev pub HasNews : {S : Type 0} → System S → Type 0
HasNews t =
    (t.ring.err ≢ none) ⊎ ((t.ring.eof ≡ true) ⊎ (t.pos < t.ring.ring_start + length t.ring.buf))

module _ {S : Type 0} (src : Source S) (Serves : S → Bytes → ℕ → Type 0) (Raises : IoError → Type 0)
    (law : IsSource src Serves Raises) (c : Bytes) (smooth : IsUninterrupted Raises) (n : ℕ)
    (Free : Type 0) where
  -- The reader is woken; if no position was asked for, with news.
  abbrev pub IsTold : System S → Type 0
  IsTold t = (t.reader ≡ woken n) × (HasNews t ⊎ ((t.ring.target_pos ≡ none) × ¬ Free))

  abbrev Taken : System S → Type 0
  Taken s = (t : ℕ) → s.ring.target_pos ≡ some t → ¬ Free

  abbrev Wakes : ℕ → System S → Type 0
  Wakes = Within src IsTold

  -- A move that tells the reader.
  told :
      (s : System S) (st : RingState) (w : Phase)
      → s.reader ≡ waiting n
      → (moves (st, w, true) s).reader ≡ woken n
  unfolding moves
  told s st w r = ap (wake_reader true) r

  asked-Wakes :
      (s : System S) (t : ℕ)
      → s.worker ≡ head
      → s.reader ≡ waiting n
      → s.ring.stop ≡ false
      → s.ring.target_pos ≡ some t
      → Taken s
      → Wakes 1 s
  unfolding work_from phase1_with
  asked-Wakes s t at r on asked u =
      moved_on src IsTold s (ap is_woken r) 0 head (phase1 s.ring) (phase1_with (some t) s.ring) at
        refl (phase1_on s.ring (some t) on asked)
        (now 0 _ (
          told s (take_target t s.ring) (seeking t) r,
          inr (unfold take_target in refl, u t asked),
        ))

  seek_failed-Wakes :
      (s : System S) (e : IoError) → s.worker ≡ seek_failed e → s.reader ≡ waiting n → Wakes 1 s
  unfolding work_from fatal moves
  seek_failed-Wakes s e at r =
      in_phase src IsTold s (ap is_woken r) 0 (seek_failed e) (moves (fatal e s.ring) s) at refl (
        now 0 (moves (fatal e s.ring) s)
          (told s (fatal e s.ring).0 exited r, inl (inl (λ x. absurd (cc)))))

  deposit-IsTold :
      (s : System S) (f : Result IoError Bytes)
      → s.reader ≡ waiting n
      → ((e : IoError) → f ≡ err e → Raises e)
      → s.pos ≤ s.ring.ring_start + length s.ring.buf
      → IsTold (moves (deposit f s.ring) s)
  unfolding deposit fatal moves
  deposit-IsTold s (ok []) r h le =
      (told s (record s.ring { eof = true }) head r, inl (inr (inl refl)))
  deposit-IsTold s (ok (b ∷ x)) r h le = (
    told s (record s.ring { buf = s.ring.buf ++ (b ∷ x) }) head r,
    inl (inr (inr (omega (arith, le, length-append s.ring.buf (b ∷ x))))),
  )
  deposit-IsTold s (err e) r h le =
      if-cases (λ m. IsTold (moves m s)) (is_interrupted e.kind)
        (λ i. let quiet = smooth e (h e refl) in absurd (cc))
        (λ _. (told s (fatal e s.ring).0 exited r, inl (inl (λ x. absurd (cc)))))

  untold :
      (s : System S) (w : Phase)
      → s.reader ≡ waiting n
      → (moves (s.ring, w, false) s).reader ≡ waiting n
  unfolding moves
  untold s w r = ap (wake_reader false) r

  module _ (s : System S) (k : SystemOk Serves Raises c s) (r : s.reader ≡ waiting n)
      (u : Taken s) where
    running : s.ring.stop ≡ false
    running = k.stopped ∙ ap is_dropped r

    starved : Starved s.ring
    starved = (subst (Waiting s.ring) r k.wait).0

    raised :
        (f : Result IoError Bytes)
        → s.worker ≡ depositing f
        → s.ring.target_pos ≡ none
        → (e : IoError) → f ≡ err e
        → Raises e
    raised f at free e same =
        (free-WorkerOk Serves Raises c s.ring s.inner (depositing (err e)) free running
          (subst (WorkerOk Serves Raises c s.ring s.inner) (at ∙ ap depositing same) k.work)).0

    depositing-Wakes : (f : Result IoError Bytes) → s.worker ≡ depositing f → Wakes 2 s
    unfolding work_from moves
    depositing-Wakes f at = elim (Option-cases s.ring.target_pos) [
      | inl free ↦ Within-more src IsTold 1 s (
          moved_on src IsTold s (ap is_woken r) 0 (depositing f) (phase3 f s.ring)
            (deposit f s.ring) at refl (phase3_keep f s.ring (neither free))
            (now 0 (moves (deposit f s.ring) s)
              (deposit-IsTold s f r (raised f at free) k.at.upper)))
      | inr (t, asked) ↦
          moved_on src IsTold s (ap is_woken r) 1 (depositing f) (phase3 f s.ring)
            (s.ring, head, false) at refl (phase3_drop f s.ring (asked_or t asked))
            (asked-Wakes (moves (s.ring, head, false) s) t refl (untold s head r) running asked u)
    ]
      where
        neither : s.ring.target_pos ≡ none → (is_some s.ring.target_pos || s.ring.stop) ≡ false
        neither free = ap (λ o. is_some o || s.ring.stop) free ∙ running

        asked_or :
            (t : ℕ) → s.ring.target_pos ≡ some t → (is_some s.ring.target_pos || s.ring.stop) ≡ true
        asked_or t asked = ap (λ o. is_some o || s.ring.stop) asked

  module _ (s : System S) (k : SystemOk Serves Raises c s) (r : s.reader ≡ waiting n)
      (u : Taken s) where
    reading-Wakes : (m : ℕ) → s.worker ≡ reading m → Wakes 3 s
    unfolding work_from fetched
    reading-Wakes m at =
        in_phase src IsTold s (ap is_woken r) 2 (reading m) (fetched (src.read m s.inner) s) at refl
          (depositing-Wakes (fetched (src.read m s.inner) s)
            (work_from-Stepped Serves Raises c src law s k (reading m) at).0 r u
            (src.read m s.inner).0 refl)

  module _ (s : System S) (k : SystemOk Serves Raises c s) (r : s.reader ≡ waiting n)
      (u : Taken s) where
    head-Wakes : s.worker ≡ head → Wakes 4 s
    unfolding work_from moves
    head-Wakes at = elim (Option-cases s.ring.target_pos) [
      | inl free ↦
          let m = min (s.ring.capacity - length s.ring.buf) s.ring.block_size in
          let same : phase1 s.ring ≡ (s.ring, reading m, false) =
            phase1_on s.ring none (running s k r u) free
            ∙ phase1-Starved s.ring (starved s k r u) k.ring.bounded in
          moved_on src IsTold s (ap is_woken r) 3 head (phase1 s.ring) (s.ring, reading m, false) at
            refl same
            (reading-Wakes (moves (s.ring, reading m, false) s)
              (subst (λ m. SystemOk Serves Raises c (moves m s)) same
                (work_from-Stepped Serves Raises c src law s k head at).0)
              (untold s (reading m) r) u m refl)
      | inr (t, asked) ↦ Within-more src IsTold 3 s (
          Within-more src IsTold 2 s
            (Within-more src IsTold 1 s (asked-Wakes s t at r (running s k r u) asked u)))
    ]

  sought-Wakes :
      (s : System S) (out : Result IoError ℕ × S)
      → SystemOk Serves Raises c (sought out s)
      → s.reader ≡ waiting n
      → Taken s
      → Wakes 4 (sought out s)
  unfolding sought
  sought-Wakes s (ok q, inner) k r u =
      head-Wakes (record s { worker = head; inner = inner }) k r u refl
  sought-Wakes s (err e, inner) k r u =
      let t = record s { worker = seek_failed e; inner = inner } in
      Within-more src IsTold 3 t
        (Within-more src IsTold 2 t (Within-more src IsTold 1 t (seek_failed-Wakes t e refl r)))

  module _ (s : System S) (k : SystemOk Serves Raises c s) (r : s.reader ≡ waiting n)
      (u : Taken s) where
    at-Wakes : (w : Phase) → s.worker ≡ w → Sleeping s.ring w → Wakes 5 s
    unfolding work_from
    at-Wakes head at h = Within-more src IsTold 4 s (head-Wakes s k r u at)
    at-Wakes (seeking t) at h =
        in_phase src IsTold s (ap is_woken r) 4 (seeking t) (sought (src.seek (start t) s.inner) s)
          at refl
          (sought-Wakes s (src.seek (start t) s.inner)
            (work_from-Stepped Serves Raises c src law s k (seeking t) at).0 r u)
    at-Wakes (seek_failed e) at h = more (more (more (more (seek_failed-Wakes s e at r))))
      where
        more : {k : ℕ} → Wakes k s → Wakes (suc k) s
        more {k} = Within-more src IsTold k s
    at-Wakes (reading m) at h =
        Within-more src IsTold 4 s (Within-more src IsTold 3 s (reading-Wakes s k r u m at))
    at-Wakes (depositing f) at h =
        Within-more src IsTold 4 s
          (Within-more src IsTold 3 s (Within-more src IsTold 2 s (depositing-Wakes s k r u f at)))
    at-Wakes asleep at (_, _, why) = absurd (elim why [
      | inl e ↦ let more = (starved s k r u).not_ended in absurd (cc)
      | inr full ↦ (starved s k r u).not_full full
    ])
    at-Wakes exited at why = absurd (elim why [
      | inl e ↦ k.ring.dead e (starved s k r u).no_error
      | inr e ↦ let on = running s k r u in absurd (cc)
    ])

module _ {S : Type 0} (src : Source S) (Serves : S → Bytes → ℕ → Type 0) (Raises : IoError → Type 0)
    (law : IsSource src Serves Raises) (c : Bytes) (smooth : IsUninterrupted Raises) (n : ℕ) where
  -- Let the inner source keep the promise of `BytesSource` and raise no `Interrupted` error. In a
  -- state in the invariants where the reader sleeps in a read, the worker is neither asleep nor
  -- returned: its own steps wake the reader, in at most five of them; and the ring then has what
  -- the read can return on (a byte at the reader's position, the end of file or an error), or else
  -- a position was asked for before and is not any more; and the reader is not woken before that
  -- step.
  pub waiting-Within :
      (s : System S)
      → SystemOk Serves Raises c s
      → s.reader ≡ waiting n
      → Within src (IsTold src Serves Raises law c smooth n (s.ring.target_pos ≡ none)) 5 s
  waiting-Within s k r =
      at-Wakes src Serves Raises law c smooth n (s.ring.target_pos ≡ none) s k r
        (λ t asked free. absurd (cc)) s.worker refl k.sleep
