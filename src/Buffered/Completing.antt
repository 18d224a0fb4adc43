-- ===== src/Buffered/Completing.antt =====
-- src/buffered.rs: where the worker runs only while the reader waits and no wait times out, a
-- `read` comes back.
use oxideav_source.Prelude.{
  ℕ, zero, suc, ◌<◌, ◌≡◌, refl, sym, ◌∙◌, ap, subst, inl, inr, ◌==◌, if-cases, Bool-cases,
  Option-cases, Bool, true, false, Option, none, some, arith, Bytes, length, u64_mod, Result,
  IoError,
}
use oxideav_source.Source.{Source, IsSource}
use oxideav_source.Buffered.Reader.{Round, attempt}
use oxideav_source.Buffered.System.{
  idle, waiting, woken, System, Event, nothing, reads, call_read, go_on, Next, after_rounds, read,
  by_reader, unseen, work_from, step,
}
use oxideav_source.Buffered.Rounds.{Returned}
use oxideav_source.Buffered.Attempts.{Tried, replied, slept, attempt-Tried}
use oxideav_source.Buffered.Contract.{
  SystemOk, Stepped, Behaves, silent, dropping, empty_buffer, answered, moved, refused,
}
use oxideav_source.Buffered.Serving.{work_from-Stepped}
use oxideav_source.Buffered.Progress.{is_woken}
use oxideav_source.Buffered.Waking.{IsUninterrupted, HasNews, IsTold, waiting-Within}
use oxideav_source.Buffered.Reachable.{step-Stepped}
use oxideav_source.Buffered.Replying.{Replies, replies, go_on-Replies}
use oxideav_source.Buffered.Prompt.{Clean, CleanReturn, attempt-Clean}
use oxideav_source.Buffered.Blocking.{run_worker, resume, blocking_read, run-Within}

module _ {S : Type 0} (src : Source S) (Serves : S → Bytes → ℕ → Type 0) (Raises : IoError → Type 0)
    (law : IsSource src Serves Raises) (c : Bytes) (short : length c < u64_mod) where
  still : (p q : ℕ) (e : Event) → e ≡ nothing → Behaves Raises c p e q → q ≡ p
  still p q _ e silent = refl
  still p q _ e dropping = cc
  still p q _ e empty_buffer = cc
  still p q _ e (answered _ _ _ _) = cc
  still p q _ e (moved _ _ _) = cc
  still p q _ e (refused _ _ _) = cc

  -- The worker's steps keep the invariants and the position.
  run-SystemOk :
      (k : ℕ) (s : System S)
      → SystemOk Serves Raises c s
      → SystemOk Serves Raises c (run_worker src k s) × ((run_worker src k s).pos ≡ s.pos)
  unfolding run_worker
  run-SystemOk zero s h = (h, refl)
  run-SystemOk (suc k) s h = elim (Bool-cases (is_woken s.reader)) [
    | inl told ↦ rw told (h, refl)
    | inr quiet ↦ elim (Option-cases (work_from src s.worker s)) [
      | inl e ↦ rw (quiet, e) (h, refl)
      | inr (t, e) ↦
          let (h', b) : Stepped Serves Raises c s.pos (some (nothing, t)) =
            subst (λ o. Stepped Serves Raises c s.pos (unseen src o)) e
              (work_from-Stepped Serves Raises c src law s h s.worker refl) in
          let (h'', same) = run-SystemOk k t h' in
          rw (quiet, e) (h'', same ∙ still s.pos t.pos nothing refl b)
    ]
  ]

  module _ (wrap n : ℕ) (positive : 0 < n) where
    -- A read that has come back.
    pub data Completes (p : ℕ) : Option (Result IoError Bytes × System S) → Type 0 where
      completed :
          (r : Result IoError Bytes) (t : System S)
          → Returned Raises c n p r t.pos
          → Clean Raises r
          → t.reader ≡ idle
          → SystemOk Serves Raises c t
          → Completes p (some (r, t))

    -- A step of a read: it comes back, or waits.
    data Goes (p : ℕ) (o : Option ℕ) : Next S → Type 0 where
      comes_back :
          (r : Result IoError Bytes) (t : System S)
          → Returned Raises c n p r t.pos
          → Clean Raises r
          → t.reader ≡ idle
          → SystemOk Serves Raises c t
          → Goes p o (some (reads n r, t))
      goes_on_waiting :
          (t : System S)
          → SystemOk Serves Raises c t
          → t.reader ≡ waiting n
          → t.pos ≡ p
          → t.ring.target_pos ≡ o
          → Goes p o (some (nothing, t))

    Tried-Goes :
        (s : System S) (out : Option Round)
        → Tried Raises c n s.pos s.ring out
        → CleanReturn Raises out
        → Stepped Serves Raises c s.pos (after_rounds n s out)
        → Goes s.pos s.ring.target_pos (after_rounds n s out)
    unfolding after_rounds
    Tried-Goes s _ (replied r q st b x _ _ _ _) clean (h, _) = comes_back r _ x clean refl h
    Tried-Goes s _ (slept st b _ _ _ _ d _) clean (h, _) =
        goes_on_waiting _ h refl refl d.same_target

    attempt-Goes :
        (s : System S)
        → SystemOk Serves Raises c s
        → Stepped Serves Raises c s.pos (after_rounds n s (attempt wrap n s.pos s.ring))
        → Goes s.pos s.ring.target_pos (after_rounds n s (attempt wrap n s.pos s.ring))
    attempt-Goes s h k =
        Tried-Goes s (attempt wrap n s.pos s.ring)
          (attempt-Tried Raises c short wrap n positive s.pos s.ring h.ring h.at)
          (attempt-Clean Raises c short wrap n positive s.pos s.ring h.ring h.at) k

    go_on-Goes :
        (s : System S)
        → SystemOk Serves Raises c s
        → s.reader ≡ woken n
        → Goes s.pos s.ring.target_pos (step src (go_on wrap) s)
    unfolding step
    go_on-Goes s h r =
        subst (λ x. Goes s.pos s.ring.target_pos (by_reader src x (go_on wrap) s)) (sym r)
          (attempt-Goes s h (
            subst (λ x. Stepped Serves Raises c s.pos (by_reader src x (go_on wrap) s)) r
              (step-Stepped src Serves Raises law c short s (go_on wrap) h tt)))

    answers : Next S → Bool
    answers (some (reads _ _, _)) = true
    answers _ = false

    Replies-answers : {p : ℕ} {x : Next S} → Replies Raises c n p x → answers x ≡ true
    unfolding answers
    Replies-answers (replies r t _) = refl

    called :
        (s : System S)
        → s.reader ≡ idle
        → step src (call_read n wrap) s ≡ after_rounds n s (attempt wrap n s.pos s.ring)
    unfolding step read
    called s r =
        subst
          (λ x.
            by_reader src x (call_read n wrap) s ≡ after_rounds n s (attempt wrap n s.pos s.ring))
          (sym r)
          (if-cases (λ x. x ≡ after_rounds n s (attempt wrap n s.pos s.ring)) (n == 0)
            (λ e. absurd (ground arith)) (λ _. refl))

    called-Goes :
        (s : System S)
        → SystemOk Serves Raises c s
        → s.reader ≡ idle
        → Goes s.pos s.ring.target_pos (step src (call_read n wrap) s)
    called-Goes s h r = subst (Goes s.pos s.ring.target_pos) (sym (called s r)) (
        attempt-Goes s h (
          subst (Stepped Serves Raises c s.pos) (called s r)
            (step-Stepped src Serves Raises law c short s (call_read n wrap) h tt)))

    module _ (smooth : IsUninterrupted Raises) where
      abbrev Told : System S → System S → Type 0
      Told s = IsTold src Serves Raises law c smooth n (s.ring.target_pos ≡ none)

      -- The state in which the reader goes on behind a wait.
      run_worker-Told :
          (s : System S)
          → SystemOk Serves Raises c s
          → s.reader ≡ waiting n
          → Told s (run_worker src 5 s)
      run_worker-Told s h r =
          run-Within src (Told s) (λ t told. ap is_woken told.0) 5 s
            (waiting-Within src Serves Raises law c smooth n s h r)

      no_reply : {p : ℕ} (t : System S) → Replies Raises c n p (some (nothing, t)) → ⊥
      no_reply t y = unfold answers in let silence = Replies-answers y in cc

      news-Completes :
          (k : ℕ) (s : System S)
          → SystemOk Serves Raises c s
          → s.reader ≡ woken n
          → HasNews s
          → Completes s.pos (resume src k wrap (step src (go_on wrap) s))
      news-Completes k s h r news =
          go (step src (go_on wrap) s) (go_on-Goes s h r)
            (go_on-Replies src Serves Raises c short s h n news wrap r)
        where
          go :
              (x : Next S)
              → Goes s.pos s.ring.target_pos x
              → Replies Raises c n s.pos x
              → Completes s.pos (resume src k wrap x)
          go _ (comes_back r t x clean i g) _ = unfold resume in completed r t x clean i g
          go _ (goes_on_waiting t _ _ _ _) y = absurd (no_reply t y)

      -- Behind a wait for bytes.
      bytes-Completes :
          (k p : ℕ) (x : Next S) → Goes p none x → Completes p (resume src (suc k) wrap x)
      unfolding resume
      bytes-Completes k p _ (comes_back r t x clean i g) = completed r t x clean i g
      bytes-Completes k p _ (goes_on_waiting t h r at free) =
          let u = run_worker src 5 t in
          let (h', same) = run-SystemOk 5 t h in
          let (woke, why) = run_worker-Told t h r in
          subst (λ q. Completes q (resume src k wrap (step src (go_on wrap) u))) (same ∙ at)
            (elim why [
              | inl news ↦ news-Completes k u h' woke news
              | inr (_, asked) ↦ absurd (asked free)
            ])

      any-Completes :
          (k p : ℕ) (o : Option ℕ) (x : Next S)
          → Goes p o x
          → Completes p (resume src (suc (suc k)) wrap x)
      unfolding resume
      any-Completes k p o _ (comes_back r t x clean i g) = completed r t x clean i g
      any-Completes k p o _ (goes_on_waiting t h r at asked) =
          let u = run_worker src 5 t in
          let (h', same) = run-SystemOk 5 t h in
          let (woke, why) = run_worker-Told t h r in
          subst (λ q. Completes q (resume src (suc k) wrap (step src (go_on wrap) u))) (same ∙ at)
            (elim why [
              | inl news ↦ news-Completes (suc k) u h' woke news
              | inr (free, _) ↦
                  bytes-Completes k u.pos (step src (go_on wrap) u) (
                    subst (λ o. Goes u.pos o (step src (go_on wrap) u)) free (go_on-Goes u h' woke))
            ])

      -- Let the inner source keep the promise of `BytesSource` for a content `c` of less than 2 ^
      -- 64 bytes and raise no `Interrupted` error. In a state in the invariants between two calls,
      -- a read into a non-empty buffer, where the worker runs only while the reader waits and no
      -- wait times out, comes back after at most two waits of at most five steps of the worker
      -- each: with the next bytes, none only at the end of `c`, or an error of the device, the
      -- position behind them, and the invariants kept.
      pub blocking_read-Completes :
          (s : System S)
          → SystemOk Serves Raises c s
          → s.reader ≡ idle
          → Completes s.pos (blocking_read src wrap n s)
      unfolding blocking_read
      blocking_read-Completes s h r =
          any-Completes 0 s.pos s.ring.target_pos (step src (call_read n wrap) s)
            (called-Goes s h r)
