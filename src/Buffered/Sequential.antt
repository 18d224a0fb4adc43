-- ===== src/Buffered/Sequential.antt =====
-- src/buffered.rs: where the worker runs only while the reader waits and no wait times out, a
-- `BufferedSource` is a source like any other.
use oxideav_source.Prelude.{
  ℕ, zero, suc, ◌≤◌, ◌<◌, ◌≡◌, refl, sym, ◌∙◌, ap, subst, [], Option, none, some, arith, Bytes,
  length, u64_mod, ◌==◌, if◌then◌else◌, if-cases, Result, ok, err, IoError, ErrorKind, io_error,
}
use oxideav_source.Source.{
  SeekFrom, Source, IsSource, Reads, got, failed, Seeks, moved, refused, target, Run,
}
use oxideav_source.Buffered.System.{
  idle, System, Event, seeks, call_seek, wake_reader, IsU64, seek_at, seek,
}
use oxideav_source.Buffered.Rounds.{Returned, bytes, device, late}
use oxideav_source.Buffered.Reader.{timed_out, new_pos, seek_to}
use oxideav_source.Buffered.Seeking.{seek-Stepped}
use oxideav_source.Buffered.Contract.{SystemOk, Behaves}
use oxideav_source.Buffered.Waking.{IsUninterrupted}
use oxideav_source.Buffered.Prompt.{Clean}
use oxideav_source.Buffered.Blocking.{blocking_read}
use oxideav_source.Buffered.Completing.{Completes, completed, blocking_read-Completes}

module _ {S : Type 0} (src : Source S) (wrap : ℕ) where
  -- A read that never comes back would be an error here; there is none.
  abbrev pub came_back :
      System S → Option (Result IoError Bytes × System S) → Result IoError Bytes × System S
  came_back s none = (err (io_error (ErrorKind.other 0) "the read does not come back"), s)
  came_back s (some out) = out

  unfoldable pub read_now : ℕ → Run IoError (System S) Bytes
  unfolding blocking_read
  read_now n s = if n == 0 then (ok [], s) else came_back s (blocking_read src wrap n s)

  abbrev pub sought : Event × System S → Result IoError ℕ × System S
  sought (seeks from r, t) = (r, t)
  sought (_, t) = (err (io_error (ErrorKind.other 0) "no seek"), t)

  unfoldable pub seek_now : SeekFrom → Run IoError (System S) ℕ
  unfolding seek
  seek_now from s = sought (seek from s)

  unfoldable pub sequential : Source (System S)
  unfolding read_now seek_now
  sequential = record { read = read_now; seek = seek_now }

  module _ (Serves : S → Bytes → ℕ → Type 0) (Raises : IoError → Type 0)
      (law : IsSource src Serves Raises) (smooth : IsUninterrupted Raises) where
    -- Between two calls, in the invariants.
    pub record Rests (s : System S) (c : Bytes) (p : ℕ) : Type 0 where
      pub ok_system : SystemOk Serves Raises c s
      pub resting : s.reader ≡ idle
      pub position : s.pos ≡ p
      pub short : length c < u64_mod

    some_read : {c p : ℕ} (k : ℕ) → (k ≡ 0 → c ≤ p) → p < c → 0 < k
    some_read zero ended inside = absurd (omega (arith, ended refl))
    some_read (suc k) ended inside = omega arith

    returned-Reads :
        (c : Bytes) (p n : ℕ) (r : Result IoError Bytes) (t : System S) (q : ℕ)
        → length c < u64_mod
        → t.pos ≡ q
        → Returned Raises c n p r q
        → Clean Raises r
        → t.reader ≡ idle
        → SystemOk Serves Raises c t
        → Reads Rests Raises c p n (r, t)
    returned-Reads c p n _ t q short at (bytes k _ s le left ended same there) clean rest h =
        subst (λ b. Reads Rests Raises c p n (ok b, t)) (sym same)
          (got k t le left (λ a b. some_read k (ended) b)
            (record { ok_system = h; resting = rest; position = at ∙ there; short = short }))
    returned-Reads c p n _ t q short at (device e r) clean rest h =
        failed e t r (record { ok_system = h; resting = rest; position = at; short = short })
    returned-Reads c p n _ t q short at late clean rest h =
        failed timed_out t clean
          (record { ok_system = h; resting = rest; position = at; short = short })

    came_back-Reads :
        (s : System S) (c : Bytes) (n : ℕ) (positive : 0 < n) (short : length c < u64_mod)
        (out : Option (Result IoError Bytes × System S))
        → Completes src Serves Raises law c short wrap n positive s.pos out
        → Reads Rests Raises c s.pos n (came_back s out)
    came_back-Reads s c n positive short _ (completed r t x clean rest h) =
        returned-Reads c s.pos n r t t.pos short refl x clean rest h

    read_now-Reads :
        (s : System S) (c : Bytes) (n : ℕ)
        → SystemOk Serves Raises c s
        → s.reader ≡ idle
        → length c < u64_mod
        → Reads Rests Raises c s.pos n (read_now n s)
    unfolding read_now
    read_now-Reads s c n h rest short =
        if-cases (Reads Rests Raises c s.pos n) (n == 0)
          (λ e.
            got 0 s (omega arith) (omega arith) (λ a _. absurd (ground arith))
              (record { ok_system = h; resting = rest; position = omega arith; short = short }))
          (λ e.
            let positive : 0 < n = ground arith in
            came_back-Reads s c n positive short (blocking_read src wrap n s) (
              blocking_read-Completes src Serves Raises law c short wrap n positive smooth s h
                rest))

    sought-Seeks :
        (c : Bytes) (p : ℕ) (from : SeekFrom) (e : Event) (t : System S) (r : Result IoError ℕ)
        → length c < u64_mod
        → SystemOk Serves Raises c t
        → t.reader ≡ idle
        → e ≡ seeks from r
        → Behaves Raises c p e t.pos
        → Seeks Rests Raises c p from (r, t)
    sought-Seeks c p from e t r short h rest same b = go e t.pos refl same b
      where
        stands : (q : ℕ) → t.pos ≡ q → Rests t c q
        stands q at = record { ok_system = h; resting = rest; position = at; short = short }

        go :
            (e : Event) (q : ℕ)
            → t.pos ≡ q
            → e ≡ seeks from r
            → Behaves Raises c p e q
            → Seeks Rests Raises c p from (r, t)
        go _ q at same Behaves.silent = absurd (cc)
        go _ q at same Behaves.dropping = absurd (cc)
        go _ q at same Behaves.empty_buffer = absurd (cc)
        go _ q at same (Behaves.answered _ _ _ _) = absurd (cc)
        go _ q at same (Behaves.moved from' _ there) =
            let to : ok q ≡ r = cc in
            let as_asked : from' ≡ from = cc in
            subst (λ r. Seeks Rests Raises c p from (r, t)) to
              (moved q t (subst (λ f. target (length c) p f ≡ some q) as_asked there) (stands q at))
        go _ q at same (Behaves.refused from' m there) =
            let to : err (io_error ErrorKind.invalid_input m) ≡ r = cc in
            let as_asked : from' ≡ from = cc in
            subst (λ r. Seeks Rests Raises c p from (r, t)) to
              (refused m t (subst (λ f. target (length c) p f ≡ none) as_asked there) (stands q at))

    -- The reader stays idle, and the event is that of the seek.
    seek_at-quiet :
        (from : SeekFrom) (r : Result IoError ℕ) (s : System S)
        → s.reader ≡ idle
        → ((seek_at from r s).0 ≡ seeks from r) × ((seek_at from r s).1.reader ≡ idle)
    unfolding seek_at
    seek_at-quiet from (err e) s rest = (refl, rest)
    seek_at-quiet from (ok q) s rest =
        (refl, subst (λ x. wake_reader (seek_to q s.ring).1 x ≡ idle) (sym rest) refl)

    sought_lem :
        (from : SeekFrom) (r : Result IoError ℕ) (x : Event × System S)
        → x.0 ≡ seeks from r
        → sought x ≡ (r, x.1)
    sought_lem from r (seeks f q, t) e = let same : q ≡ r = cc in ap (λ q. (q, t)) same
    sought_lem from r (Event.nothing, t) e = absurd (cc)
    sought_lem from r (Event.drops, t) e = absurd (cc)
    sought_lem from r (Event.reads _ _, t) e = absurd (cc)

    seek_now-Seeks :
        (s : System S) (c : Bytes) (from : SeekFrom)
        → SystemOk Serves Raises c s
        → s.reader ≡ idle
        → length c < u64_mod
        → IsU64 (call_seek from)
        → Seeks Rests Raises c s.pos from (seek_now from s)
    unfolding seek_now
    seek_now-Seeks s c from h rest short fits =
        let r = new_pos s.ring s.pos from in
        let (e, idle_still) = seek_at-quiet from r s rest in
        let (h', b) = seek-Stepped Serves Raises c short from s h rest fits in
        subst (Seeks Rests Raises c s.pos from) (sym (sought_lem from r (seek_at from r s) e)) (
          sought-Seeks c s.pos from (seek_at from r s).0 (seek_at from r s).1 r short h' idle_still
            e b)

    -- Between two calls, a read and a seek to a `u64` do what a reader of the content does.
    pub sequential-Reads :
        (s : System S) (c : Bytes) (p n : ℕ)
        → Rests s c p
        → Reads Rests Raises c p n (sequential.read n s)
    unfolding sequential
    sequential-Reads s c p n h =
        subst (λ p. Reads Rests Raises c p n (read_now n s)) h.position
          (read_now-Reads s c n h.ok_system h.resting h.short)

    pub sequential-Seeks :
        (s : System S) (c : Bytes) (p : ℕ) (from : SeekFrom)
        → Rests s c p
        → IsU64 (call_seek from)
        → Seeks Rests Raises c p from (sequential.seek from s)
    unfolding sequential
    sequential-Seeks s c p from h fits =
        subst (λ p. Seeks Rests Raises c p from (seek_now from s)) h.position
          (seek_now-Seeks s c from h.ok_system h.resting h.short fits)
