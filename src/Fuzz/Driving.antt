-- ===== src/Fuzz/Driving.antt =====
-- fuzz/fuzz_targets/compose_open.rs, the third part: a source that keeps its promise and a cursor over
-- the same content never diverge.
use oxideav_source.Prelude.{
  ℕ, ◌+◌, ◌-◌, ◌≤◌, ◌<◌, min, ◌≡◌, sym, ◌∙◌, ap, subst, true, false, Bool, Option, none, some,
  arith, All, Bytes, String, ◌==◌, ==_refl, length, take, drop, is_empty, eq_bytes, eq_bytes_refl,
  u64_mod, Result, ok, map_err, IoError,
}
use oxideav_source.Base64.Groups.{IsByte}
use oxideav_source.Source.{pos, SeekFrom, current, Source, target}
use oxideav_source.Mem
use oxideav_source.Mem.Reader
use oxideav_source.Mem.Reader.{MemReader-IsSource}
use oxideav_source.Open.{Cursor}
use oxideav_source.Fuzz.Compose.{Script, Draw, assert}
use oxideav_source.Fuzz.Draws.{Yields, yields, and_then-Yields, After, Draws}
use oxideav_source.Fuzz.Drive.{
  read_upto, Fuzzing, on_script, on_opened, on_cur, expect, read_both, seeks_agree, seek_both,
  read_nothing, positions_agree,
}
use oxideav_source.Fuzz.Landing.{
  IsFollower, source-IsFollower, Fits, landed, landed-lt, Agrees, Seeks-Agrees, target-stay,
}
use oxideav_source.Fuzz.Reading.{Fills, filled, read_upto-Fills}

abbrev mem_follows : IsFollower Mem.source Mem.Reader.Serves
mem_follows = source-IsFollower Mem.source Mem.Reader.Serves MemReader-IsSource

module _ {S : Type 0} (src : Source S) (Serves : S → Bytes → ℕ → Type 0)
    (law : IsFollower src Serves) (c d : Bytes) (fits : length c < u64_mod)
    (bytes : All IsByte d) where
  -- The two positions, and a script that is at `i` or further.
  pub record At (p q i : ℕ) (z : Fuzzing S) : Type 0 where
    pub opened_at : Serves z.opened c p
    pub cur_at : Mem.Reader.Serves z.cur c q
    pub same : z.script.d ≡ d
    pub on : i ≤ z.script.i

  -- Both at one position, which is a `u64`.
  pub record Ready (i : ℕ) (z : Fuzzing S) : Type 0 where
    pub position : ℕ
    pub small : position < u64_mod
    pub at : At position position i z

  pub on_script-Yields :
      {A : Type 0} (P : A → Type 0) (m : Draw A) (i : ℕ) (z : Fuzzing S)
      → Draws P m
      → Ready i z
      → Yields (λ a z'. P a × Ready i z') (on_script src m z)
  on_script-Yields {A} P m i z h r =
      moved_on (m z.script) (h.at z.script (subst (All IsByte) (sym r.at.same) bytes))
    where
      moved_on :
          (out : Result String A × Script)
          → Yields (After P z.script) out
          → Yields (λ a z'. P a × Ready i z') (out.0, record z { script = out.1 })
      moved_on _ (yields a s k) = yields _ _ (
        k.drawn,
        record {
          position = r.position;
          small = r.small;
          at = record {
            opened_at = r.at.opened_at;
            cur_at = r.at.cur_at;
            same = k.same ∙ r.at.same;
            on = omega (arith, k.on, r.at.on);
          };
        },
      )

  module _ (n p q i : ℕ) (message : String) (z : Fuzzing S) (at : At p q i z) where
    opened_read :
        Yields
          (λ bs z'. (bs ≡ take n (drop p c)) × At (p + min n (length c - p)) q i z')
          (expect src message (on_opened src (read_upto src n)) z)
    opened_read =
        go (read_upto src n z.opened) (read_upto-Fills src Serves law c n p z.opened at.opened_at)
      where
        go :
            (out : Result IoError Bytes × S)
            → Fills src Serves law c p n out
            → Yields
                (λ bs z'. (bs ≡ take n (drop p c)) × At (p + min n (length c - p)) q i z')
                (map_err (λ _. message) out.0, record z { opened = out.1 })
        go _ (filled bs s e h) =
            yields _ _ (e, record { opened_at = h; cur_at = at.cur_at; same = at.same; on = at.on })

    cur_read :
        Yields
          (λ bs z'. (bs ≡ take n (drop q c)) × At p (q + min n (length c - q)) i z')
          (expect src message (on_cur src (read_upto Mem.source n)) z)
    cur_read =
        go (read_upto Mem.source n z.cur)
          (read_upto-Fills Mem.source Mem.Reader.Serves mem_follows c n q z.cur at.cur_at)
      where
        go :
            (out : Result IoError Bytes × Cursor)
            → Fills Mem.source Mem.Reader.Serves mem_follows c q n out
            → Yields
                (λ bs z'. (bs ≡ take n (drop q c)) × At p (q + min n (length c - q)) i z')
                (map_err (λ _. message) out.0, record z { cur = out.1 })
        go _ (filled bs s e h) =
            yields _ _
              (e, record { opened_at = at.opened_at; cur_at = h; same = at.same; on = at.on })

  assert-Yields :
      (P : Fuzzing S → Type 0) (b : Bool) (message : String) (z : Fuzzing S)
      → b ≡ true
      → P z
      → Yields (λ _. P) (assert b message z)
  assert-Yields P true message z e h = yields tt z h
  assert-Yields P false message z e h = absurd (cc)

  pub read_both-Yields :
      (n i : ℕ) (z : Fuzzing S) → Ready i z → Yields (λ _. Ready i) (read_both src n z)
  unfolding read_both
  read_both-Yields n i z r =
      let p = r.position in
      let p' = p + min n (length c - p) in
      and_then-Yields (λ bs z'. (bs ≡ take n (drop p c)) × At p' p i z') (λ _. Ready i) _ _
        (opened_read n p p i "composite read" z r.at)
        (λ got z₁ h.
          and_then-Yields (λ bs z'. (bs ≡ take n (drop p c)) × At p' p' i z') (λ _. Ready i) _ _
            (cur_read n p' p i "model read" z₁ h.1)
            (λ want z₂ k.
              assert-Yields (Ready i) (eq_bytes got want) "read bytes diverge" z₂
                (ap (eq_bytes got) (k.0 ∙ sym h.0) ∙ eq_bytes_refl got)
                (record { position = p'; small = omega (arith, r.small, fits); at = k.1 })))

  module _ (p q i : ℕ) (from : SeekFrom) (z : Fuzzing S) (at : At p q i z) where
    opened_sought :
        Fits from
        → Agrees (target (length c) p from) (src.seek from z.opened).0
          × At (landed (target (length c) p from) p) q i (on_opened src (src.seek from) z).1
    opened_sought u64 =
        let (agrees, h) =
          Seeks-Agrees Serves c p from (src.seek from z.opened)
            (law.seeks z.opened c p from at.opened_at u64) in
        (agrees, record { opened_at = h; cur_at = at.cur_at; same = at.same; on = at.on })

    cur_sought :
        Agrees (target (length c) q from) (Mem.seek from z.cur).0
        × At p (landed (target (length c) q from) q) i (on_cur src (Mem.seek from) z).1
    cur_sought =
        let (agrees, h) =
          Seeks-Agrees Mem.Reader.Serves c q from (Mem.seek from z.cur)
            (unfold Mem.source in MemReader-IsSource.seeks z.cur c q from at.cur_at) in
        (agrees, record { opened_at = at.opened_at; cur_at = h; same = at.same; on = at.on })

  -- The two assertions on the results.
  agree-Yields :
      (P : Fuzzing S → Type 0) (o : Option ℕ) (got want : Result IoError ℕ) (z : Fuzzing S)
      → Agrees o got
      → Agrees o want
      → P z
      → Yields (λ _. P) (seeks_agree src got want z)
  unfolding seeks_agree
  agree-Yields P none got want z (_, e) (_, f) h = rw (e, f) (yields tt z h)
  agree-Yields P (some q) got want z e f h =
      rw (e, f) (assert-Yields P (q == q) "seek position" z (==_refl q) h)

  pub seek_both-Yields :
      (from : SeekFrom) (i : ℕ) (z : Fuzzing S)
      → Fits from
      → Ready i z
      → Yields (λ _. Ready i) (seek_both src from z)
  unfolding seek_both
  seek_both-Yields from i z u64 r =
      let p = r.position in
      let o = target (length c) p from in
      let (a, h) = opened_sought p p i from z r.at u64 in
      let z₁ = (on_opened src (src.seek from) z).1 in
      let (b, k) = cur_sought (landed o p) p i from z₁ h in
      agree-Yields (Ready i) o (src.seek from z.opened).0 (Mem.seek from z.cur).0 _ a b (record {
        position = landed o p;
        small = landed-lt (length c) p from fits r.small u64;
        at = k;
      })

  pub read_nothing-Yields :
      (i : ℕ) (z : Fuzzing S) → Ready i z → Yields (λ _. Ready i) (read_nothing src z)
  unfolding read_nothing
  read_nothing-Yields i z r =
      let p = r.position in
      and_then-Yields (λ bs z'. (bs ≡ take 0 (drop p c)) × At (p + min 0 (length c - p)) p i z')
        (λ _. Ready i) _ _ (opened_read 0 p p i "zero-sized read" z r.at)
        (λ got z₁ h.
          assert-Yields (Ready i) (is_empty got) "zero-sized read must return no bytes" z₁
            (ap is_empty h.0)
            (record {
              position = p;
              small = r.small;
              at = subst (λ q. At q p i z₁) (omega arith) h.1;
            }))

  pub positions_agree-Yields :
      (i : ℕ) (z : Fuzzing S) → Ready i z → Yields (λ _. Ready i) (positions_agree src z)
  unfolding positions_agree
  positions_agree-Yields i z r =
      let p = r.position in
      let here = current (pos 0) in
      let o = target-stay (length c) p r.small in
      let (a, h) = opened_sought p p i here z r.at tt in
      let z₁ = (on_opened src (src.seek here) z).1 in
      let (b, k) = cur_sought p p i here z₁ (subst (λ t. At (landed t p) p i z₁) o h) in
      let sp : (src.seek here z.opened).0 ≡ ok p =
        subst (λ t. Agrees t (src.seek here z.opened).0) o a in
      let mp : (Mem.seek here z.cur).0 ≡ ok p = subst (λ t. Agrees t (Mem.seek here z.cur).0) o b in
      let z₂ = (on_cur src (Mem.seek here) z₁).1 in
      rw (sp, mp)
        (assert-Yields (Ready i) (p == p) "positions diverge after op" z₂ (==_refl p)
          (record { position = p; small = r.small; at = subst (λ t. At p (landed t p) i z₂) o k }))
