-- ===== src/Fuzz/Passing.antt =====
-- fuzz/fuzz_targets/compose_open.rs: the target passes on every input.
use oxideav_source.Prelude.{
  ℕ, zero, suc, ◌+◌, ◌-◌, ◌*◌, ◌%◌, ◌≤◌, ◌<◌, ◌≡◌, refl, ◌∙◌, ap, inl, inr, false, arith, All,
  Bytes, String, ◌==◌, length, u64_mod, get_or, Bool-cases, if-cases, leb, Result, ok,
}
use oxideav_source.Base64.Groups.{IsByte}
use oxideav_source.Source.{SeekFrom, start, from_end, current, Source, Run, ◌>>=◌, ◌>>◌}
use oxideav_source.Mem.{Table}
use oxideav_source.Mem.Reader.{new-Serves}
use oxideav_source.Open.{FileSystem, dyn_source}
use oxideav_source.Fuzz.Compose.{
  Script, Draw, Composition, u8, u16, below, exhausted, level_of, new, build,
}
use oxideav_source.Fuzz.Draws.{
  Yields-ok, Yields, yields, and_then-Yields, After, Draws, return-Draws, >>=-Draws, if-Draws,
  u8-Draws, u16-Draws, below-Draws,
}
use oxideav_source.Fuzz.Drive.{
  start_from, current_delta, current_from, end_delta, end_from, Fuzzing, on_script, seek_both,
  positions_agree, operation, drive, drive_opened, open_and_drive, drive_built, compose_open,
}
use oxideav_source.Fuzz.Landing.{Fits, IsFollower, source-IsFollower}
use oxideav_source.Fuzz.Opening.{ServesAt, law_at}
use oxideav_source.Fuzz.Composed.{IsComposed}
use oxideav_source.Fuzz.Composing.{build-Draws}
use oxideav_source.Fuzz.Driving.{
  Ready, on_script-Yields, read_both-Yields, seek_both-Yields, read_nothing-Yields,
  positions_agree-Yields,
}

start_from-Draws : (len : ℕ) → len ≤ 65536 → Draws Fits (start_from len)
unfolding start_from
start_from-Draws len h = >>=-Draws _ _ u8 _ u8-Draws (λ x _.
    if-Draws _ (x % 16 == 0) _ _
      (λ _.
        >>=-Draws _ _ u8 _ u8-Draws
          (λ y _. return-Draws _ (start (u64_mod - 1 - y % 4)) (omega arith)))
      (λ _.
        >>=-Draws _ _ (below (len * 2 + 16)) _ (below-Draws (len * 2 + 16) (omega arith))
          (λ t lt. return-Draws _ (start t) (omega arith))))

current_from-Draws : (len : ℕ) → Draws Fits (current_from len)
unfolding current_from
current_from-Draws len =
    >>=-Draws _ _ (below (len + 24)) _ (below-Draws (len + 24) (omega arith)) (λ mag _.
      >>=-Draws _ _ u8 _ u8-Draws
        (λ x _. return-Draws Fits (current (current_delta mag (x % 12))) tt))

end_from-Draws : (len : ℕ) → Draws Fits (end_from len)
unfolding end_from
end_from-Draws len =
    >>=-Draws _ _ (below (len + 24)) _ (below-Draws (len + 24) (omega arith)) (λ mag _.
      >>=-Draws _ _ u8 _ u8-Draws (λ x _. return-Draws Fits (from_end (end_delta mag x)) tt))

module _ {S : Type 0} (src : Source S) (Serves : S → Bytes → ℕ → Type 0)
    (law : IsFollower src Serves) (c d : Bytes) (fits : length c ≤ 65536) (bytes : All IsByte d)
    (most : ℕ) where
  pub small : length c < u64_mod
  small = omega (arith, fits)

  abbrev pub InStep : ℕ → Fuzzing S → Type 0
  InStep = Ready src Serves law c d small bytes

  -- Every operation keeps the two in step.
  operation-Yields :
      (k i : ℕ) (z : Fuzzing S)
      → InStep i z
      → Yields (λ _. InStep i) (operation src most (length c) k z)
  unfolding operation
  operation-Yields k i z r =
      let len = length c in
      let P = λ (m : Run String (Fuzzing S) (Unit {0})). Yields (λ _. InStep i) (m z) in
      if-cases P (leb k 3)
        (λ _.
          on_draw (λ x. x < 65536) u16 _ u16-Draws
            (λ x z' _ r'. read_both-Yields src Serves law c d small bytes (x % most) i z' r'))
        (λ _.
          if-cases P (k == 4) (λ _. on_from (start_from len) (start_from-Draws len fits))
            (λ _.
              if-cases P (k == 5) (λ _. on_from (current_from len) (current_from-Draws len))
                (λ _.
                  if-cases P (k == 6) (λ _. on_from (end_from len) (end_from-Draws len))
                    (λ _. read_nothing-Yields src Serves law c d small bytes i z r))))
    where
      on_draw :
          {A : Type 0} (P : A → Type 0) (m : Draw A) (f : A → Run String (Fuzzing S) (Unit {0}))
          → Draws P m
          → ((a : A) (z' : Fuzzing S) → P a → InStep i z' → Yields (λ _. InStep i) (f a z'))
          → Yields (λ _. InStep i) ((on_script src m >>= f) z)
      on_draw P m f h next =
          and_then-Yields (λ a z'. P a × InStep i z') (λ _. InStep i) _ f
            (on_script-Yields src Serves law c d small bytes P m i z h r)
            (λ a z' k. next a z' k.0 k.1)

      on_from :
          (m : Draw SeekFrom)
          → Draws Fits m
          → Yields (λ _. InStep i) ((on_script src m >>= seek_both src) z)
      on_from m h =
          on_draw Fits m (seek_both src) h
            (λ from z' u64 r'. seek_both-Yields src Serves law c d small bytes from i z' u64 r')

  -- A byte of the script is read, and the script stands behind it.
  past_byte :
      (i : ℕ) (z : Fuzzing S)
      → InStep i z
      → InStep (suc z.script.i) (record z { script = record z.script { i = z.script.i + 1 } })
  past_byte i z r = record {
    position = r.position;
    small = r.small;
    at = record {
      opened_at = r.at.opened_at;
      cur_at = r.at.cur_at;
      same = r.at.same;
      on = omega arith;
    };
  }

  round-Yields :
      (k i : ℕ) (z : Fuzzing S) (rest : Run String (Fuzzing S) (Unit {0}))
      → InStep i z
      → ((z' : Fuzzing S) → InStep i z' → Yields (λ _ _. Unit {0}) (rest z'))
      → Yields
          (λ _ _. Unit {0})
          ((operation src most (length c) k >> (positions_agree src >> rest)) z)
  round-Yields k i z rest r next =
      and_then-Yields (λ _. InStep i) (λ _ _. Unit) (operation src most (length c) k z)
        (λ _. positions_agree src >> rest) (operation-Yields k i z r)
        (λ _ z₁ r₁.
          and_then-Yields (λ _. InStep i) (λ _ _. Unit) (positions_agree src z₁) (λ _. rest)
            (positions_agree-Yields src Serves law c d small bytes i z₁ r₁) (λ _ z₂ r₂. next z₂ r₂))

  inside : (z : Fuzzing S) → exhausted z.script ≡ false → z.script.d ≡ d → z.script.i < length d
  unfolding exhausted
  inside z on same = omega (arith, ap length same, ground_lt (length z.script.d) z.script.i on)
    where
      ground_lt : (a b : ℕ) → leb a b ≡ false → b < a
      ground_lt a b h = ground arith

  -- As many rounds as bytes of the script are left, and one more, are enough.
  pub drive-Yields :
      (rounds i : ℕ) (z : Fuzzing S)
      → length d - i < rounds
      → InStep i z
      → Yields (λ _ _. Unit {0}) (drive src most rounds (length c) z)
  unfolding drive
  drive-Yields zero i z h r = absurd (omega arith)
  drive-Yields (suc rounds) i z h r = elim (Bool-cases (exhausted z.script)) [
    | inl over ↦ rw over (yields tt z tt)
    | inr on ↦
        let left : length d - suc z.script.i < rounds =
          omega (arith, h, r.at.on, inside z on r.at.same) in
        rw on (
          round-Yields (get_or z.script.d z.script.i 0 % 8) (suc z.script.i) _
            (drive src most rounds (length c)) (past_byte i z r)
            (λ z' r'. drive-Yields rounds (suc z.script.i) z' left r'))
  ]

module _ {F : Type 0} (fs : FileSystem F) (table : Table) (d : Bytes) (bytes : All IsByte d) where
  open_and_drive_passes :
      (c : Composition) (sc : Script)
      → IsComposed fs table 4096 c
      → sc.d ≡ d
      → open_and_drive fs table c sc ≡ ok tt
  unfolding open_and_drive
  open_and_drive_passes c sc h same =
      let n = level_of c.uri in
      let (r, e, serves) = h.opens.at n (omega arith) in
      ap (drive_opened fs table c sc) e
      ∙ (Yields-ok _ (
          drive-Yields (dyn_source fs n) (ServesAt fs table n)
            (source-IsFollower (dyn_source fs n) (ServesAt fs table n) (law_at fs table n)) c.model
            d (omega (arith, h.short)) bytes 300 (suc (length sc.d)) 0 _
            (omega (arith, ap length same))
            (record {
              position = 0;
              small = omega arith;
              at = record {
                opened_at = serves;
                cur_at = new-Serves c.model (omega (arith, h.short));
                same = same;
                on = omega arith;
              };
            })))

  -- On every input of bytes, whatever files and buffers there are, the target `compose_open` ends
  -- without a panic: the URI that the script builds opens, windows past its end are refused, and
  -- every read, seek and position agrees with the cursor over the model.
  pub compose_open_passes : compose_open fs table d ≡ ok tt
  unfolding compose_open
  compose_open_passes =
      built (build fs table (new d)) ((build-Draws fs table).at (new d) (unfold new in bytes))
    where
      built :
          (out : Result String Composition × Script)
          → Yields (After (IsComposed fs table 4096) (new d)) out
          → drive_built fs table out ≡ ok tt
      built _ (yields c sc k) = open_and_drive_passes c sc k.drawn (k.same ∙ (unfold new in refl))
