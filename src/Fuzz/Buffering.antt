-- ===== src/Fuzz/Buffering.antt =====
-- fuzz/fuzz_targets/buffered_model.rs: the target passes on every input.
use oxideav_source.Prelude.{
  ℕ, zero, suc, ◌%◌, ◌≤◌, ◌<◌, ◌≡◌, refl, ◌∙◌, ap, arith, ==_refl, All, Bytes, String, length,
  u64_mod, Result, ok, IoError,
}
use oxideav_source.Base64.Groups.{IsByte}
use oxideav_source.Source.{SeekFrom, start, from_end, current, Seeks, Never}
use oxideav_source.Mem
use oxideav_source.Mem.{MemReader}
use oxideav_source.Mem.Reader
use oxideav_source.Mem.Reader.{MemReader-IsSource, new-Serves}
use oxideav_source.Open.{cursor_new}
use oxideav_source.Buffered.Builder
use oxideav_source.Buffered.Builder.{BufferedSource, BufferedSourceBuilder, len}
use oxideav_source.Buffered.System.{System, spawn}
use oxideav_source.Buffered.Reachable.{Built, running, lost, build-Built}
use oxideav_source.Buffered.Waking.{IsUninterrupted}
use oxideav_source.Buffered.Sequential.{sequential, Rests, sequential-Reads, sequential-Seeks}
use oxideav_source.Fuzz.Compose
use oxideav_source.Fuzz.Compose.{Script, u8, u16}
use oxideav_source.Fuzz.Draws.{
  Yields, yields, Yields-ok, After, Draws, return-Draws, >>=-Draws, u8-Draws, u16-Draws,
}
use oxideav_source.Fuzz.Landing.{Fits, IsFollower}
use oxideav_source.Fuzz.Passing.{drive-Yields}
use oxideav_source.Fuzz.Buffered.{
  ramp, Setup, chosen, setup, drive_probed, drive_buffered, build_and_drive, drive_drawn,
  buffered_model,
}

length-ramp : (i n seed : ℕ) → length (ramp i n seed) ≡ n
unfolding ramp
length-ramp i zero seed = refl
length-ramp i (suc n) seed = omega (arith, length-ramp (suc i) n seed)

abbrev IsSane : Setup → Type 0
IsSane s = (length s.payload ≤ 65536) × (s.knobs.block_size < 65536)

chosen-IsSane :
    (capacity block num den x seed : ℕ)
    → block < 65536
    → x < 65536
    → IsSane (chosen capacity block num den x seed)
unfolding chosen
chosen-IsSane capacity block num den x seed h k = (omega (arith, length-ramp 0 (x % 80000) seed), h)

setup-Draws : Draws IsSane setup
unfolding setup
setup-Draws = >>=-Draws _ _ u16 _ u16-Draws (λ capacity _.
    >>=-Draws _ _ u16 _ u16-Draws (λ block small. >>=-Draws _ _ u8 _ u8-Draws (λ num _.
      >>=-Draws _ _ u8 _ u8-Draws (λ den _. >>=-Draws _ _ u16 _ u16-Draws (λ x le.
        >>=-Draws _ _ u8 _ u8-Draws (λ seed _.
          return-Draws _ (chosen capacity block num den x seed)
            (chosen-IsSane capacity block num den x seed small le)))))))

never_quiet : IsUninterrupted Never
never_quiet e h = absurd h

module _ (wrap : ℕ) where
  -- A resting `BufferedSource` over a cursor.
  abbrev RestsOn : System MemReader → Bytes → ℕ → Type 0
  RestsOn = Rests Mem.source wrap Mem.Reader.Serves Never MemReader-IsSource never_quiet

  seeks_follow :
      (s : System MemReader) (c : Bytes) (p : ℕ) (from : SeekFrom)
      → RestsOn s c p
      → Fits from
      → Seeks RestsOn Never c p from ((sequential Mem.source wrap).seek from s)
  seeks_follow s c p (start n) h u64 =
      sequential-Seeks Mem.source wrap Mem.Reader.Serves Never MemReader-IsSource never_quiet s c p
        (start n) h u64
  seeks_follow s c p (from_end x) h u64 =
      sequential-Seeks Mem.source wrap Mem.Reader.Serves Never MemReader-IsSource never_quiet s c p
        (from_end x) h tt
  seeks_follow s c p (current x) h u64 =
      sequential-Seeks Mem.source wrap Mem.Reader.Serves Never MemReader-IsSource never_quiet s c p
        (current x) h tt

  follows : IsFollower (sequential Mem.source wrap) RestsOn
  follows = record {
    reads = sequential-Reads Mem.source wrap Mem.Reader.Serves Never MemReader-IsSource never_quiet;
    seeks = seeks_follow;
  }

  module _ (d : Bytes) (bytes : All IsByte d) where
    drive_buffered_passes :
        (c : Bytes) (sc : Script) (out : Result IoError BufferedSource × MemReader)
        (short : length c < u64_mod)
        → length c ≤ 65536
        → sc.d ≡ d
        → Built Mem.source Mem.Reader.Serves Never MemReader-IsSource c short 0 out
        → drive_buffered wrap c sc out ≡ ok tt
    drive_buffered_passes c sc _ short le same (running b inner at known _ h) =
        ap (λ o. drive_probed wrap o c sc (spawn b inner)) known
        ∙ (unfold drive_probed in
            rw (==_refl (length c)) (
              Yields-ok _ (
                drive-Yields (sequential Mem.source wrap) RestsOn follows c d le bytes 4000
                  (suc (length sc.d)) 0 _ (omega (arith, ap length same))
                  (record {
                    position = 0;
                    small = omega arith;
                    at = record {
                      opened_at = record {
                        ok_system = h;
                        resting = unfold spawn in refl;
                        position = unfold spawn in at;
                        short = short;
                      };
                      cur_at = new-Serves c short;
                      same = same;
                      on = omega arith;
                    };
                  }))))
    drive_buffered_passes c sc _ short le same (lost e inner never) = absurd never

    build_and_drive_passes :
        (s : Setup) (sc : Script) → IsSane s → sc.d ≡ d → build_and_drive wrap s sc ≡ ok tt
    unfolding build_and_drive
    build_and_drive_passes s sc (le, small) same =
        let short : length s.payload < u64_mod = omega (arith, le) in
        drive_buffered_passes s.payload sc (Builder.build Mem.source s.knobs (cursor_new s.payload))
          short le same
          (build-Built Mem.source Mem.Reader.Serves Never MemReader-IsSource s.payload short s.knobs
            (omega (arith, small)) 0 (omega arith) (cursor_new s.payload)
            (new-Serves s.payload short))

    -- On every input of bytes, where the worker runs only while the reader waits and no wait times
    -- out, and whatever the layout of the deque is, the target `buffered_model` ends without a
    -- panic: with any knobs the source is built and knows its length, and every read, seek and
    -- position agrees with the cursor over the same bytes.
    pub buffered_model_passes : buffered_model wrap d ≡ ok tt
    unfolding buffered_model
    buffered_model_passes =
        drawn (setup (Compose.new d)) (setup-Draws.at (Compose.new d) (unfold Compose.new in bytes))
      where
        drawn :
            (out : Result String Setup × Script)
            → Yields (After IsSane (Compose.new d)) out
            → drive_drawn wrap out ≡ ok tt
        drawn _ (yields s sc k) =
            build_and_drive_passes s sc k.drawn (k.same ∙ (unfold Compose.new in refl))
