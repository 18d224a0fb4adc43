-- ===== src/Prelude/Utf8.antt =====
-- `String::from_utf8` of `std`: the well-formed byte sequences of UTF-8, read lead byte by lead
-- byte with the ranges that the bytes behind it must lie in.
use oxideav_source.Prelude.Tests.{ltb, between, ◌==◌, if◌then◌else◌}
use oxideav_source.Prelude.ByteStrings.{Bytes}
use Prim.Native.Nat.{ℕ, ◌<◌}
use mathlib.Core.Path.{◌≡◌, refl}
use mathlib.Core.Bool.{Bool, true, false, ◌||◌}
use mathlib.Core.List.{List, [], ◌∷◌}
use mathlib.Core.Option.{Option, none, some}
use native.Mathlib.Omega.{arith}
use oxideav_source.Prelude.Lists.{All}

abbrev Ranges : Type 0
Ranges = List (ℕ × ℕ)

abbrev tail : ℕ × ℕ
tail = (0x80, 0xbf)

lead_byte : ℕ → Option Ranges
lead_byte b =
    if ltb b 0x80
    then some []
    else if between 0xc2 0xdf b
    then some (tail ∷ [])
    else if b == 0xe0
    then some ((0xa0, 0xbf) ∷ tail ∷ [])
    else if between 0xe1 0xec b || between 0xee 0xef b
    then some (tail ∷ tail ∷ [])
    else if b == 0xed
    then some ((0x80, 0x9f) ∷ tail ∷ [])
    else if b == 0xf0
    then some ((0x90, 0xbf) ∷ tail ∷ tail ∷ [])
    else if between 0xf1 0xf3 b
    then some (tail ∷ tail ∷ tail ∷ [])
    else if b == 0xf4
    then some ((0x80, 0x8f) ∷ tail ∷ tail ∷ [])
    else none

-- The ranges that are open behind one more byte; `none` where it is not allowed.
next_byte : Ranges → ℕ → Option Ranges
unfolding lead_byte
next_byte [] b = lead_byte b
next_byte ((lo, hi) ∷ rest) b = if between lo hi b then some rest else none

utf8_from : Option Ranges → Bytes → Bool
utf8_from none s = false
utf8_from (some []) [] = true
utf8_from (some (r ∷ rest)) [] = false
utf8_from (some open_ranges) (b ∷ s) = utf8_from (next_byte open_ranges b) s

unfoldable pub is_utf8 : Bytes → Bool
unfolding utf8_from next_byte
is_utf8 s = utf8_from (some []) s

pub is_utf8_ascii : (s : Bytes) → All (λ b. b < 0x80) s → is_utf8 s ≡ true
unfolding is_utf8
is_utf8_ascii [] h = refl
is_utf8_ascii (b ∷ s) (hb, hs) = ground (arith, is_utf8_ascii s hs)
