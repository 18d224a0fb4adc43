-- ===== src/Prelude/ByteStrings.antt =====
-- A `str` as its UTF-8 bytes, and the searches of `std` that the source makes in one. Every
-- pattern that the source searches for is ASCII, so a search by bytes finds what `str` finds.
use Prim.Native.Nat.{ℕ, ◌+◌}
use Prim.Native.Char.{code}
use Prim.Native.String.{String}
use mathlib.Core.Path.{◌≡◌, refl}
use mathlib.Core.Logic.{◌≢◌}
use mathlib.Core.Bool.{Bool, true, false, ◌&&◌, ◌||◌}
use mathlib.Core.List.{List, [], ◌∷◌, ◌++◌}
use mathlib.Core.Option
use mathlib.Core.Option.{Option, none, some}
use native.Mathlib.Omega.{arith}
use oxideav_source.Prelude.Tests.{◌==◌, if◌then◌else◌, between}
use oxideav_source.Prelude.Lists.{any}

abbrev pub Bytes : Type 0
Bytes = List ℕ

-- The bytes of an ASCII literal.
abbrev pub codes : String → Bytes
codes String.[] = []
codes (String.◌∷◌ c s) = code c ∷ codes s

abbrev pub is_ascii_digit : ℕ → Bool
is_ascii_digit b = between b'0' b'9' b

abbrev pub is_ascii_alphabetic : ℕ → Bool
is_ascii_alphabetic b = between b'a' b'z' b || between b'A' b'Z' b

abbrev pub is_ascii_alphanumeric : ℕ → Bool
is_ascii_alphanumeric b = is_ascii_alphabetic b || is_ascii_digit b

abbrev pub to_ascii_lowercase : ℕ → ℕ
to_ascii_lowercase b = if between b'A' b'Z' b then b + 32 else b

-- `<[u8]>::eq_ignore_ascii_case`
abbrev pub eq_ignore_ascii_case : Bytes → Bytes → Bool
eq_ignore_ascii_case [] [] = true
eq_ignore_ascii_case [] (d ∷ t) = false
eq_ignore_ascii_case (c ∷ s) [] = false
eq_ignore_ascii_case (c ∷ s) (d ∷ t) =
    to_ascii_lowercase c == to_ascii_lowercase d && eq_ignore_ascii_case s t

-- `s.contains(b)`
abbrev pub contains : ℕ → Bytes → Bool
contains b = any (λ c. c == b)

-- `find(b)`, then `split_at` there and `[1..]` on the second part: what stands before and behind
-- the first `b`.
unfoldable pub split_once : ℕ → Bytes → Option (Bytes × Bytes)
split_once b [] = none
split_once b (c ∷ s) =
    if c == b
    then some ([], s)
    else Option.map (λ (p : Bytes × Bytes). (c ∷ p.0, p.1)) (split_once b s)

-- `strip_prefix`
unfoldable pub strip_prefix : Bytes → Bytes → Option Bytes
strip_prefix [] s = some s
strip_prefix (c ∷ p) [] = none
strip_prefix (c ∷ p) (d ∷ s) = if c == d then strip_prefix p s else none

-- `starts_with`
unfoldable pub starts_with : Bytes → Bytes → Bool
starts_with [] s = true
starts_with (c ∷ p) [] = false
starts_with (c ∷ p) (d ∷ s) = c == d && starts_with p s

module _ (b : ℕ) where
  -- What stands before and behind the first `b`.
  pub split_once_sound :
      (u s t : Bytes) → split_once b u ≡ some (s, t) → (u ≡ s ++ b ∷ t) × (contains b s ≡ false)
  unfolding split_once
  split_once_sound [] s t h = cc
  split_once_sound (c ∷ u) [] t h = ground arith
  split_once_sound (c ∷ u) (d ∷ s) t h = ground (arith, split_once_sound u s t)

  pub split_once-append :
      (s t : Bytes) → contains b s ≡ false → split_once b (s ++ b ∷ t) ≡ some (s, t)
  unfolding split_once
  split_once-append [] t h = ground arith
  split_once-append (c ∷ s) t h = ground (arith, split_once-append s t)

  pub split_once-none : (u : Bytes) → contains b u ≡ false → split_once b u ≡ none
  unfolding split_once
  split_once-none [] h = refl
  split_once-none (c ∷ u) h = ground (arith, split_once-none u)

  pub split_once_found : (u : Bytes) → contains b u ≡ true → split_once b u ≢ none
  unfolding split_once
  split_once_found [] h = cc
  split_once_found (c ∷ u) h = ground (arith, split_once_found u)

pub strip_prefix-append : (p s : Bytes) → strip_prefix p (p ++ s) ≡ some s
unfolding strip_prefix
strip_prefix-append [] s = refl
strip_prefix-append (c ∷ p) s = ground (arith, strip_prefix-append p s)

pub strip_prefix_sound : (p s t : Bytes) → strip_prefix p s ≡ some t → s ≡ p ++ t
unfolding strip_prefix
strip_prefix_sound [] s t h = ground arith
strip_prefix_sound (c ∷ p) [] t h = cc
strip_prefix_sound (c ∷ p) (d ∷ s) t h = ground (arith, strip_prefix_sound p s t)

-- A prefix is stripped exactly when it is there.
pub strip_prefix-none : (p s : Bytes) → starts_with p s ≡ false → strip_prefix p s ≡ none
unfolding strip_prefix starts_with
strip_prefix-none [] s h = cc
strip_prefix-none (c ∷ p) [] h = refl
strip_prefix-none (c ∷ p) (d ∷ s) h = ground (arith, strip_prefix-none p s)

pub contains-append : (b : ℕ) (s t : Bytes) → contains b (s ++ t) ≡ (contains b s || contains b t)
contains-append b [] t = refl
contains-append b (c ∷ s) t = ground (arith, contains-append b s t)

-- `==` on strings.
unfoldable pub eq_bytes : Bytes → Bytes → Bool
eq_bytes [] [] = true
eq_bytes [] (d ∷ t) = false
eq_bytes (c ∷ s) [] = false
eq_bytes (c ∷ s) (d ∷ t) = c == d && eq_bytes s t

pub eq_bytes_sound : (s t : Bytes) → eq_bytes s t ≡ true → s ≡ t
unfolding eq_bytes
eq_bytes_sound [] [] h = refl
eq_bytes_sound [] (d ∷ t) h = cc
eq_bytes_sound (c ∷ s) [] h = cc
eq_bytes_sound (c ∷ s) (d ∷ t) h = ground (arith, eq_bytes_sound s t)

pub eq_bytes_refl : (s : Bytes) → eq_bytes s s ≡ true
unfolding eq_bytes
eq_bytes_refl [] = refl
eq_bytes_refl (c ∷ s) = ground (arith, eq_bytes_refl s)
