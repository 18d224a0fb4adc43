-- ===== src/Prelude/Bits.antt =====
-- Laws of `|` and `&` that shifts and masks need. Both operations go digit by digit, so one lemma
-- on the fuel of the recursion serves the two.
use Prim.Native.Nat.{
  ℕ, zero, suc, ◌+◌, ◌*◌, ◌/◌, ◌%◌, ◌^◌, ◌≤◌, ◌<◌, min, max, bit_and, bit_or, digits,
  bit_and-bitwise, bit_or-bitwise,
}
use mathlib.Core.Path.{◌≡◌, refl, ap, sym, ◌∙◌}
use native.Mathlib.Nat.{pow-suc}
use native.Mathlib.Omega.{arith}

module _ (leaf : ℕ → ℕ) (f : ℕ → ℕ → ℕ) where
  -- Fuel at least the first number is enough.
  digits-fuel : (n m a b : ℕ) → a ≤ n → a ≤ m → digits leaf f n a b ≡ digits leaf f m a b
  digits-fuel n m zero b p q = at_zero n ∙ sym (at_zero m)
    where
      at_zero : (k : ℕ) → digits leaf f k 0 b ≡ leaf b
      at_zero zero = refl
      at_zero (suc k) = refl
  digits-fuel zero m (suc a) b p q = absurd (omega arith)
  digits-fuel (suc n) zero (suc a) b p q = absurd (omega arith)
  digits-fuel (suc n) (suc m) (suc a) b p q =
      omega (arith, digits-fuel n m (suc a / 2) (b / 2) (omega arith) (omega arith))

pub zero-bit_or : (b : ℕ) → bit_or 0 b ≡ b
zero-bit_or b = bit_or-bitwise 0 b

zero-bit_and : (b : ℕ) → bit_and 0 b ≡ 0
zero-bit_and b = bit_and-bitwise 0 b

-- One digit of `|`, and one of `&`.
or_digit : (a b : ℕ) → bit_or a b ≡ bit_or (a / 2) (b / 2) * 2 + max (a % 2) (b % 2)
or_digit zero b = omega (arith, zero-bit_or b, zero-bit_or (b / 2))
or_digit (suc a) b =
    let half = suc a / 2 in
    omega (
      arith,
      digits-fuel (λ d. d) max a half half (b / 2) (omega arith) (omega arith),
      bit_or-bitwise (suc a) b,
      bit_or-bitwise half (b / 2),
    )

and_digit : (a b : ℕ) → bit_and a b ≡ bit_and (a / 2) (b / 2) * 2 + min (a % 2) (b % 2)
and_digit zero b = omega (arith, zero-bit_and b, zero-bit_and (b / 2))
and_digit (suc a) b =
    let half = suc a / 2 in
    omega (
      arith,
      digits-fuel (λ d. zero) min a half half (b / 2) (omega arith) (omega arith),
      bit_and-bitwise (suc a) b,
      bit_and-bitwise half (b / 2),
    )

or_nothing : (n a : ℕ) → a ≤ n → digits (λ d. d) max n a 0 ≡ a
or_nothing n zero h = ends n
  where
    ends : (k : ℕ) → digits (λ d. d) max k 0 0 ≡ 0
    ends zero = refl
    ends (suc k) = refl
or_nothing zero (suc a) h = absurd (omega arith)
or_nothing (suc n) (suc a) h = omega (arith, or_nothing n (suc a / 2) (omega arith))

and_nothing : (n a : ℕ) → digits (λ d. zero) min n a 0 ≡ 0
and_nothing zero a = refl
and_nothing (suc n) zero = refl
and_nothing (suc n) (suc a) = omega (arith, and_nothing n (suc a / 2))

bit_or-zero : (a : ℕ) → bit_or a 0 ≡ a
bit_or-zero a = bit_or-bitwise a 0 ∙ or_nothing a a (omega arith)

bit_and-zero : (a : ℕ) → bit_and a 0 ≡ 0
bit_and-zero a = bit_and-bitwise a 0 ∙ and_nothing a a

-- `|` of a shifted number and one that fits in the bits below it is their sum.
pub bit_or_shifted : (k x y : ℕ) → y < 2 ^ k → bit_or (x * 2 ^ k) y ≡ x * 2 ^ k + y
bit_or_shifted zero x y h =
    let none_left : y ≡ 0 = omega arith in
    omega (arith, bit_or-zero (x * 2 ^ 0), ap (bit_or (x * 2 ^ 0)) none_left)
bit_or_shifted (suc k) x y h =
    let wide : 2 ^ suc k ≡ 2 ^ k * 2 = pow-suc 2 k in
    let half : x * 2 ^ suc k / 2 ≡ x * 2 ^ k = omega (arith, wide, ap (λ (t : ℕ). x * t) wide) in
    omega (
      arith,
      wide,
      ap (λ (t : ℕ). x * t) wide,
      or_digit (x * 2 ^ suc k) y,
      ap (λ t. bit_or t (y / 2)) half,
      bit_or_shifted k x (y / 2) (omega (arith, wide)),
    )

-- `&` with a mask of ones, for the masks of the program.
mask_7 : (a : ℕ) → bit_and a 7 ≡ a % 8
mask_7 a =
    let q = a / 2 / 2 in
    omega (arith, and_digit a 7, and_digit (a / 2) 3, and_digit q 1, bit_and-zero (q / 2))

pub bit_and_63 : (a : ℕ) → bit_and a 0x3f ≡ a % 64
bit_and_63 a =
    let q = a / 2 / 2 in
    omega (arith, and_digit a 63, and_digit (a / 2) 31, and_digit q 15, mask_7 (q / 2))

pub bit_and_255 : (a : ℕ) → bit_and a 0xff ≡ a % 256
bit_and_255 a = omega (arith, and_digit a 255, and_digit (a / 2) 127, bit_and_63 (a / 2 / 2))
