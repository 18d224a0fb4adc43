-- ===== src/Slice/Numbers.antt =====
-- src/slice.rs, `parse_canonical_u64`: it reads the decimal print of every `u64`, and nothing else.
use oxideav_source.Prelude.{
  ℕ, ◌+◌, ◌-◌, ◌*◌, ◌<◌, ◌≤◌, ◌≡◌, ◌↔◌, refl, sym, ◌∙◌, ap, true, [], ◌∷◌, ◌++◌, some, arith, Bytes,
  all, starts_with, is_ascii_digit, u64_mod, ok,
}
use oxideav_source.Decimal.{
  print_u64, read_u64, print-read, print-digit, read-print, print-canonical, print-IsDigit,
  print-not_empty,
}
use oxideav_source.Slice.{parse_canonical_u64}

parse_canonical-print : (n : ℕ) → n < u64_mod → parse_canonical_u64 (print_u64 n) ≡ ok n
unfolding parse_canonical_u64
parse_canonical-print n h =
    rw (print-not_empty n, print-IsDigit n, print-canonical n, read-print n h)

read_u64-lt : (s : Bytes) (acc n : ℕ) → acc < u64_mod → read_u64 s acc ≡ some n → n < u64_mod
unfolding read_u64
read_u64-lt [] acc n h e = ground arith
read_u64-lt (c ∷ s) acc n h e = ground (arith, read_u64-lt s (acc * 10 + (c - b'0')) n)

print_of_digit : (c n : ℕ) → (b'0' ≤ c) × (c ≤ b'9') → n ≡ c - b'0' → print_u64 n ≡ c ∷ []
print_of_digit c n h e =
    let back : n + b'0' ≡ c = omega arith in print-digit n (omega arith) ∙ ap (λ x. x ∷ []) back

parse_canonical_sound :
    (s : Bytes) (n : ℕ) → parse_canonical_u64 s ≡ ok n → (n < u64_mod) × (s ≡ print_u64 n)
unfolding parse_canonical_u64 read_u64 starts_with
parse_canonical_sound [] n e = absurd (cc)
parse_canonical_sound (c ∷ []) n e =
    let h : (b'0' ≤ c) × (c ≤ b'9') = (ground arith, ground arith) in
    let v : n ≡ c - b'0' = ground arith in (omega arith, sym (print_of_digit c n h v))
parse_canonical_sound (c ∷ d ∷ s) n e =
    let h : (b'0' ≤ c) × (c ≤ b'9') = (ground arith, ground arith) in
    let first : ℕ = c - b'0' in
    let digits : all is_ascii_digit (d ∷ s) ≡ true = ground arith in
    let positive : 0 < first = ground arith in
    let r : read_u64 (d ∷ s) first ≡ some n = ground arith in
    (
      read_u64-lt (d ∷ s) first n (omega arith) r,
      sym (
          print-read (d ∷ s) first n digits positive r
          ∙ ap (λ t. t ++ d ∷ s) (print_of_digit c first h refl)),
    )

-- A text is accepted as the number `n` if and only if `n` fits in 64 bits and the text is its
-- decimal print.
pub parse_canonical_u64_iff :
    (s : Bytes) (n : ℕ) → (parse_canonical_u64 s ≡ ok n) ↔ ((n < u64_mod) × (s ≡ print_u64 n))
parse_canonical_u64_iff s n =
    (parse_canonical_sound s n, λ p. ap parse_canonical_u64 p.1 ∙ parse_canonical-print n p.0)
