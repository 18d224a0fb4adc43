-- ===== src/Decimal.antt =====
-- `u64` in decimal, as `std` prints it (`{}`) and reads it (`str::parse`, of digits alone).
use oxideav_source.Prelude.{
  ℕ, zero, suc, ◌+◌, ◌-◌, ◌*◌, ◌/◌, ◌%◌, ◌≤◌, ◌<◌, ◌≡◌, refl, sym, ◌∙◌, ap, inl, inr, Bool, true,
  false, ◌&&◌, [], ◌∷◌, ◌++◌, append-nil, append_assoc, Option, none, some, arith, Bytes, codes,
  ltb, if◌then◌else◌, u64_mod, is_ascii_digit, all, all-append, is_empty, length, starts_with,
  Bool-cases, contains,
}

-- The digits of `n`, highest first; the fuel bounds their number.
digits : ℕ → ℕ → Bytes
digits zero n = []
digits (suc f) n =
    let higher = digits f (n / 10) in
    if ltb n 10 then (n + b'0') ∷ [] else higher ++ (n % 10 + b'0') ∷ []

-- A number has fewer digits than its successor counts.
unfoldable pub print_u64 : ℕ → Bytes
unfolding digits
print_u64 n = digits (suc n) n

-- Reads digits behind the value `acc`; `none` on overflow of 64 bits.
unfoldable pub read_u64 : Bytes → ℕ → Option ℕ
read_u64 [] acc = some acc
read_u64 (c ∷ s) acc =
    let more = acc * 10 + (c - b'0') in if ltb more u64_mod then read_u64 s more else none

digits-fuel : (f g n : ℕ) → n < f → n < g → digits f n ≡ digits g n
unfolding digits
digits-fuel zero g n h k = absurd (omega arith)
digits-fuel (suc f) zero n h k = absurd (omega arith)
digits-fuel (suc f) (suc g) n h k = elim (Bool-cases (ltb n 10)) [
  | inl small ↦ rw small
  | inr large ↦ rw (large, digits-fuel f g (n / 10) (ground arith) (ground arith))
]

pub print-digit : (n : ℕ) → n < 10 → print_u64 n ≡ (n + b'0') ∷ []
unfolding print_u64
print-digit n h = ground arith

-- Printing goes on by the last digit.
pub print-step :
    (n d : ℕ) → 0 < n → d < 10 → print_u64 (n * 10 + d) ≡ print_u64 n ++ (d + b'0') ∷ []
unfolding print_u64
print-step n d h k =
    rw (large, quotient, rest, digits-fuel (n * 10 + d) (suc n) n (omega arith) (omega arith))
  where
    large : ltb (n * 10 + d) 10 ≡ false
    large = ground arith

    quotient : (n * 10 + d) / 10 ≡ n
    quotient = omega arith

    rest : (n * 10 + d) % 10 ≡ d
    rest = omega arith

-- What is read behind a positive value extends its print.
pub print-read :
    (s : Bytes) (acc n : ℕ)
    → all is_ascii_digit s ≡ true
    → 0 < acc
    → read_u64 s acc ≡ some n
    → print_u64 n ≡ print_u64 acc ++ s
unfolding read_u64
print-read [] acc n h p e = let same : acc ≡ n = ground arith in rw (same, append-nil)
print-read (c ∷ s) acc n h p e =
    let more = acc * 10 + (c - b'0') in
    let digit : (b'0' ≤ c) × (c ≤ b'9') = (ground arith, ground arith) in
    let e' : read_u64 s more ≡ some n = ground arith in
    let back : c - b'0' + b'0' ≡ c = omega arith in
    print-read s more n (ground arith) (omega arith) e'
    ∙ rw (print-step acc (c - b'0') p (omega arith), back, append_assoc)

-- A print is read back, whatever follows it.
digits-read :
    (f n : ℕ) (s : Bytes) → n < f → n < u64_mod → read_u64 (digits f n ++ s) 0 ≡ read_u64 s n
unfolding digits
digits-read zero n s h k = absurd (omega arith)
digits-read (suc f) n s h k = elim (Bool-cases (ltb n 10)) [
  | inl small ↦ rw small (unfold read_u64 in ground arith)
  | inr large ↦
      rw
        (
          large,
          append_assoc,
          digits-read f (n / 10) ((n % 10 + b'0') ∷ s) (ground arith) (omega arith),
        )
        (unfold read_u64 in ground arith)
]

pub read-print : (n : ℕ) → n < u64_mod → read_u64 (print_u64 n) 0 ≡ some n
read-print n h =
    ap (λ t. read_u64 t 0) (sym (append-nil (print_u64 n)))
    ∙ unfold print_u64 in digits-read (suc n) n [] (omega arith) h ∙ unfold read_u64 in refl

-- A positive number is printed without a leading zero.
first_digit :
    (f n : ℕ) (s : Bytes) → n < f → 0 < n → starts_with (codes "0") (digits f n ++ s) ≡ false
unfolding digits
first_digit zero n s h k = absurd (omega arith)
first_digit (suc f) n s h k = elim (Bool-cases (ltb n 10)) [
  | inl small ↦ rw small (unfold starts_with in ground arith)
  | inr large ↦
      rw (large, append_assoc)
        (first_digit f (n / 10) ((n % 10 + b'0') ∷ s) (ground arith) (ground arith))
]

pub print-canonical :
    (n : ℕ) → (ltb 1 (length (print_u64 n)) && starts_with (codes "0") (print_u64 n)) ≡ false
print-canonical zero = unfold print_u64 in refl
print-canonical (suc n) = rw nonzero (and_false (ltb 1 (length (print_u64 (suc n)))))
  where
    nonzero : starts_with (codes "0") (print_u64 (suc n)) ≡ false
    nonzero =
        ap (starts_with (codes "0")) (sym (append-nil (print_u64 (suc n))))
        ∙ (unfold print_u64 in first_digit (suc (suc n)) (suc n) [] (omega arith) (omega arith))

    and_false : (b : Bool) → (b && false) ≡ false
    and_false b = ground arith

digits-IsDigit : (f n : ℕ) → all is_ascii_digit (digits f n) ≡ true
unfolding digits
digits-IsDigit zero n = refl
digits-IsDigit (suc f) n = elim (Bool-cases (ltb n 10)) [
  | inl small ↦ rw small (ground arith)
  | inr large ↦ rw (large, all-append, digits-IsDigit f (n / 10)) (ground arith)
]

pub print-IsDigit : (n : ℕ) → all is_ascii_digit (print_u64 n) ≡ true
unfolding print_u64
print-IsDigit n = digits-IsDigit (suc n) n

pub print-not_empty : (n : ℕ) → is_empty (print_u64 n) ≡ false
unfolding print_u64 digits
print-not_empty n = elim (Bool-cases (ltb n 10)) [
  | inl small ↦ rw small
  | inr large ↦ rw large (snoc (digits n (n / 10)) (n % 10 + b'0'))
]
  where
    snoc : (s : Bytes) (c : ℕ) → is_empty (s ++ c ∷ []) ≡ false
    snoc [] c = refl
    snoc (d ∷ s) c = refl

pub digits-Lack :
    (b : ℕ) (s : Bytes)
    → is_ascii_digit b ≡ false
    → all is_ascii_digit s ≡ true
    → contains b s ≡ false
digits-Lack b [] h k = refl
digits-Lack b (c ∷ s) h k = ground (arith, digits-Lack b s h)
