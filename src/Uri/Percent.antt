-- ===== src/Uri/Percent.antt =====
-- src/uri.rs, `percent_decode_bytes` and `percent_decode_path`: the grammar that they accept.
use Prim.Native.Nat.{bit_or}
use oxideav_source.Prelude.{
  ℕ, ◌+◌, ◌-◌, ◌*◌, ◌%◌, ◌<◌, ◌≡◌, ◌≢◌, ◌↔◌, refl, sym, ap, subst, ◌∙◌, ◌⊎◌, inl, inr, true, [],
  ◌∷◌, some, arith, Bytes, ◌==◌, ==_iff, Bool-cases, between, all_below, all_below_sound, ok, ◌>>=◌,
  >>=-eq-ok, ok-injective, ok_or-eq-ok,
}
use oxideav_source.Uri.{hex_nibble, decode_triplet, percent_decode_bytes, non_hex}

-- A hexadecimal digit, in either case, and its value.
pub data HexDigit : ℕ → ℕ → Type 0 where
  decimal : {b n : ℕ} → n < 10 → b ≡ b'0' + n → HexDigit b n
  lower : {b n : ℕ} → n < 6 → b ≡ b'a' + n → HexDigit b (10 + n)
  upper : {b n : ℕ} → n < 6 → b ≡ b'A' + n → HexDigit b (10 + n)

hex_nibble_complete : {b n : ℕ} → HexDigit b n → hex_nibble b ≡ some n
unfolding hex_nibble
hex_nibble_complete (decimal h e) = ground arith
hex_nibble_complete (lower h e) = ground arith
hex_nibble_complete (upper h e) = ground arith

hex_nibble_sound : (b n : ℕ) → hex_nibble b ≡ some n → HexDigit b n
unfolding hex_nibble
hex_nibble_sound b n h = elim (Bool-cases (between b'0' b'9' b)) [
  | inl e ↦ decimal (ground arith) (ground arith)
  | inr e ↦ elim (Bool-cases (between b'a' b'f' b)) [
    | inl f ↦
        subst (HexDigit b) (the_value (b - b'a') (ground arith))
          (lower {n = b - b'a'} (ground arith) (ground arith))
    | inr f ↦
        subst (HexDigit b) (the_value (b - b'A') (ground arith))
          (upper {n = b - b'A'} (ground arith) (ground arith))
  ]
]
  where
    the_value : (m : ℕ) → n ≡ m + 10 → 10 + m ≡ n
    the_value m e = omega arith

pub HexDigit-lt : {b n : ℕ} → HexDigit b n → n < 16
HexDigit-lt (decimal h e) = omega (arith, h)
HexDigit-lt (lower h e) = omega (arith, h)
HexDigit-lt (upper h e) = omega (arith, h)

or_table :
    all_below 16 (λ hi. all_below 16 (λ lo. bit_or (hi * 16 % 256) lo == hi * 16 + lo)) ≡ true
unfolding all_below
or_table = refl

-- `(hi << 4) | lo` of two nibbles is the number that they spell.
or_nibbles : (hi lo : ℕ) → hi < 16 → lo < 16 → bit_or (hi * 16 % 256) lo ≡ hi * 16 + lo
or_nibbles hi lo h l = (==_iff _ _).0 (
    all_below_sound 16 (λ k. bit_or (hi * 16 % 256) k == hi * 16 + k) lo
      (all_below_sound 16 (λ k. all_below 16 (λ j. bit_or (k * 16 % 256) j == k * 16 + j)) hi
        or_table h)
      l)

pub decode_triplet_lem :
    (h l hi lo : ℕ)
    → hex_nibble h ≡ some hi
    → hex_nibble l ≡ some lo
    → decode_triplet h l ≡ ok (hi * 16 + lo)
unfolding decode_triplet
decode_triplet_lem h l hi lo p q = rw (
  p,
  q,
  or_nibbles hi lo (HexDigit-lt (hex_nibble_sound h hi p)) (HexDigit-lt (hex_nibble_sound l lo q)),
)

-- The grammar of RFC 3986: a byte other than `%` stands for itself, `%HH` for the byte `0xHH`.
pub data Decodes : Bytes → Bytes → Type 0 where
  done : Decodes [] []
  plain : {b : ℕ} {s r : Bytes} → b ≢ b'%' → Decodes s r → Decodes (b ∷ s) (b ∷ r)
  escaped :
      {h l : ℕ} {s r : Bytes} (hi lo : ℕ)
      → HexDigit h hi
      → HexDigit l lo
      → Decodes s r
      → Decodes (b'%' ∷ h ∷ l ∷ s) ((hi * 16 + lo) ∷ r)

pub percent_decode-plain :
    (b : ℕ) (s : Bytes)
    → b ≢ b'%'
    → percent_decode_bytes (b ∷ s) ≡ (percent_decode_bytes s >>= λ r. ok (b ∷ r))
unfolding percent_decode_bytes
percent_decode-plain b [] h = ground arith
percent_decode-plain b (c ∷ []) h = ground arith
percent_decode-plain b (c ∷ d ∷ s) h = elim (Bool-cases (b == b'%')) [
  | inl e ↦ absurd (h ((==_iff _ _).0 e))
  | inr e ↦ rw e
]

pub percent_decode-escaped :
    (h l hi lo : ℕ) (s : Bytes)
    → hex_nibble h ≡ some hi
    → hex_nibble l ≡ some lo
    → percent_decode_bytes (b'%' ∷ h ∷ l ∷ s)
      ≡ (percent_decode_bytes s >>= λ r. ok ((hi * 16 + lo) ∷ r))
unfolding percent_decode_bytes
percent_decode-escaped h l hi lo s p q = let e = decode_triplet_lem h l hi lo p q in rw e

percent_decode_complete : {s r : Bytes} → Decodes s r → percent_decode_bytes s ≡ ok r
percent_decode_complete done = unfold percent_decode_bytes in refl
percent_decode_complete (plain {b} {s} h d) =
    rw (percent_decode-plain b s h, percent_decode_complete d)
percent_decode_complete (escaped {h} {l} {s} hi lo p q d) = rw (
  percent_decode-escaped h l hi lo s (hex_nibble_complete p) (hex_nibble_complete q),
  percent_decode_complete d,
)

decode_triplet_sound :
    (h l : ℕ) {x : ℕ}
    → decode_triplet h l ≡ ok x
    → (hi : ℕ) × (lo : ℕ) × (hex_nibble h ≡ some hi) × (hex_nibble l ≡ some lo) × (x ≡ hi * 16 + lo)
unfolding decode_triplet
decode_triplet_sound h l {x} e =
    let (hi, p, e₁) = >>=-eq-ok _ _ e in
    let (lo, q, e₂) = >>=-eq-ok _ _ e₁ in
    let hp = ok_or-eq-ok (hex_nibble h) non_hex p in
    let hq = ok_or-eq-ok (hex_nibble l) non_hex q in
    (
      hi,
      lo,
      hp,
      hq,
      sym (ok-injective e₂)
          ∙ or_nibbles hi lo (HexDigit-lt (hex_nibble_sound h hi hp))
              (HexDigit-lt (hex_nibble_sound l lo hq)),
    )

-- What the triplet at the head of a text decodes to.
percent_head :
    (h l : ℕ) (s : Bytes)
    → percent_decode_bytes (b'%' ∷ h ∷ l ∷ s)
      ≡ (decode_triplet h l >>= λ x. percent_decode_bytes s >>= λ r. ok (x ∷ r))
unfolding percent_decode_bytes
percent_head h l s = refl

IsSound : Bytes → Type 0
IsSound s = (r : Bytes) → percent_decode_bytes s ≡ ok r → Decodes s r

plain-IsSound : (b : ℕ) (s : Bytes) → b ≢ b'%' → IsSound s → IsSound (b ∷ s)
unfolding IsSound
plain-IsSound b s ne ih r e =
    let (r', e', f) = >>=-eq-ok _ _ (sym (percent_decode-plain b s ne) ∙ e) in
    subst (Decodes (b ∷ s)) (ok-injective f) (plain ne (ih r' e'))

escaped-IsSound : (h l : ℕ) (s : Bytes) → IsSound s → IsSound (b'%' ∷ h ∷ l ∷ s)
unfolding IsSound
escaped-IsSound h l s ih r e =
    let (x, t, e₁) = >>=-eq-ok _ _ (sym (percent_head h l s) ∙ e) in
    let (r', e', f) = >>=-eq-ok _ _ e₁ in
    let (hi, lo, p, q, v) = decode_triplet_sound h l t in
    subst (Decodes (b'%' ∷ h ∷ l ∷ s)) (ap (λ y. y ∷ r') (sym v) ∙ ok-injective f)
      (escaped hi lo (hex_nibble_sound h hi p) (hex_nibble_sound l lo q) (ih r' e'))

nil-IsSound : IsSound []
unfolding IsSound percent_decode_bytes
nil-IsSound r e = subst (Decodes []) (ok-injective e) done

cut_short :
    (b : ℕ) (s r : Bytes)
    → (b == b'%') ≡ true
    → (s ≡ []) ⊎ ((c : ℕ) × (s ≡ c ∷ []))
    → percent_decode_bytes (b ∷ s) ≢ ok r
unfolding percent_decode_bytes
cut_short b s r here (inl e) = rw e (ground arith)
cut_short b s r here (inr (c, e)) = rw (e, here) (cc)

cut-IsSound :
    (b : ℕ) (s : Bytes) → (s ≡ []) ⊎ ((c : ℕ) × (s ≡ c ∷ [])) → IsSound s → IsSound (b ∷ s)
unfolding IsSound
cut-IsSound b s short ih r e = elim (Bool-cases (b == b'%')) [
  | inl here ↦ absurd (cut_short b s r here short e)
  | inr other ↦ plain-IsSound b s (ground arith) ih r e
]

percent_decode-IsSound : (s : Bytes) → IsSound s
percent_decode-IsSound [] = nil-IsSound
percent_decode-IsSound (b ∷ []) = cut-IsSound b [] (inl refl) (percent_decode-IsSound [])
percent_decode-IsSound (b ∷ c ∷ []) =
    cut-IsSound b (c ∷ []) (inr (c, refl)) (percent_decode-IsSound (c ∷ []))
percent_decode-IsSound (b ∷ h ∷ l ∷ s) = elim (Bool-cases (b == b'%')) [
  | inl here ↦
      subst (λ c. IsSound (c ∷ h ∷ l ∷ s)) (sym ((==_iff _ _).0 here))
        (escaped-IsSound h l s (percent_decode-IsSound s))
  | inr other ↦ plain-IsSound b (h ∷ l ∷ s) (ground arith) (percent_decode-IsSound (h ∷ l ∷ s))
]

-- A text is decoded to `r` if and only if the grammar of percent-encoding relates the two: a byte
-- other than `%` stands for itself, and `%` with two hexadecimal digits of either case for the
-- byte of that value.
pub percent_decode_bytes_iff : (s r : Bytes) → (percent_decode_bytes s ≡ ok r) ↔ Decodes s r
unfolding IsSound
percent_decode_bytes_iff s r = (percent_decode-IsSound s r, percent_decode_complete)
