-- ===== src/Data/Payload.antt =====
-- src/data.rs: the payload of a `data:` URI is decoded to the bytes that were formatted, and what
-- is decoded are bytes.
use oxideav_source.Prelude.{
  ℕ, ◌/◌, ◌%◌, ◌<◌, ◌≡◌, ◌≢◌, refl, sym, ◌∙◌, ap, inl, inr, Bool, true, [], ◌∷◌, ◌++◌, some, arith,
  Bytes, All, Bool-cases, ok, ◌>>=◌, >>=-eq-ok, ok-injective, subst, is_empty, ◌^◌,
}
use oxideav_source.Uri.{hex_nibble, percent_decode_bytes}
use oxideav_source.Uri.Percent.{
  percent_decode-plain, percent_decode-escaped, Decodes, done, plain, escaped,
  percent_decode_bytes_iff, HexDigit-lt,
}
use oxideav_source.Prelude.Bits.{bit_and_255}
use oxideav_source.Base64.{
  clean, triple_of, decode_base64, decode_groups, read_group, close_group, emit,
}
use oxideav_source.Base64.Groups.{IsByte, group_head}
use oxideav_source.Base64.RoundTrip.{no_groups}
use oxideav_source.Data.{hex_digit, is_unreserved, percent_encode}

pub hex_nibble-digit : (n : ℕ) → n < 16 → hex_nibble (hex_digit n) ≡ some n
unfolding hex_nibble hex_digit
hex_nibble-digit n h = ground arith

unreserved-ne-percent : (b : ℕ) → is_unreserved b ≡ true → b ≢ b'%'
unreserved-ne-percent b h = ground arith

-- A list of bytes that is percent-encoded as a payload is decoded to itself.
pub percent_decode-encode :
    (s : Bytes) → All IsByte s → percent_decode_bytes (percent_encode s) ≡ ok s
unfolding percent_encode
percent_decode-encode [] h = unfold percent_decode_bytes in refl
percent_decode-encode (b ∷ s) (hb, hs) = elim (Bool-cases (is_unreserved b)) [
  | inl free ↦ rw (
    free,
    percent_decode-plain b (percent_encode s) (unreserved-ne-percent b free),
    percent_decode-encode s hs,
  )
  | inr reserved ↦
      rw
        (
          reserved,
          percent_decode-escaped (hex_digit (b / 16)) (hex_digit (b % 16)) (b / 16) (b % 16)
              (percent_encode s) (hex_nibble-digit (b / 16) (omega arith))
              (hex_nibble-digit (b % 16) (omega arith)),
          percent_decode-encode s hs,
        )
        (ap (λ c. ok (c ∷ s)) (omega arith))
]

Decodes-bytes : {s r : Bytes} → Decodes s r → All IsByte s → All IsByte r
Decodes-bytes done h = tt
Decodes-bytes (plain ne d) (hb, hs) = (hb, Decodes-bytes d hs)
Decodes-bytes (escaped hi lo p q d) (_, (_, (_, hs))) =
    (omega (arith, HexDigit-lt p, HexDigit-lt q), Decodes-bytes d hs)

pub percent_decode-bytes :
    (s : Bytes) {r : Bytes} → All IsByte s → percent_decode_bytes s ≡ ok r → All IsByte r
percent_decode-bytes s {r} h e = Decodes-bytes ((percent_decode_bytes_iff s r).0 e) h

emit-bytes : (t pad : ℕ) → All IsByte (emit t pad)
unfolding emit
emit-bytes t pad = ground (arith, bit_and_255 (t / 2 ^ 16), bit_and_255 (t / 2 ^ 8), bit_and_255 t)

All-append : (s t : Bytes) → All IsByte s → All IsByte t → All IsByte (s ++ t)
All-append [] t hs ht = ht
All-append (b ∷ s) t (hb, hs) ht = (hb, All-append s t hs ht)

close_group-bytes :
    (last : Bool) (g : ℕ × Bytes) {out : Bytes} → close_group last g ≡ ok out → All IsByte out
close_group-bytes last (pad, chunk) {out} e =
    subst (All IsByte) (emitted last pad chunk e) (emit-bytes (triple_of chunk) pad)
  where
    emitted :
        (last : Bool) (pad : ℕ) (chunk : Bytes)
        → close_group last (pad, chunk) ≡ ok out
        → emit (triple_of chunk) pad ≡ out
    emitted last pad chunk e = unfold close_group in ground arith

decode_groups-bytes : (s : Bytes) {r : Bytes} → decode_groups s ≡ ok r → All IsByte r
decode_groups-bytes [] {r} e = subst (All IsByte) (ok-injective (sym no_groups ∙ e)) tt
decode_groups-bytes (a ∷ []) e = absurd (unfold decode_groups in cc)
decode_groups-bytes (a ∷ b ∷ []) e = absurd (unfold decode_groups in cc)
decode_groups-bytes (a ∷ b ∷ c ∷ []) e = absurd (unfold decode_groups in cc)
decode_groups-bytes (a ∷ b ∷ c ∷ d ∷ rest) {r} e =
    let group = read_group (a ∷ b ∷ c ∷ d ∷ []) 0 in
    let close = close_group (is_empty rest) in
    let (out, e₁, e₂) =
      >>=-eq-ok (group >>= close) (λ x. decode_groups rest >>= λ y. ok (x ++ y))
        (sym (group_head a b c d rest) ∙ e) in
    let (g, _, p) = >>=-eq-ok group close e₁ in
    let (later, q, e₃) = >>=-eq-ok (decode_groups rest) (λ y. ok (out ++ y)) e₂ in
    subst (All IsByte) (ok-injective e₃)
      (All-append out later (close_group-bytes (is_empty rest) g p) (decode_groups-bytes rest q))

decode_base64-groups :
    (s : Bytes) {r : Bytes} → decode_base64 s ≡ ok r → decode_groups (clean s) ≡ ok r
unfolding decode_base64
decode_base64-groups s e = ground arith

pub decode_base64-bytes : (s : Bytes) {r : Bytes} → decode_base64 s ≡ ok r → All IsByte r
decode_base64-bytes s e = decode_groups-bytes (clean s) (decode_base64-groups s e)
