-- ===== src/Base64/RoundTrip.antt =====
-- `decode_base64` undoes `encode_base64_into`.
use Prim.Native.Nat.{bit_or}
use oxideav_source.Prelude.{
  ℕ, ◌+◌, ◌*◌, ◌/◌, ◌%◌, ◌^◌, ◌≡◌, refl, true, [], ◌∷◌, arith, ◌==◌, length, Bytes, All, is_empty,
  ok,
}
use oxideav_source.Prelude.Bits.{bit_or_shifted}
use oxideav_source.Base64.{encode_base64, clean, decode_groups, decode_base64}
use oxideav_source.Base64.Chars.{IsChar, sextet-IsChar}
use oxideav_source.Base64.Groups.{
  IsByte, full_group, group_pad_2, group_pad_1, emit-3, emit-2, emit-1, or_3, group_head,
}

pub no_groups : decode_groups [] ≡ ok []
unfolding decode_groups
no_groups = refl

decode_groups-encode : (s : Bytes) → All IsByte s → decode_groups (encode_base64 s) ≡ ok s
unfolding encode_base64
decode_groups-encode [] h = no_groups
decode_groups-encode (a ∷ []) (ha, _) =
    rw (group_head, group_pad_2 (a * 2 ^ 16) (omega arith) (omega arith), emit-1 a ha, no_groups)
decode_groups-encode (a ∷ b ∷ []) (ha, (hb, _)) =
    let two : bit_or (a * 2 ^ 16) (b * 2 ^ 8) ≡ a * 65536 + b * 256 =
      omega (arith, bit_or_shifted 16 a (b * 2 ^ 8) (omega arith)) in
    rw (
      two,
      group_head,
      group_pad_1 (a * 65536 + b * 256) (omega arith) (omega arith),
      emit-2 a b ha hb,
      no_groups,
    )
decode_groups-encode (a ∷ b ∷ c ∷ s) (ha, (hb, (hc, hs))) = rw (
  or_3 a b c ha hb hc,
  group_head,
  full_group (a * 65536 + b * 256 + c) (is_empty (encode_base64 s)) (omega arith),
  emit-3 a b c ha hb hc,
  decode_groups-encode s hs,
)

clean-char : (c v : ℕ) (s : Bytes) → IsChar c v → clean (c ∷ s) ≡ c ∷ clean s
unfolding clean
clean-char c v s h = rw h.not_blank

clean-encode : (s : Bytes) → clean (encode_base64 s) ≡ encode_base64 s
unfolding encode_base64 clean
clean-encode [] = refl
clean-encode (a ∷ []) =
    rw (clean-char _ _ _ (sextet-IsChar _ 18), clean-char _ _ _ (sextet-IsChar _ 12))
clean-encode (a ∷ b ∷ []) = rw (
  clean-char _ _ _ (sextet-IsChar _ 18),
  clean-char _ _ _ (sextet-IsChar _ 12),
  clean-char _ _ _ (sextet-IsChar _ 6),
)
clean-encode (a ∷ b ∷ c ∷ s) = rw (
  clean-char _ _ _ (sextet-IsChar _ 18),
  clean-char _ _ _ (sextet-IsChar _ 12),
  clean-char _ _ _ (sextet-IsChar _ 6),
  clean-char _ _ _ (sextet-IsChar _ 0),
  clean-encode s,
)

-- The encoded text has four characters for every three bytes, begun groups included.
length-encode : (s : Bytes) → length (encode_base64 s) ≡ (length s + 2) / 3 * 4
unfolding encode_base64
length-encode [] = omega arith
length-encode (a ∷ []) = omega arith
length-encode (a ∷ b ∷ []) = omega arith
length-encode (a ∷ b ∷ c ∷ s) = omega (arith, length-encode s)

-- A list of bytes that is base64-encoded is decoded to itself.
pub decode-encode : (s : Bytes) → All IsByte s → decode_base64 (encode_base64 s) ≡ ok s
unfolding decode_base64
decode-encode s h = rw (clean-encode s) (rw (fits, decode_groups-encode s h))
  where
    fits : (length (encode_base64 s) % 4 == 0) ≡ true
    fits = ground (arith, length-encode s)
