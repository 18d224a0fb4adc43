-- ===== src/Base64.antt =====
-- src/data.rs, `encode_base64_into`, `decode_base64` and `b64_value`: base64 as in RFC 4648 §4.
-- `u32` values are natural numbers; `<<` is a product, `>>` a quotient, `|` and `&` are the native
-- operations on binary digits. None of the shifts here leaves 32 bits.
pub mod Chars
pub mod Groups
pub mod RoundTrip
use Prim.Native.Nat.{bit_and, bit_or}
use oxideav_source.Prelude.{
  ℕ, zero, suc, ◌+◌, ◌-◌, ◌*◌, ◌/◌, ◌%◌, ◌^◌, Bool, true, false, ◌&&◌, ◌||◌, not, List, [], ◌∷◌,
  ◌++◌, Option, none, some, Bytes, codes, ltb, between, ◌==◌, if◌then◌else◌, length, get_or,
  is_empty, Result, ok, err, ◌>>=◌, ◌>>◌, reject_if, ok_or, Error, invalid,
}

alphabet : Bytes
alphabet = codes "ABCDEFGHIJKLMNOPQRSTUVWXYZabcdefghijklmnopqrstuvwxyz0123456789+/"

-- `ALPHA[((t >> shift) & 0x3f) as usize]`
unfoldable pub sextet : ℕ → ℕ → ℕ
unfolding alphabet
sextet t shift = get_or alphabet (bit_and (t / 2 ^ shift) 0x3f) 0

-- The chunks of three bytes, then what is left of them.
unfoldable pub encode_base64 : Bytes → Bytes
encode_base64 [] = []
encode_base64 (b0 ∷ []) = let t = b0 * 2 ^ 16 in sextet t 18 ∷ sextet t 12 ∷ b'=' ∷ b'=' ∷ []
encode_base64 (b0 ∷ b1 ∷ []) =
    let t = bit_or (b0 * 2 ^ 16) (b1 * 2 ^ 8) in sextet t 18 ∷ sextet t 12 ∷ sextet t 6 ∷ b'=' ∷ []
encode_base64 (b0 ∷ b1 ∷ b2 ∷ rest) =
    let t = bit_or (bit_or (b0 * 2 ^ 16) (b1 * 2 ^ 8)) b2 in
    sextet t 18 ∷ sextet t 12 ∷ sextet t 6 ∷ sextet t 0 ∷ encode_base64 rest

unfoldable pub b64_value : ℕ → Option ℕ
b64_value b =
    if between b'A' b'Z' b
    then some (b - b'A')
    else if between b'a' b'z' b
    then some (b - b'a' + 26)
    else if between b'0' b'9' b
    then some (b - b'0' + 52)
    else if b == b'+'
    then some 62
    else if b == b'/'
    then some 63
    else none

-- `b' ' | b'\t' | b'\n' | b'\r'`
abbrev pub is_blank : ℕ → Bool
is_blank b = b == b' ' || b == 9 || b == 10 || b == 13

unfoldable pub clean : Bytes → Bytes
clean [] = []
clean (b ∷ s) = let rest = clean s in if is_blank b then rest else b ∷ rest

abbrev pub padding_inside : Error
padding_inside = invalid "data:// base64 padding character before end of payload"

abbrev pub bad_character : Error
bad_character = invalid "data:// base64: invalid character"

-- The `for j in 0..4` loop over one group, from the pad count `pad` on: the final pad count and
-- what it writes to `chunk`.
unfoldable pub read_group : Bytes → ℕ → Result Error (ℕ × List ℕ)
unfolding b64_value
read_group [] pad = ok (pad, [])
read_group (b ∷ s) pad =
    let at_pad = (do (n, chunk) ← read_group s (pad + 1); ok (n, 0 ∷ chunk)) in
    let at_char = (do
      v ← ok_or (b64_value b) bad_character
      (n, chunk) ← read_group s pad
      ok (n, v ∷ chunk)) in
    if b == b'=' then at_pad else if ltb 0 pad then err padding_inside else at_char

unfoldable pub triple_of : List ℕ → ℕ
triple_of chunk =
    bit_or
      (bit_or (bit_or (get_or chunk 0 0 * 2 ^ 18) (get_or chunk 1 0 * 2 ^ 12))
        (get_or chunk 2 0 * 2 ^ 6))
      (get_or chunk 3 0)

-- The bytes that one group pushes.
unfoldable pub emit : ℕ → ℕ → Bytes
emit triple pad =
    bit_and (triple / 2 ^ 16) 0xff
    ∷ ((if ltb pad 2 then bit_and (triple / 2 ^ 8) 0xff ∷ [] else [])
        ++ (if ltb pad 1 then bit_and triple 0xff ∷ [] else []))

-- The body of the `while` loop behind the inner loop; `last` says that no bytes follow the group.
unfoldable pub close_group : Bool → ℕ × List ℕ → Result Error Bytes
unfolding triple_of emit
close_group last (pad, chunk) = do
  reject_if (ltb 2 pad) (invalid "data:// base64: more than two padding characters in a group")
  reject_if (ltb 0 pad && not last) (invalid "data:// base64: padding before final group")
  ok (emit (triple_of chunk) pad)

-- The `while` loop, over the bytes from `i` on. The length is a multiple of four there, so the
-- last clause, where the source would index out of bounds, is never reached.
unfoldable pub decode_groups : Bytes → Result Error Bytes
unfolding read_group close_group
decode_groups [] = ok []
decode_groups (b0 ∷ b1 ∷ b2 ∷ b3 ∷ rest) = do
  let later = decode_groups rest
  group ← read_group (b0 ∷ b1 ∷ b2 ∷ b3 ∷ []) 0
  out ← close_group (is_empty rest) group
  r ← later
  ok (out ++ r)
decode_groups _ = err (invalid "index out of bounds")

unfoldable pub decode_base64 : Bytes → Result Error Bytes
unfolding clean decode_groups
decode_base64 s = do
  reject_if (not (length (clean s) % 4 == 0))
      (invalid "data:// base64 payload length is not a multiple of 4")
  decode_groups (clean s)
