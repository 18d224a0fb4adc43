-- ===== src/Base64/Groups.antt =====
-- One group of four characters of base64, read back and written out as bytes.
use Prim.Native.Nat.{bit_and, bit_or}
use oxideav_source.Prelude.{
  ℕ, ◌+◌, ◌*◌, ◌/◌, ◌%◌, ◌^◌, ◌<◌, ◌≡◌, refl, ap, ◌∙◌, Bool, true, List, [], ◌∷◌, ◌++◌, arith,
  Bytes, is_empty, Result, ok, err, ◌>>=◌, Error,
}
use oxideav_source.Prelude.Bits.{bit_or_shifted, bit_and_255}
use oxideav_source.Base64.{sextet, read_group, triple_of, emit, close_group, decode_groups}
use oxideav_source.Base64.Chars.{IsChar, sextet-IsChar}

abbrev pub IsByte : ℕ → Type 0
IsByte b = b < 256

-- One character of the alphabet in front of the rest of a group.
read_group-char :
    (c v : ℕ) (s : Bytes)
    → IsChar c v
    → read_group (c ∷ s) 0 ≡ (read_group s 0 >>= λ p. ok (p.0, v ∷ p.1))
unfolding read_group
read_group-char c v s h = rw (h.not_pad, h.read)

pub or_3 :
    (a b c : ℕ)
    → a < 256
    → b < 256
    → c < 256
    → bit_or (bit_or (a * 2 ^ 16) (b * 2 ^ 8)) c ≡ a * 65536 + b * 256 + c
or_3 a b c ha hb hc =
    let two : bit_or (a * 2 ^ 16) (b * 2 ^ 8) ≡ (a * 256 + b) * 2 ^ 8 =
      omega (arith, bit_or_shifted 16 a (b * 2 ^ 8) (omega arith)) in
    omega (arith, ap (λ t. bit_or t c) two, bit_or_shifted 8 (a * 256 + b) c (omega arith))

triple_of_lem :
    (a b c d : ℕ)
    → a < 64
    → b < 64
    → c < 64
    → d < 64
    → triple_of (a ∷ b ∷ c ∷ d ∷ []) ≡ a * 262144 + b * 4096 + c * 64 + d
unfolding triple_of
triple_of_lem a b c d ha hb hc hd =
    let one : bit_or (a * 2 ^ 18) (b * 2 ^ 12) ≡ (a * 64 + b) * 2 ^ 12 =
      omega (arith, bit_or_shifted 18 a (b * 2 ^ 12) (omega arith)) in
    let two : bit_or (bit_or (a * 2 ^ 18) (b * 2 ^ 12)) (c * 2 ^ 6)
        ≡ (a * 4096 + b * 64 + c) * 2 ^ 6 =
      omega (
        arith,
        ap (λ t. bit_or t (c * 2 ^ 6)) one,
        bit_or_shifted 12 (a * 64 + b) (c * 2 ^ 6) (omega arith),
      ) in
    omega
      (arith, ap (λ t. bit_or t d) two, bit_or_shifted 6 (a * 4096 + b * 64 + c) d (omega arith))

-- A number below 2 ^ 24, put together from its sextets.
sextets : ℕ → List ℕ
sextets t = (t / 2 ^ 18 % 64) ∷ (t / 2 ^ 12 % 64) ∷ (t / 2 ^ 6 % 64) ∷ (t / 2 ^ 0 % 64) ∷ []

triple_of-sextets : (t : ℕ) → t < 16777216 → triple_of (sextets t) ≡ t
unfolding sextets
triple_of-sextets t h =
    triple_of_lem (t / 2 ^ 18 % 64) (t / 2 ^ 12 % 64) (t / 2 ^ 6 % 64) (t / 2 ^ 0 % 64)
      (omega arith) (omega arith) (omega arith) (omega arith)
    ∙ omega arith

pub full_group :
    (t : ℕ) (last : Bool)
    → t < 16777216
    → (read_group (sextet t 18 ∷ sextet t 12 ∷ sextet t 6 ∷ sextet t 0 ∷ []) 0 >>= close_group last)
      ≡ ok (emit t 0)
unfolding sextets close_group read_group
full_group t last h = rw (
  read_group-char _ _ (sextet t 12 ∷ sextet t 6 ∷ sextet t 0 ∷ []) (sextet-IsChar t 18),
  read_group-char _ _ (sextet t 6 ∷ sextet t 0 ∷ []) (sextet-IsChar t 12),
  read_group-char _ _ (sextet t 0 ∷ []) (sextet-IsChar t 6),
  read_group-char _ _ [] (sextet-IsChar t 0),
  read_group,
  triple_of-sextets t h,
)

triple_of-pad_2 :
    (t : ℕ)
    → t < 16777216
    → t % 4096 ≡ 0
    → triple_of ((t / 2 ^ 18 % 64) ∷ (t / 2 ^ 12 % 64) ∷ 0 ∷ 0 ∷ []) ≡ t
triple_of-pad_2 t h z =
    triple_of_lem (t / 2 ^ 18 % 64) (t / 2 ^ 12 % 64) 0 0 (omega arith) (omega arith) (omega arith)
      (omega arith)
    ∙ omega arith

triple_of-pad_1 :
    (t : ℕ)
    → t < 16777216
    → t % 64 ≡ 0
    → triple_of ((t / 2 ^ 18 % 64) ∷ (t / 2 ^ 12 % 64) ∷ (t / 2 ^ 6 % 64) ∷ 0 ∷ []) ≡ t
triple_of-pad_1 t h z =
    triple_of_lem (t / 2 ^ 18 % 64) (t / 2 ^ 12 % 64) (t / 2 ^ 6 % 64) 0 (omega arith) (omega arith)
      (omega arith) (omega arith)
    ∙ omega arith

-- The final groups, with two and with one padding character.
pub group_pad_2 :
    (t : ℕ)
    → t < 16777216
    → t % 4096 ≡ 0
    → (read_group (sextet t 18 ∷ sextet t 12 ∷ b'=' ∷ b'=' ∷ []) 0 >>= close_group true)
      ≡ ok (emit t 2)
unfolding close_group read_group
group_pad_2 t h z = rw (
  read_group-char _ _ (sextet t 12 ∷ b'=' ∷ b'=' ∷ []) (sextet-IsChar t 18),
  read_group-char _ _ (b'=' ∷ b'=' ∷ []) (sextet-IsChar t 12),
  triple_of-pad_2 t h z,
)

pub group_pad_1 :
    (t : ℕ)
    → t < 16777216
    → t % 64 ≡ 0
    → (read_group (sextet t 18 ∷ sextet t 12 ∷ sextet t 6 ∷ b'=' ∷ []) 0 >>= close_group true)
      ≡ ok (emit t 1)
unfolding close_group read_group
group_pad_1 t h z = rw (
  read_group-char _ _ (sextet t 12 ∷ sextet t 6 ∷ b'=' ∷ []) (sextet-IsChar t 18),
  read_group-char _ _ (sextet t 6 ∷ b'=' ∷ []) (sextet-IsChar t 12),
  read_group-char _ _ (b'=' ∷ []) (sextet-IsChar t 6),
  triple_of-pad_1 t h z,
)

pub emit-3 :
    (a b c : ℕ) → a < 256 → b < 256 → c < 256 → emit (a * 65536 + b * 256 + c) 0 ≡ a ∷ b ∷ c ∷ []
unfolding emit
emit-3 a b c ha hb hc =
    let t = a * 65536 + b * 256 + c in
    let x : bit_and (t / 2 ^ 16) 0xff ≡ a = omega (arith, bit_and_255 (t / 2 ^ 16)) in
    let y : bit_and (t / 2 ^ 8) 0xff ≡ b = omega (arith, bit_and_255 (t / 2 ^ 8)) in
    let z : bit_and t 0xff ≡ c = omega (arith, bit_and_255 t) in cc

pub emit-2 : (a b : ℕ) → a < 256 → b < 256 → emit (a * 65536 + b * 256) 1 ≡ a ∷ b ∷ []
unfolding emit
emit-2 a b ha hb =
    let t = a * 65536 + b * 256 in
    let x : bit_and (t / 2 ^ 16) 0xff ≡ a = omega (arith, bit_and_255 (t / 2 ^ 16)) in
    let y : bit_and (t / 2 ^ 8) 0xff ≡ b = omega (arith, bit_and_255 (t / 2 ^ 8)) in cc

pub emit-1 : (a : ℕ) → a < 256 → emit (a * 65536) 2 ≡ a ∷ []
unfolding emit
emit-1 a ha =
    let x : bit_and (a * 65536 / 2 ^ 16) 0xff ≡ a =
      omega (arith, bit_and_255 (a * 65536 / 2 ^ 16)) in
    cc

-- One round of the `while` loop.
pub group_head :
    (b0 b1 b2 b3 : ℕ) (rest : Bytes)
    → decode_groups (b0 ∷ b1 ∷ b2 ∷ b3 ∷ rest) ≡ (
        (read_group (b0 ∷ b1 ∷ b2 ∷ b3 ∷ []) 0 >>= close_group (is_empty rest)) >>= λ out.
        decode_groups rest >>= λ r. ok (out ++ r))
unfolding decode_groups
group_head b0 b1 b2 b3 rest = elim_bind (read_group (b0 ∷ b1 ∷ b2 ∷ b3 ∷ []) 0)
  where
    elim_bind :
        (m : Result Error (ℕ × List ℕ))
        → (m >>= λ g.
            close_group (is_empty rest) g >>= λ out. decode_groups rest >>= λ r. ok (out ++ r))
          ≡ ((m >>= close_group (is_empty rest)) >>= λ out.
              decode_groups rest >>= λ r. ok (out ++ r))
    elim_bind (ok g) = refl
    elim_bind (err e) = refl
