-- ===== src/Fuzz/Leaves.antt =====
-- fuzz/fuzz_targets/compose_open.rs, `data_leaf`: both forms of a leaf are parsed to its payload.
use Prim.Native.Nat.{bit_or}
use oxideav_source.Prelude.{
  ℕ, ◌/◌, ◌%◌, ◌<◌, ◌≤◌, ◌+◌, ◌*◌, ◌^◌, ◌≡◌, refl, ◌∙◌, ap, Bool, true, false, not, [], ◌∷◌, ◌++◌,
  arith, ◌==◌, if◌then◌else◌, length, get_or, Bytes, codes, All, contains, starts_with, all_below,
  all_below_sound, if-cases, ok,
}
use oxideav_source.Prelude.Bits.{bit_and_63}
use oxideav_source.Uri.{percent_decode_bytes}
use oxideav_source.Uri.Percent.{percent_decode-escaped}
use oxideav_source.Base64.{sextet, encode_base64}
use oxideav_source.Base64.Groups.{IsByte}
use oxideav_source.Data.{DataUri, hex_digit}
use oxideav_source.Data
use oxideav_source.Data.Payload.{hex_nibble-digit}
use oxideav_source.Data.RoundTrip.{DataUri-parse-format}
use oxideav_source.Fuzz.Compose.{
  Composition, triplets, data_uri_percent, alpha, symbol, chunks, data_uri_base64, u8, u16, bytes,
  data_leaf,
}
use oxideav_source.Fuzz.Draws.{Draws, return-Draws, >>=-Draws, u8-Draws, u16-Draws, bytes-Draws}

-- The encoder of the target is that of the crate.
symbol-eq-sextet : (t shift : ℕ) → symbol t shift ≡ sextet t shift
unfolding symbol sextet
symbol-eq-sextet t shift = refl

chunks-eq-encode : (s : Bytes) → chunks s ≡ encode_base64 s
unfolding chunks encode_base64 symbol sextet
chunks-eq-encode [] = refl
chunks-eq-encode (a ∷ []) = refl
chunks-eq-encode (a ∷ b ∷ []) = refl
chunks-eq-encode (a ∷ b ∷ c ∷ s) = rw (chunks-eq-encode s)

no_bar_at : ℕ → Bool
unfolding alpha
no_bar_at i = not (get_or alpha i 0 == b'|')

no_bar_table : all_below 64 no_bar_at ≡ true
unfolding all_below no_bar_at
no_bar_table = refl

not-true : (a : Bool) → not a ≡ true → a ≡ false
not-true a h = ground arith

symbol-no_bar : (t shift : ℕ) → (symbol t shift == b'|') ≡ false
unfolding symbol
symbol-no_bar t shift = rw (bit_and_63 (t / 2 ^ shift)) (holds (t / 2 ^ shift % 64) (omega arith))
  where
    holds : (i : ℕ) → i < 64 → (get_or alpha i 0 == b'|') ≡ false
    holds i h = unfold no_bar_at in not-true _ (all_below_sound 64 no_bar_at i no_bar_table h)

chunks-no_bar : (s : Bytes) → contains b'|' (chunks s) ≡ false
unfolding chunks
chunks-no_bar [] = refl
chunks-no_bar (a ∷ []) = rw (symbol-no_bar (a * 65536) 18, symbol-no_bar (a * 65536) 12)
chunks-no_bar (a ∷ b ∷ []) =
    let t = bit_or (a * 65536) (b * 256) in
    rw (symbol-no_bar t 18, symbol-no_bar t 12, symbol-no_bar t 6)
chunks-no_bar (a ∷ b ∷ c ∷ s) =
    let t = bit_or (bit_or (a * 65536) (b * 256)) c in
    rw (
      symbol-no_bar t 18,
      symbol-no_bar t 12,
      symbol-no_bar t 6,
      symbol-no_bar t 0,
      chunks-no_bar s,
    )

hex_digit-no_bar : (n : ℕ) → n < 16 → (hex_digit n == b'|') ≡ false
unfolding hex_digit
hex_digit-no_bar n h = ground arith

triplets-no_bar : (s : Bytes) → All IsByte s → contains b'|' (triplets s) ≡ false
unfolding triplets
triplets-no_bar [] h = refl
triplets-no_bar (b ∷ s) (hb, hs) = rw (
  hex_digit-no_bar (b / 16) (omega arith),
  hex_digit-no_bar (b % 16) (omega arith),
  triplets-no_bar s hs,
)

percent_decode-triplets : (s : Bytes) → All IsByte s → percent_decode_bytes (triplets s) ≡ ok s
unfolding triplets
percent_decode-triplets [] h = unfold percent_decode_bytes in refl
percent_decode-triplets (b ∷ s) (hb, hs) =
    rw
      (
        percent_decode-escaped (hex_digit (b / 16)) (hex_digit (b % 16)) (b / 16) (b % 16)
            (triplets s) (hex_nibble-digit (b / 16) (omega arith))
            (hex_nibble-digit (b % 16) (omega arith)),
        percent_decode-triplets s hs,
      )
      (ap (λ c. ok (c ∷ s)) (omega arith))

-- A text behind `data:` that is parsed to a payload of bytes, and has no separator of the grammar.
pub record IsLeaf (max_len : ℕ) (c : Composition) : Type 0 where
  pub text : Bytes
  pub behind : c.uri ≡ codes "data:" ++ text
  pub no_slashes : starts_with (codes "//") text ≡ false
  pub no_bar : contains b'|' text ≡ false
  pub parsed :
      (b : Bool) × (Data.parse c.uri
        ≡ ok (record { mediatype = []; base64 = b; payload = c.model }))
  pub short : length c.model ≤ max_len

parse-percent :
    (p : Bytes)
    → All IsByte p
    → Data.parse (data_uri_percent p) ≡ ok (record { mediatype = []; base64 = false; payload = p })
unfolding Data.parse Data.parse_parts Data.decode_payload data_uri_percent
parse-percent p h = rw (percent_decode-triplets p h)

parse-base64 :
    (p : Bytes)
    → All IsByte p
    → Data.parse (data_uri_base64 p) ≡ ok (record { mediatype = []; base64 = true; payload = p })
parse-base64 p h =
    ap Data.parse same
    ∙ DataUri-parse-format written (record {
      no_comma = refl;
      no_marker = λ e. absurd (cc);
      no_slashes = unfold starts_with in refl;
      bytes = h;
    })
  where
    written : DataUri
    written = record { mediatype = []; base64 = true; payload = p }

    same : data_uri_base64 p ≡ Data.format written
    same =
        unfold data_uri_base64 Data.format Data.format_payload in
        ap (λ t. codes "data:;base64," ++ t) (chunks-eq-encode p)

percent-IsLeaf :
    (m : ℕ) (p : Bytes)
    → All IsByte p
    → length p ≤ m
    → IsLeaf m (record { uri = data_uri_percent p; model = p })
unfolding data_uri_percent
percent-IsLeaf m p h k = record {
  text = b',' ∷ triplets p;
  behind = refl;
  no_slashes = unfold starts_with in refl;
  no_bar = triplets-no_bar p h;
  parsed = (false, parse-percent p h);
  short = k;
}

base64-IsLeaf :
    (m : ℕ) (p : Bytes)
    → All IsByte p
    → length p ≤ m
    → IsLeaf m (record { uri = data_uri_base64 p; model = p })
unfolding data_uri_base64
base64-IsLeaf m p h k = record {
  text = codes ";base64," ++ chunks p;
  behind = refl;
  no_slashes = unfold starts_with in refl;
  no_bar = chunks-no_bar p;
  parsed = (true, parse-base64 p h);
  short = k;
}

pub data_leaf-Draws : (max_len : ℕ) → Draws (IsLeaf max_len) (data_leaf max_len)
unfolding data_leaf
data_leaf-Draws m = >>=-Draws _ _ u16 _ u16-Draws (λ x _.
    >>=-Draws _ _ (bytes (x % (m + 1))) _ (bytes-Draws (x % (m + 1)))
      (λ p h. >>=-Draws _ _ u8 _ u8-Draws (λ kind _. return-Draws _ _ (leaf x p kind h))))
  where
    leaf :
        (x : ℕ) (p : Bytes) (kind : ℕ)
        → (length p ≡ x % (m + 1)) × All IsByte p
        → IsLeaf m (record {
          uri = if kind % 2 == 0 then data_uri_percent p else data_uri_base64 p;
          model = p;
        })
    leaf x p kind (e, h) =
        let k : length p ≤ m = grind arith in
        if-cases (λ u. IsLeaf m (record { uri = u; model = p })) (kind % 2 == 0)
          (λ _. percent-IsLeaf m p h k) (λ _. base64-IsLeaf m p h k)
