-- ===== src/Base64/Chars.antt =====
-- The alphabet of base64: what `sextet` writes, `b64_value` reads.
use oxideav_source.Prelude.{
  ℕ, ◌/◌, ◌%◌, ◌^◌, ◌≡◌, refl, Bool, true, false, ◌&&◌, not, Option, none, some, arith, ◌==◌,
  get_or, all_below, all_below_sound,
}
use oxideav_source.Prelude.Bits.{bit_and_63}
use oxideav_source.Base64.{alphabet, sextet, b64_value, is_blank}

-- The byte at a place of the alphabet is read as that place, and is neither padding nor blank.
reads_back : ℕ → Option ℕ → Bool
reads_back i none = false
reads_back i (some v) = v == i

is_good : ℕ → Bool
unfolding alphabet b64_value reads_back
is_good i =
    let c = get_or alphabet i 0 in reads_back i (b64_value c) && not (c == b'=') && not (is_blank c)

good_table : all_below 64 is_good ≡ true
unfolding all_below is_good
good_table = refl

reads_back_sound : (i : ℕ) (o : Option ℕ) → reads_back i o ≡ true → o ≡ some i
unfolding reads_back
reads_back_sound i none h = cc
reads_back_sound i (some v) h = ground arith

pub record IsChar (c : ℕ) (i : ℕ) : Type 0 where
  pub read : b64_value c ≡ some i
  pub not_pad : (c == b'=') ≡ false
  pub not_blank : is_blank c ≡ false

and-left : (a b : Bool) → (a && b) ≡ true → a ≡ true
and-left a b h = ground arith

and-right : (a b : Bool) → (a && b) ≡ true → b ≡ true
and-right a b h = ground arith

not-true : (a : Bool) → not a ≡ true → a ≡ false
not-true a h = ground arith

is_good_sound : (i : ℕ) → is_good i ≡ true → IsChar (get_or alphabet i 0) i
unfolding is_good
is_good_sound i h = record {
  read = reads_back_sound i _ (and-left _ _ (and-left _ _ h));
  not_pad = not-true _ (and-right _ _ (and-left _ _ h));
  not_blank = not-true _ (and-right _ _ h);
}

pub sextet-IsChar : (t shift : ℕ) → IsChar (sextet t shift) (t / 2 ^ shift % 64)
unfolding sextet
sextet-IsChar t shift =
    rw (bit_and_63 (t / 2 ^ shift))
      (is_good_sound (t / 2 ^ shift % 64) (all_below_sound 64 is_good _ good_table (omega arith)))
