-- ===== src/Data/Header.antt =====
-- src/data.rs: the `;base64` marker behind a mediatype, and the mediatypes that can be written.
use oxideav_source.Prelude.{
  ℕ, zero, suc, ◌-◌, ◌≡◌, refl, ◌∙◌, false, [], ◌∷◌, ◌++◌, Option, none, some, arith, Bytes, ltb,
  length, length-append, take, drop-append_past, take-append_within, take-all, contains,
}
use oxideav_source.Data.{marker, strip_base64_suffix, ends_with_base64_marker, is_some}

-- A marker that stands behind a text is found, and the text is what is left.
pub strip_base64_suffix-append : (m : Bytes) → strip_base64_suffix (m ++ marker) ≡ some m
unfolding strip_base64_suffix
strip_base64_suffix-append m =
    rw (long, cut, drop-append_past (length m) m marker (omega arith), same, front)
  where
    long : ltb (length (m ++ marker)) 7 ≡ false
    long = ground (arith, length-append m marker)

    cut : length (m ++ marker) - 7 ≡ length m
    cut = omega (arith, length-append m marker)

    same : length m - length m ≡ 0
    same = omega arith

    front : take (length m) (m ++ marker) ≡ m
    front =
        take-append_within (length m) m marker (omega arith) ∙ take-all (length m) m (omega arith)

-- Without the marker nothing is stripped.
pub strip_base64_suffix-none :
    (m : Bytes) → ends_with_base64_marker m ≡ false → strip_base64_suffix m ≡ none
strip_base64_suffix-none m h = go (strip_base64_suffix m) (unfold ends_with_base64_marker in h)
  where
    go : (o : Option Bytes) → is_some o ≡ false → o ≡ none
    go none h = refl
    go (some x) h = cc

-- A byte that a text lacks is lacked by what stands in front of its marker.
contains-take : (b n : ℕ) (s : Bytes) → contains b s ≡ false → contains b (take n s) ≡ false
contains-take b zero s h = refl
contains-take b (suc n) [] h = refl
contains-take b (suc n) (c ∷ s) h = ground (arith, contains-take b n s)

strip_base64_suffix_sound :
    (header m : Bytes) → strip_base64_suffix header ≡ some m → m ≡ take (length header - 7) header
unfolding strip_base64_suffix
strip_base64_suffix_sound header m h = ground arith

pub strip_base64_suffix-Lacks :
    (b : ℕ) (header m : Bytes)
    → contains b header ≡ false
    → strip_base64_suffix header ≡ some m
    → contains b m ≡ false
strip_base64_suffix-Lacks b header m lacks h =
    rw (strip_base64_suffix_sound header m h) (contains-take b _ header lacks)
