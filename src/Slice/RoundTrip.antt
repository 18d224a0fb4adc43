-- ===== src/Slice/RoundTrip.antt =====
-- src/slice.rs: formatting and parsing undo one another.
use oxideav_source.Prelude.{
  ℕ, ◌<◌, ◌≡◌, ◌↔◌, refl, sym, ◌∙◌, ap, subst, Bool, true, false, [], ◌∷◌, ◌++◌, append_assoc, some,
  Bytes, codes, arith, is_empty, contains, split_once, split_once-append, split_once_sound,
  starts_with, u64_mod, ok, >>=-eq-ok, ok-injective, reject_if, ok_or, ok_or-eq-ok, Error, invalid,
  all, is_ascii_digit, contains-append,
}
use oxideav_source.Uri.{split}
use oxideav_source.Uri.Split.{split-scheme, strip_slashes-id}
use oxideav_source.Decimal.{print_u64, print-IsDigit, digits-Lack, print-not_empty}
use oxideav_source.Slice.{SliceUri, format, parse_canonical_u64, parse_header, parse}
use oxideav_source.Slice.Numbers.{parse_canonical_u64_iff}

-- Two `u64` and an inner URI that is not empty.
pub record IsWritable (x : SliceUri) : Type 0 where
  pub offset_fits : x.offset < u64_mod
  pub length_fits : x.length < u64_mod
  pub inner_given : is_empty x.inner ≡ false

range_of : SliceUri → Bytes
range_of x = print_u64 x.offset ++ b'+' ∷ print_u64 x.length

-- What `format` writes behind the scheme.
text_of : SliceUri → Bytes
text_of x = range_of x ++ b'!' ∷ x.inner

format-text : (x : SliceUri) → format x ≡ codes "slice:" ++ text_of x
unfolding format text_of range_of
format-text x =
    ap (λ t. codes "slice:" ++ t)
      (sym (append_assoc (print_u64 x.offset) (b'+' ∷ print_u64 x.length) (b'!' ∷ x.inner)))

print-Lacks : (n b : ℕ) → is_ascii_digit b ≡ false → contains b (print_u64 n) ≡ false
print-Lacks n b h = digits-Lack b (print_u64 n) h (print-IsDigit n)

range-Lacks : (x : SliceUri) → contains b'!' (range_of x) ≡ false
unfolding range_of
range-Lacks x = rw (
  contains-append b'!' (print_u64 x.offset) (b'+' ∷ print_u64 x.length),
  print-Lacks x.offset b'!' refl,
  print-Lacks x.length b'!' refl,
)

parse_header-text : (x : SliceUri) → IsWritable x → parse_header (text_of x) ≡ ok x
unfolding parse_header text_of range_of
parse_header-text x w = rw (
  split_once-append b'!' (range_of x) x.inner (range-Lacks x),
  split_once-append b'+' (print_u64 x.offset) (print_u64 x.length) (print-Lacks x.offset b'+' refl),
  (parse_canonical_u64_iff (print_u64 x.offset) x.offset).1 (w.offset_fits, refl),
  (parse_canonical_u64_iff (print_u64 x.length) x.length).1 (w.length_fits, refl),
  w.inner_given,
)

-- What was read, put together again.
parts-text :
    (rest range inner off_s len_s : Bytes) (offset len : ℕ)
    → split_once b'!' rest ≡ some (range, inner)
    → split_once b'+' range ≡ some (off_s, len_s)
    → parse_canonical_u64 off_s ≡ ok offset
    → parse_canonical_u64 len_s ≡ ok len
    → is_empty inner ≡ false
    → let x : SliceUri = record { offset = offset; length = len; inner = inner } in
      IsWritable x × (rest ≡ text_of x)
unfolding text_of range_of
parts-text rest range inner off_s len_s offset len bang plus o l given =
    let (o_fits, o_text) = (parse_canonical_u64_iff off_s offset).0 o in
    let (l_fits, l_text) = (parse_canonical_u64_iff len_s len).0 l in
    (
      record { offset_fits = o_fits; length_fits = l_fits; inner_given = given },
      (split_once_sound b'!' rest range inner bang).0
          ∙ ap (λ r. r ++ b'!' ∷ inner)
              ((split_once_sound b'+' range off_s len_s plus).0
                ∙ ap (λ t. t ++ b'+' ∷ len_s) o_text
                ∙ ap (λ t. print_u64 offset ++ b'+' ∷ t) l_text),
    )

reject_if-eq-ok : (b : Bool) (e : Error) {u : Unit {0}} → reject_if b e ≡ ok u → b ≡ false
reject_if-eq-ok true e h = cc
reject_if-eq-ok false e h = refl

parse_header_sound :
    (rest : Bytes) (x : SliceUri) → parse_header rest ≡ ok x → IsWritable x × (rest ≡ text_of x)
unfolding parse_header
parse_header_sound rest x e =
    let no_bang = invalid "slice: URI missing '!' separator before inner URI" in
    let no_plus = invalid "slice: URI range missing '+' between offset and length" in
    let no_inner = invalid "slice: URI inner reference is empty after '!'" in
    let (p, p_eq, e₁) = >>=-eq-ok (ok_or (split_once b'!' rest) no_bang) _ e in
    let (q, q_eq, e₂) = >>=-eq-ok (ok_or (split_once b'+' p.0) no_plus) _ e₁ in
    let (offset, o_eq, e₃) = >>=-eq-ok (parse_canonical_u64 q.0) _ e₂ in
    let (len, l_eq, e₄) = >>=-eq-ok (parse_canonical_u64 q.1) _ e₃ in
    let (_, r_eq, e₅) = >>=-eq-ok (reject_if (is_empty p.1) no_inner) _ e₄ in
    subst (λ y. IsWritable y × (rest ≡ text_of y)) (ok-injective e₅)
      (parts-text rest p.0 p.1 q.0 q.1 offset len (ok_or-eq-ok _ _ p_eq) (ok_or-eq-ok _ _ q_eq) o_eq
        l_eq (reject_if-eq-ok _ _ r_eq))

-- The text behind the scheme is taken for a header exactly when it is one in canonical form.
pub parse_header_iff :
    (rest : Bytes) (x : SliceUri)
    → (parse_header rest ≡ ok x) ↔ (IsWritable x × (codes "slice:" ++ rest ≡ format x))
parse_header_iff rest x = (there, back)
  where
    there : parse_header rest ≡ ok x → IsWritable x × (codes "slice:" ++ rest ≡ format x)
    there e =
        let (w, t) = parse_header_sound rest x e in
        (w, ap (λ t. codes "slice:" ++ t) t ∙ sym (format-text x))

    same_tail : (s t : Bytes) → codes "slice:" ++ s ≡ codes "slice:" ++ t → s ≡ t
    same_tail s t h = cc

    back : IsWritable x × (codes "slice:" ++ rest ≡ format x) → parse_header rest ≡ ok x
    back (w, t) =
        ap parse_header (same_tail rest (text_of x) (t ∙ format-text x)) ∙ parse_header-text x w

-- A digit, and so no slash, stands behind the colon.
digits-no_slash :
    (s t : Bytes)
    → is_empty s ≡ false
    → all is_ascii_digit s ≡ true
    → starts_with (codes "//") (s ++ t) ≡ false
unfolding starts_with
digits-no_slash [] t h k = cc
digits-no_slash (c ∷ s) t h k = ground arith

text-no_slash : (x : SliceUri) → starts_with (codes "//") (text_of x) ≡ false
unfolding text_of range_of
text-no_slash x =
    rw append_assoc
      (digits-no_slash (print_u64 x.offset) _ (print-not_empty x.offset) (print-IsDigit x.offset))

-- A `SliceUri` of two `u64` and a non-empty inner URI is read back from its text, also where the
-- inner URI has a `!`.
pub SliceUri-parse-format : (x : SliceUri) → IsWritable x → parse (format x) ≡ ok x
unfolding parse
SliceUri-parse-format x w = rw (
  format-text x,
  split-scheme (codes "slice") (text_of x) refl refl,
  strip_slashes-id (text_of x) (text-no_slash x),
  parse_header-text x w,
)

pub parse-header :
    (uri : Bytes) (x : SliceUri) → parse uri ≡ ok x → parse_header (split uri).1 ≡ ok x
unfolding parse
parse-header uri x e = ground arith

-- For a `slice:` URI that the parser accepts, formatting the value and parsing it again gives the
-- value back.
pub SliceUri-parse-format-parse :
    (uri : Bytes) (x : SliceUri) → parse uri ≡ ok x → parse (format x) ≡ ok x
SliceUri-parse-format-parse uri x e =
    SliceUri-parse-format x (parse_header_sound (split uri).1 x (parse-header uri x e)).0

-- Where the parser accepts `slice:` and a text that does not begin with `//`, formatting the value
-- gives the same bytes.
pub SliceUri-format-parse :
    (rest : Bytes) (x : SliceUri)
    → starts_with (codes "//") rest ≡ false
    → parse (codes "slice:" ++ rest) ≡ ok x
    → format x ≡ codes "slice:" ++ rest
SliceUri-format-parse rest x h e =
    let behind : (split (codes "slice:" ++ rest)).1 ≡ rest =
      ap (λ (p : Bytes × Bytes). p.1) (split-scheme (codes "slice") rest refl refl)
      ∙ strip_slashes-id rest h in
    sym ((parse_header_iff rest x).0 (sym (ap parse_header behind) ∙ parse-header _ x e)).1
