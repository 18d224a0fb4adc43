-- ===== src/Data/Sizes.antt =====
-- src/data.rs: a payload is no longer than its URI.
use oxideav_source.Prelude.{
  ℕ, ◌≤◌, ◌≡◌, sym, ap, ◌∙◌, subst, inl, inr, Bool, true, false, [], ◌∷◌, ◌++◌, arith, Bytes,
  length, length-append, is_empty, split_once_sound, Bool-cases, ok, ◌>>=◌, >>=-eq-ok, ok-injective,
}
use oxideav_source.Uri.{split, strip_slashes}
use oxideav_source.Uri.Split.{IsSplit, bare, schemed, split-IsSplit}
use oxideav_source.Uri.Percent.{Decodes, done, plain, escaped, percent_decode_bytes_iff}
use oxideav_source.Base64.{
  is_blank, clean, read_group, triple_of, emit, close_group, decode_groups, decode_base64,
}
use oxideav_source.Base64.Groups.{group_head}
use oxideav_source.Base64.RoundTrip.{no_groups}
use oxideav_source.Data.{DataUri, strip_base64_suffix, read_header, decode_payload, parse}
use oxideav_source.Data.Produced.{parse_sound, parse_parts_sound}

pub length-strip_slashes : (s : Bytes) → length (strip_slashes s) ≤ length s
unfolding strip_slashes
length-strip_slashes [] = omega arith
length-strip_slashes (a ∷ []) = ground arith
length-strip_slashes (a ∷ b ∷ s) = ground arith

length-split_of : (u : Bytes) (p : Bytes × Bytes) → IsSplit u p → length p.1 ≤ length u
length-split_of u _ bare = omega arith
length-split_of u _ (schemed scheme rest e _ _) =
    omega (arith, ap length e, length-append scheme (b':' ∷ rest), length-strip_slashes rest)

pub length-split : (u : Bytes) → length (split u).1 ≤ length u
length-split u = length-split_of u (split u) (split-IsSplit u)

Decodes-length : {s r : Bytes} → Decodes s r → length r ≤ length s
Decodes-length done = omega arith
Decodes-length (plain ne d) = omega (arith, Decodes-length d)
Decodes-length (escaped hi lo p q d) = omega (arith, Decodes-length d)

length-clean : (s : Bytes) → length (clean s) ≤ length s
unfolding clean
length-clean [] = omega arith
length-clean (b ∷ s) = elim (Bool-cases (is_blank b)) [
  | inl e ↦ rw e (omega (arith, length-clean s))
  | inr e ↦ rw e (omega (arith, length-clean s))
]

length-emit : (t pad : ℕ) → length (emit t pad) ≤ 3
unfolding emit
length-emit t pad = ground arith

length-close_group :
    (last : Bool) (g : ℕ × Bytes) {out : Bytes} → close_group last g ≡ ok out → length out ≤ 3
length-close_group last (pad, chunk) {out} e =
    subst (λ o. length o ≤ 3) emitted (length-emit (triple_of chunk) pad)
  where
    emitted : emit (triple_of chunk) pad ≡ out
    emitted = unfold close_group in ground arith

length-decode_groups : (s : Bytes) {r : Bytes} → decode_groups s ≡ ok r → length r ≤ length s
length-decode_groups [] {r} e =
    subst (λ o. length o ≤ 0) (ok-injective (sym no_groups ∙ e)) (omega arith)
length-decode_groups (a ∷ []) e = absurd (unfold decode_groups in cc)
length-decode_groups (a ∷ b ∷ []) e = absurd (unfold decode_groups in cc)
length-decode_groups (a ∷ b ∷ c ∷ []) e = absurd (unfold decode_groups in cc)
length-decode_groups (a ∷ b ∷ c ∷ d ∷ rest) {r} e =
    let group = read_group (a ∷ b ∷ c ∷ d ∷ []) 0 in
    let close = close_group (is_empty rest) in
    let (out, e₁, e₂) =
      >>=-eq-ok (group >>= close) (λ x. decode_groups rest >>= λ y. ok (x ++ y))
        (sym (group_head a b c d rest) ∙ e) in
    let (g, _, p) = >>=-eq-ok group close e₁ in
    let (later, q, e₃) = >>=-eq-ok (decode_groups rest) (λ y. ok (out ++ y)) e₂ in
    omega (
      arith,
      length-close_group (is_empty rest) g p,
      length-decode_groups rest q,
      length-append out later,
      ap length (ok-injective e₃),
    )

length-decode_payload : (b : Bool) (s r : Bytes) → decode_payload b s ≡ ok r → length r ≤ length s
unfolding decode_payload
length-decode_payload false s r e = Decodes-length ((percent_decode_bytes_iff s r).0 e)
length-decode_payload true s r e = omega (
  arith,
  length-clean s,
  length-decode_groups (clean s) {r = r} (unfold decode_base64 in ground arith),
)

pub length-payload : (u : Bytes) (d : DataUri) → parse u ≡ ok d → length d.payload ≤ length u
length-payload u d e =
    let (header, s, f, g) = parse_sound u e in
    let h = read_header header (strip_base64_suffix header) in
    let (r, k, _, same) = parse_parts_sound h.0 h.1 s g in
    omega (
      arith,
      ap (λ (x : DataUri). length x.payload) same,
      length-decode_payload h.1 s r k,
      length-split u,
      ap length (split_once_sound b',' (split u).1 header s f).0,
      length-append header (b',' ∷ s),
    )
