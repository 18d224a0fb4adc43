-- ===== src/Data/Produced.antt =====
-- src/data.rs: what `new` and `parse` return can be written and read back.
use oxideav_source.Prelude.{
  ◌≡◌, refl, sym, ◌∙◌, ap, subst, inl, inr, Bool, true, false, not, [], ◌∷◌, ◌++◌, some, arith,
  Bytes, codes, All, contains, starts_with, strip_prefix, strip_prefix_sound, split_once,
  split_once_sound, Bool-cases, Option-cases, ◌↔◌, ok, err, ◌>>=◌, >>=-eq-ok, Result-cases,
  reject_if, ok_or, ok_or-eq-ok, Error, invalid,
}
use oxideav_source.Uri.{split, scheme_is, strip_slashes}
use oxideav_source.Uri.Split.{split-IsSplit, IsSplit, bare, schemed}
use oxideav_source.Base64.Groups.{IsByte}
use oxideav_source.Data.{
  DataUri, strip_base64_suffix, ends_with_base64_marker, new, format, read_header, decode_payload,
  parse_parts, parse,
}
use oxideav_source.Data.Payload.{percent_decode-bytes, decode_base64-bytes}
use oxideav_source.Data.Header.{strip_base64_suffix-Lacks}
use oxideav_source.Data.RoundTrip.{IsWritable, DataUri-parse-format}

pub new-IsWritable :
    (m : Bytes) (b : Bool) (p : Bytes) {d : DataUri}
    → All IsByte p
    → new m b p ≡ ok d
    → IsWritable d
unfolding new
new-IsWritable m b p h e = ground arith

-- The bytes of a part of a text.
split_scheme-bytes : (uri : Bytes) → All IsByte uri → All IsByte (split uri).1
split_scheme-bytes uri h = go (split uri) (split-IsSplit uri)
  where
    behind : (s t : Bytes) → All IsByte (s ++ t) → All IsByte t
    behind [] t hs = hs
    behind (c ∷ s) t (_, hs) = behind s t hs

    stripped : (s : Bytes) → All IsByte s → All IsByte (strip_slashes s)
    stripped s hs = elim (Option-cases (strip_prefix (codes "//") s)) [
      | inl e ↦ unfold strip_slashes in rw e hs
      | inr (t, e) ↦
          unfold strip_slashes in
          rw e
            (behind (codes "//") t (subst (All IsByte) (strip_prefix_sound (codes "//") s t e) hs))
    ]

    go : (p : Bytes × Bytes) → IsSplit uri p → All IsByte p.1
    go _ bare = h
    go _ (schemed scheme rest e _ _) =
        stripped rest
          ((behind (scheme ++ b':' ∷ []) rest (subst (All IsByte) (e ∙ regroup scheme rest) h)))
      where
        regroup : (s r : Bytes) → s ++ b':' ∷ r ≡ (s ++ b':' ∷ []) ++ r
        regroup [] r = refl
        regroup (c ∷ s) r = ap (λ t. c ∷ t) (regroup s r)

decode_payload-bytes :
    (b : Bool) (s : Bytes) {r : Bytes} → All IsByte s → decode_payload b s ≡ ok r → All IsByte r
unfolding decode_payload
decode_payload-bytes true s h e = decode_base64-bytes s e
decode_payload-bytes false s h e = percent_decode-bytes s h e

-- What the header is read as lacks commas, and its marker if it has lost none.
read_header-Lacks :
    (header : Bytes)
    → contains b',' header ≡ false
    → contains b',' (read_header header (strip_base64_suffix header)).0 ≡ false
read_header-Lacks header h = elim (Option-cases (strip_base64_suffix header)) [
  | inl e ↦ unfold read_header in rw e h
  | inr (m, e) ↦ unfold read_header in rw e (strip_base64_suffix-Lacks b',' header m h e)
]

read_header-no_marker :
    (header : Bytes)
    → (read_header header (strip_base64_suffix header)).1 ≡ false
    → ends_with_base64_marker (read_header header (strip_base64_suffix header)).0 ≡ false
unfolding read_header ends_with_base64_marker
read_header-no_marker header h = elim (Option-cases (strip_base64_suffix header)) [
  | inl e ↦ rw (e, e) refl
  | inr (m, e) ↦ absurd (true_false (rw e at h))
]
  where
    true_false : ◌≡◌ {A = Bool} true false → ⊥
    true_false t = cc

pub parse_parts_sound :
    (m : Bytes) (b : Bool) (s : Bytes) {d : DataUri}
    → parse_parts (m, b) s ≡ ok d
    → (r : Bytes) × (decode_payload b s ≡ ok r)
      × (starts_with (codes "//") m ≡ false)
      × (d ≡ record { mediatype = m; base64 = b; payload = r })
parse_parts_sound m b s {d} e = elim (Bool-cases (starts_with (codes "//") m)) [
  | inl slashes ↦ absurd (refused slashes)
  | inr fine ↦ elim (Result-cases (decode_payload b s)) [
    | inl (r, f) ↦ (r, f, fine, opened fine r f)
    | inr (x, f) ↦ absurd (failed fine x f)
  ]
]
  where
    refused : starts_with (codes "//") m ≡ true → ⊥
    refused t = unfold parse_parts in cc (rw t at e)

    opened :
        starts_with (codes "//") m ≡ false
        → (r : Bytes) → decode_payload b s ≡ ok r
        → d ≡ record { mediatype = m; base64 = b; payload = r }
    opened fine r f = unfold parse_parts in ground arith

    failed : starts_with (codes "//") m ≡ false → (x : Error) → decode_payload b s ≡ err x → ⊥
    failed fine x f = unfold parse_parts in ground arith

-- A successful parse, taken apart.
pub parse_sound :
    (uri : Bytes) {d : DataUri}
    → parse uri ≡ ok d
    → (header : Bytes) × (s : Bytes) × (split_once b',' (split uri).1 ≡ some (header, s))
      × (parse_parts (read_header header (strip_base64_suffix header)) s ≡ ok d)
unfolding parse
parse_sound uri {d} e =
    let (_, _, e₁) =
      >>=-eq-ok
        (reject_if (not (scheme_is (split uri).0 (codes "data")))
          (invalid "data driver invoked on non-data URI"))
        (λ _.
          ok_or (split_once b',' (split uri).1) (invalid "data: URI missing comma separator")
          >>= λ p. parse_parts (read_header p.0 (strip_base64_suffix p.0)) p.1)
        e in
    let (p, f, g) =
      >>=-eq-ok
        (ok_or (split_once b',' (split uri).1) (invalid "data: URI missing comma separator"))
        (λ p. parse_parts (read_header p.0 (strip_base64_suffix p.0)) p.1) e₁ in
    (p.0, p.1, ok_or-eq-ok _ _ f, g)

pub parse-IsWritable :
    (uri : Bytes) {d : DataUri} → All IsByte uri → parse uri ≡ ok d → IsWritable d
parse-IsWritable uri {d} h e =
    let (header, s, f, g) = parse_sound uri e in
    let (u, lacks) = split_once_sound b',' (split uri).1 header s f in
    let (r, k, slashes, v) =
      parse_parts_sound (read_header header (strip_base64_suffix header)).0
        (read_header header (strip_base64_suffix header)).1 s g in
    subst IsWritable (sym v) (record {
      no_comma = read_header-Lacks header lacks;
      no_marker = read_header-no_marker header;
      no_slashes = slashes;
      bytes =
          decode_payload-bytes (read_header header (strip_base64_suffix header)).1 s
            (behind header s (subst (All IsByte) u (split_scheme-bytes uri h))) k;
    })
  where
    behind : (s t : Bytes) → All IsByte (s ++ b',' ∷ t) → All IsByte t
    behind [] t (_, ht) = ht
    behind (c ∷ s) t (_, hs) = behind s t hs

-- For a `data:` URI of bytes that the parser accepts, formatting the value and parsing it again
-- gives the value back.
pub DataUri-parse-format-parse :
    (uri : Bytes) (d : DataUri) → All IsByte uri → parse uri ≡ ok d → parse (format d) ≡ ok d
DataUri-parse-format-parse uri d h e = DataUri-parse-format d (parse-IsWritable uri h e)

-- For a payload of bytes, `DataUri::new` returns `d` if and only if `d` has the three fields and
-- can be written: no comma in the mediatype, no `//` at its start and, in the percent form, no
-- base64 marker at its end.
pub DataUri-new_iff :
    (m : Bytes) (b : Bool) (p : Bytes) (d : DataUri)
    → All IsByte p
    → (new m b p ≡ ok d) ↔ ((d ≡ record { mediatype = m; base64 = b; payload = p }) × IsWritable d)
DataUri-new_iff m b p d h = (λ e. (fields e, new-IsWritable m b p h e), built)
  where
    fields : new m b p ≡ ok d → d ≡ record { mediatype = m; base64 = b; payload = p }
    fields e = unfold new in ground arith

    accepted :
        IsWritable (record { mediatype = m; base64 = b; payload = p })
        → new m b p ≡ ok (record { mediatype = m; base64 = b; payload = p })
    accepted w = unfold new in ground (arith, w.no_marker)

    built :
        (d ≡ record { mediatype = m; base64 = b; payload = p }) × IsWritable d → new m b p ≡ ok d
    built (e, w) = subst (λ x. new m b p ≡ ok x) (sym e) (accepted (subst IsWritable e w))
