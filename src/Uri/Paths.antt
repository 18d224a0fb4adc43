-- ===== src/Uri/Paths.antt =====
-- src/uri.rs as src/file.rs and src/scope.rs use it: which path a URI of the `file` driver names.
use oxideav_source.Prelude.{
  ◌≡◌, ◌↔◌, refl, sym, ap, subst, ◌∙◌, inl, inr, Bool, true, false, [], ◌∷◌, ◌++◌, arith,
  if◌then◌else◌, Bytes, codes, Bool-cases, starts_with, eq_ignore_ascii_case, is_utf8, Result, ok,
  err, Error, >>=-eq-ok, ok-injective,
}
use oxideav_source.Uri.{
  is_valid_scheme, is_drive_letter, split, scheme_is, strip_slashes, has_file_scheme,
  percent_decode_bytes, percent_decode_path,
}
use oxideav_source.Uri.Split.{
  IsSplit, schemed, split-IsSplit, split-scheme, has_file_scheme_sound, has_file_scheme_complete,
  bare_path_lem, split_file, strip_slashes-id, strip_slashes-slashes,
}
use oxideav_source.Uri.Percent.{Decodes, percent_decode_bytes_iff}

-- What follows the colon, and what one leading `//` leaves of it.
pub data Unslashed : Bytes → Bytes → Type 0 where
  slashed : (s : Bytes) → Unslashed (codes "//" ++ s) s
  bare : (s : Bytes) → starts_with (codes "//") s ≡ false → Unslashed s s

-- `u` is `scheme:rest` with a scheme that reads as `file` in some case.
pub record IsFileUri (u scheme rest : Bytes) : Type 0 where
  pub whole : u ≡ scheme ++ b':' ∷ rest
  pub is_file : eq_ignore_ascii_case scheme (codes "file") ≡ true

-- The path that a text names: behind an explicit `file:`, the bytes that the percent-encoded rest
-- stands for, which are UTF-8; without one, the text itself.
pub data PathOf (u : Bytes) : Bytes → Type 0 where
  explicit :
      {path : Bytes} (scheme rest s : Bytes)
      → IsFileUri u scheme rest
      → Unslashed rest s
      → Decodes s path
      → is_utf8 path ≡ true
      → PathOf u path
  verbatim : ((scheme rest : Bytes) → ¬ IsFileUri u scheme rest) → PathOf u u

with_slashes : (s : Bytes) → starts_with (codes "//") s ≡ true → Unslashed s (strip_slashes s)
unfolding starts_with
with_slashes [] e = absurd (cc)
with_slashes (a ∷ []) e = absurd (ground arith)
with_slashes (a ∷ b ∷ s) e =
    let ha : a ≡ b'/' = ground arith in
    let hb : b ≡ b'/' = ground arith in rw (ha, hb, strip_slashes-slashes s) (slashed s)

Unslashed-sound : (s : Bytes) → Unslashed s (strip_slashes s)
Unslashed-sound s = elim (Bool-cases (starts_with (codes "//") s)) [
  | inl e ↦ with_slashes s e
  | inr e ↦ rw (strip_slashes-id s e) (bare s e)
]

Unslashed-complete : {s t : Bytes} → Unslashed s t → strip_slashes s ≡ t
Unslashed-complete (slashed s) = strip_slashes-slashes s
Unslashed-complete (bare s e) = strip_slashes-id s e

accepted :
    (e : Error) (b : Bool) (s t : Bytes) → (if b then ok s else err e) ≡ ok t → (s ≡ t) × (b ≡ true)
accepted e true s t h = (ok-injective h, refl)
accepted e false s t h = cc

percent_decode_path_iff :
    (s path : Bytes) → (percent_decode_path s ≡ ok path) ↔ (Decodes s path × (is_utf8 path ≡ true))
unfolding percent_decode_path
percent_decode_path_iff s path = (there, back)
  where
    there : percent_decode_path s ≡ ok path → Decodes s path × (is_utf8 path ≡ true)
    there h =
        let (bytes, e, k) = >>=-eq-ok (percent_decode_bytes s) _ h in
        let (same, utf8) = accepted _ (is_utf8 bytes) bytes path k in
        (
          subst (Decodes s) same ((percent_decode_bytes_iff s bytes).0 e),
          ap is_utf8 (sym same) ∙ utf8,
        )

    back : Decodes s path × (is_utf8 path ≡ true) → percent_decode_path s ≡ ok path
    back (d, k) = rw ((percent_decode_bytes_iff s path).1 d, k) refl

-- The path as the drivers compute it.
abbrev pub path_of : Bytes → Result Error Bytes
path_of u = if has_file_scheme u then percent_decode_path (split u).1 else ok (split u).1

module _ (u : Bytes) (is_file : scheme_is (split u).0 (codes "file") ≡ true) where
  path_of_sound : (path : Bytes) → path_of u ≡ ok path → PathOf u path
  path_of_sound path h = elim (Bool-cases (has_file_scheme u)) [
    | inl e ↦
        let (scheme, rest, whole, file, parts) = has_file_scheme_sound u e in
        let decoded : percent_decode_path (strip_slashes rest) ≡ ok path = rw (e, parts) at h in
        let (d, k) = (percent_decode_path_iff (strip_slashes rest) path).0 decoded in
        explicit scheme rest (strip_slashes rest) (record { whole = whole; is_file = file })
          (Unslashed-sound rest) d k
    | inr e ↦
        let same : u ≡ path = ground (arith, bare_path_lem u e is_file) in
        subst (PathOf u) same (
          verbatim (λ scheme rest f.
            cc (has_file_scheme_complete scheme rest f.is_file, ap has_file_scheme f.whole)))
  ]

  path_of_complete : (path : Bytes) → PathOf u path → path_of u ≡ ok path
  path_of_complete path (explicit scheme rest s f t d k) =
      rw
        (
          f.whole,
          has_file_scheme_complete scheme rest f.is_file,
          split_file scheme rest f.is_file,
          Unslashed-complete t,
        )
        ((percent_decode_path_iff s path).1 (d, k))
  path_of_complete _ (verbatim none) = elim (Bool-cases (has_file_scheme u)) [
    | inl e ↦
        let (scheme, rest, whole, file, _) = has_file_scheme_sound u e in
        absurd (none scheme rest (record { whole = whole; is_file = file }))
    | inr e ↦ rw (e, bare_path_lem u e is_file) refl
  ]

  -- What the drivers compute is the path that the URI names, or an error if it names none.
  pub path_of_iff : (path : Bytes) → (path_of u ≡ ok path) ↔ PathOf u path
  path_of_iff path = (path_of_sound path, path_of_complete path)

-- A URI of another scheme than `file`: a scheme of the grammar, which is no drive letter, stands in
-- front of a colon.
pub record IsForeign (u : Bytes) : Type 0 where
  pub scheme : Bytes
  pub rest : Bytes
  pub whole : u ≡ scheme ++ b':' ∷ rest
  pub valid : is_valid_scheme scheme ≡ true
  pub long : is_drive_letter scheme ≡ false
  pub other : eq_ignore_ascii_case scheme (codes "file") ≡ false

pub other-IsForeign : (u : Bytes) → scheme_is (split u).0 (codes "file") ≡ false → IsForeign u
other-IsForeign u h = go (split u) (split-IsSplit u) h
  where
    go : (p : Bytes × Bytes) → IsSplit u p → scheme_is p.0 (codes "file") ≡ false → IsForeign u
    go _ IsSplit.bare e = absurd (cc)
    go _ (schemed scheme rest whole valid long) e = record {
      scheme = scheme;
      rest = rest;
      whole = whole;
      valid = valid;
      long = long;
      other = e;
    }

pub not-IsForeign : (u : Bytes) → scheme_is (split u).0 (codes "file") ≡ true → ¬ IsForeign u
not-IsForeign u h f =
    let parts = split-scheme f.scheme f.rest f.valid f.long in
    let same : (split u).0 ≡ f.scheme = rw f.whole (rw parts refl) in cc (h, f.other, same)
