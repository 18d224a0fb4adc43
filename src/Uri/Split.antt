-- ===== src/Uri/Split.antt =====
-- src/uri.rs, `split`, `scheme_is` and `has_file_scheme`: which URIs have a scheme, and what
-- reaches a driver.
use oxideav_source.Prelude.{
  ◌≡◌, refl, ap, inl, inr, true, false, [], ◌∷◌, ◌++◌, some, arith, Bytes, codes, all, contains,
  Bool-cases, Option-cases, split_once, split_once-append, split_once_sound, strip_prefix,
  starts_with, strip_prefix-none, eq_ignore_ascii_case,
}
use oxideav_source.Uri.{
  is_scheme_char, is_drive_letter, is_valid_scheme, strip_slashes, split_scheme, split, scheme_is,
  has_file_scheme,
}

scheme-Lacks_colon : (s : Bytes) → all is_scheme_char s ≡ true → contains b':' s ≡ false
scheme-Lacks_colon [] h = refl
scheme-Lacks_colon (c ∷ s) h = ground (arith, scheme-Lacks_colon s)

valid-Lacks_colon : (s : Bytes) → is_valid_scheme s ≡ true → contains b':' s ≡ false
valid-Lacks_colon s h = ground (arith, scheme-Lacks_colon s)

-- A scheme of the grammar that is no drive letter is split off, with one `//` behind the colon.
pub split-scheme :
    (scheme rest : Bytes)
    → is_valid_scheme scheme ≡ true
    → is_drive_letter scheme ≡ false
    → split (scheme ++ b':' ∷ rest) ≡ (scheme, strip_slashes rest)
unfolding split
split-scheme scheme rest valid drive = rw (
  split_once-append b':' scheme rest (valid-Lacks_colon scheme valid),
  split_scheme,
  drive,
  valid,
)

-- What `split` can return: the whole text as a `file` path, or a scheme in front of a colon.
pub data IsSplit (uri : Bytes) : Bytes × Bytes → Type 0 where
  bare : IsSplit uri (codes "file", uri)
  schemed :
      (scheme rest : Bytes)
      → uri ≡ scheme ++ b':' ∷ rest
      → is_valid_scheme scheme ≡ true
      → is_drive_letter scheme ≡ false
      → IsSplit uri (scheme, strip_slashes rest)

split_scheme-IsSplit :
    (uri scheme rest : Bytes)
    → uri ≡ scheme ++ b':' ∷ rest
    → IsSplit uri (split_scheme uri (some (scheme, rest)))
unfolding split_scheme
split_scheme-IsSplit uri scheme rest e = elim (Bool-cases (is_drive_letter scheme)) [
  | inl drive ↦ rw drive bare
  | inr long ↦ rw long (elim (Bool-cases (is_valid_scheme scheme)) [
    | inl valid ↦ rw valid (schemed scheme rest e valid long)
    | inr invalid ↦ rw invalid bare
  ])
]

-- Every URI is split in one of these two ways.
pub split-IsSplit : (uri : Bytes) → IsSplit uri (split uri)
unfolding split
split-IsSplit uri = elim (Option-cases (split_once b':' uri)) [
  | inl e ↦ rw (e, split_scheme) bare
  | inr (p, e) ↦ rw e (split_scheme-IsSplit uri p.0 p.1 (split_once_sound b':' uri p.0 p.1 e).0)
]

pub strip_slashes-id : (s : Bytes) → starts_with (codes "//") s ≡ false → strip_slashes s ≡ s
unfolding strip_slashes
strip_slashes-id s h = rw (strip_prefix-none (codes "//") s h)

is_file-valid :
    (s : Bytes)
    → eq_ignore_ascii_case s (codes "file") ≡ true
    → (is_valid_scheme s ≡ true) × (is_drive_letter s ≡ false)
is_file-valid [] h = cc
is_file-valid (a ∷ []) h = ground arith
is_file-valid (a ∷ b ∷ []) h = ground arith
is_file-valid (a ∷ b ∷ c ∷ []) h = ground arith
is_file-valid (a ∷ b ∷ c ∷ d ∷ []) h = ground arith
is_file-valid (a ∷ b ∷ c ∷ d ∷ e ∷ s) h = ground arith

pub split_file :
    (scheme rest : Bytes)
    → scheme_is scheme (codes "file") ≡ true
    → split (scheme ++ b':' ∷ rest) ≡ (scheme, strip_slashes rest)
split_file scheme rest h =
    let valid = is_file-valid scheme h in split-scheme scheme rest valid.0 valid.1

-- A URI with an explicit `file:` is a scheme that reads as `file`, a colon and a rest, and `split`
-- returns that scheme, and the rest without its leading `//`.
pub has_file_scheme_sound :
    (uri : Bytes)
    → has_file_scheme uri ≡ true
    → (scheme : Bytes) × (rest : Bytes) × (uri ≡ scheme ++ b':' ∷ rest)
      × (scheme_is scheme (codes "file") ≡ true)
      × (split uri ≡ (scheme, strip_slashes rest))
unfolding has_file_scheme
has_file_scheme_sound [] h = cc
has_file_scheme_sound (a ∷ []) h = cc
has_file_scheme_sound (a ∷ b ∷ []) h = cc
has_file_scheme_sound (a ∷ b ∷ c ∷ []) h = cc
has_file_scheme_sound (a ∷ b ∷ c ∷ d ∷ []) h = cc
has_file_scheme_sound (a ∷ b ∷ c ∷ d ∷ e ∷ rest) h =
    let scheme : Bytes = a ∷ b ∷ c ∷ d ∷ [] in
    let is_file : eq_ignore_ascii_case scheme (codes "file") ≡ true = ground arith in
    let colon : e ≡ b':' = ground arith in
    let valid = is_file-valid scheme is_file in
    (
      scheme,
      rest,
      ap (λ x. a ∷ b ∷ c ∷ d ∷ x ∷ rest) colon,
      is_file,
      rw colon (split-scheme scheme rest valid.0 valid.1),
    )

-- A scheme that reads as `file` in front of a colon is an explicit `file:`.
pub has_file_scheme_complete :
    (s rest : Bytes) → scheme_is s (codes "file") ≡ true → has_file_scheme (s ++ b':' ∷ rest) ≡ true
unfolding has_file_scheme
has_file_scheme_complete [] rest h = cc
has_file_scheme_complete (a ∷ []) rest h = ground arith
has_file_scheme_complete (a ∷ b ∷ []) rest h = ground arith
has_file_scheme_complete (a ∷ b ∷ c ∷ []) rest h = ground arith
has_file_scheme_complete (a ∷ b ∷ c ∷ d ∷ []) rest h = ground arith
has_file_scheme_complete (a ∷ b ∷ c ∷ d ∷ e ∷ s) rest h = ground arith

-- Where a URI without an explicit `file:` goes to the file driver, its path is the whole text.
pub bare_path_lem :
    (uri : Bytes)
    → has_file_scheme uri ≡ false
    → scheme_is (split uri).0 (codes "file") ≡ true
    → (split uri).1 ≡ uri
bare_path_lem uri h f = go (split uri) (split-IsSplit uri) f
  where
    go : (p : Bytes × Bytes) → IsSplit uri p → scheme_is p.0 (codes "file") ≡ true → p.1 ≡ uri
    go _ bare e = refl
    go _ (schemed scheme rest u _ _) e =
        cc (has_file_scheme_complete scheme rest e, ap has_file_scheme u)

-- No `//` comes about where a text that has none meets one that does not begin with a slash.
pub no_slashes-append :
    (m t : Bytes)
    → starts_with (codes "//") m ≡ false
    → starts_with (codes "/") t ≡ false
    → starts_with (codes "//") (m ++ t) ≡ false
unfolding starts_with
no_slashes-append [] [] h k = refl
no_slashes-append [] (c ∷ []) h k = ground arith
no_slashes-append [] (c ∷ d ∷ t) h k = ground arith
no_slashes-append (a ∷ []) [] h k = ground arith
no_slashes-append (a ∷ []) (c ∷ t) h k = ground arith
no_slashes-append (a ∷ b ∷ m) t h k = ground arith

pub strip_slashes-slashes : (s : Bytes) → strip_slashes (codes "//" ++ s) ≡ s
unfolding strip_slashes strip_prefix
strip_slashes-slashes s = refl
