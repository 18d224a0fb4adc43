-- ===== src/Open/Registry.antt =====
-- src/lib.rs, `with_defaults` and `register`, for a `SourceRegistry` that is a parameter.
use oxideav_source.Prelude.{
  ℕ, suc, ◌≡◌, refl, sym, ap, ◌∙◌, inl, inr, false, [], ◌∷◌, Bytes, codes, arith, eq_bytes,
  eq_bytes_sound, to_ascii_lowercase, Bool-cases, subst, if◌then◌else◌, Option, none, some, Result,
  ok, err, ◌>>=◌, Error,
}
use oxideav_source.Uri.{split, scheme_is}
use oxideav_source.Mem.{Table, open_mem}
use oxideav_source.Open.{
  FileSystem, file, mem, cursor, sub, concat, Dyn, dyn_source, open_file, open_data, open_slice,
  open_concat, open_bytes, no_bundled_driver,
}

-- What the source uses of `SourceRegistry`, for openers of type `Opened`.
pub record Registry (Opened R : Type 0) : Type 0 where
  pub new : R
  pub register_bytes : Bytes → Opened → R → R
  pub lookup : Bytes → R → Option Opened

-- A registration replaces the one for the same scheme and leaves the others.
pub record IsRegistry {Opened R : Type 0} (registry : Registry Opened R) : Type 0 where
  pub empty : (k : Bytes) → registry.lookup k registry.new ≡ none
  pub registered :
      (j k : Bytes) (o : Opened) (r : R)
      → registry.lookup j (registry.register_bytes k o r)
        ≡ (if eq_bytes j k then some o else registry.lookup j r)

module _ {F : Type 0} (fs : FileSystem F) (table : Table) (n : ℕ) where
  -- The openers, as function pointers that return a boxed reader.
  abbrev pub Opener : Type 0
  Opener = Bytes → Result Error (Dyn fs (suc n))

  abbrev pub file_driver : Opener
  file_driver uri_str = open_file fs uri_str >>= λ r. ok (file r)

  abbrev pub mem_driver : Opener
  mem_driver uri_str = open_mem table uri_str >>= λ r. ok (mem r)

  abbrev pub data_driver : Opener
  data_driver uri_str = open_data uri_str >>= λ r. ok (cursor r)

  abbrev pub slice_driver : Opener
  slice_driver uri_str =
      open_slice (dyn_source fs n) (open_bytes fs table n) uri_str >>= λ r. ok (sub r)

  abbrev pub concat_driver : Opener
  concat_driver uri_str =
      open_concat (dyn_source fs n) (open_bytes fs table n) uri_str >>= λ r. ok (concat r)

  module _ {R : Type 0} (registry : Registry Opener R) where
    unfoldable pub register : R → R
    register r = registry.register_bytes (codes "slice") slice_driver (
        registry.register_bytes (codes "concat") concat_driver (
          registry.register_bytes (codes "data") data_driver (
            registry.register_bytes (codes "mem") mem_driver
              (registry.register_bytes (codes "file") file_driver r))))

    unfoldable pub with_defaults : R
    unfolding register
    with_defaults = register registry.new

abbrev pub IsLower : Bytes → Type 0
IsLower [] = Unit
IsLower (c ∷ s) = (to_ascii_lowercase c ≡ c) × IsLower s

scheme_is-eq_bytes : (s w : Bytes) → IsLower s → IsLower w → scheme_is s w ≡ eq_bytes s w
unfolding eq_bytes
scheme_is-eq_bytes [] [] h k = refl
scheme_is-eq_bytes [] (d ∷ w) h k = refl
scheme_is-eq_bytes (c ∷ s) [] h k = refl
scheme_is-eq_bytes (c ∷ s) (d ∷ w) (h, hs) (k, ks) = rw (h, k, scheme_is-eq_bytes s w hs ks) refl

module _ {F : Type 0} (fs : FileSystem F) (table : Table) (n : ℕ) where
  -- What a lookup gives.
  abbrev pub dispatch : Option (Opener fs table n) → Opener fs table n
  dispatch none uri_str = err no_bundled_driver
  dispatch (some o) uri_str = o uri_str

  module _ (none_else : Option (Opener fs table n)) where
    found : Bytes → Option (Opener fs table n)
    found s =
        if eq_bytes s (codes "slice")
        then some (slice_driver fs table n)
        else if eq_bytes s (codes "concat")
        then some (concat_driver fs table n)
        else if eq_bytes s (codes "data")
        then some (data_driver fs table n)
        else if eq_bytes s (codes "mem")
        then some (mem_driver fs table n)
        else if eq_bytes s (codes "file")
        then some (file_driver fs table n)
        else none_else

  found_again : (x : Option (Opener fs table n)) (s : Bytes) → found (found x s) s ≡ found x s
  unfolding found
  found_again x s = ground arith

  chosen : Bytes → Opener fs table n
  chosen s uri_str =
      if scheme_is s (codes "file")
      then file_driver fs table n uri_str
      else if scheme_is s (codes "mem")
      then mem_driver fs table n uri_str
      else if scheme_is s (codes "data")
      then data_driver fs table n uri_str
      else if scheme_is s (codes "slice")
      then slice_driver fs table n uri_str
      else if scheme_is s (codes "concat")
      then concat_driver fs table n uri_str
      else err no_bundled_driver

  module _ (s uri : Bytes) (low : IsLower s) where
    Same : Bytes → Type 0
    Same s = chosen s uri ≡ dispatch (found none s) uri

    -- The scheme is the one named, or it is not.
    named : (w : Bytes) → Same w → ((eq_bytes s w ≡ false) → Same s) → Same s
    named w here other = elim (Bool-cases (eq_bytes s w)) [
      | inl e ↦ subst Same (sym (eq_bytes_sound s w e)) here
      | inr e ↦ other e
    ]

    unnamed : (w : Bytes) → IsLower w → eq_bytes s w ≡ false → scheme_is s w ≡ false
    unnamed w k e = scheme_is-eq_bytes s w low k ∙ e

    chosen-found : Same s
    unfolding Same chosen found eq_bytes
    chosen-found = named (codes "file") refl (λ f. named (codes "mem") refl (λ m.
        named (codes "data") refl (λ d. named (codes "slice") refl (λ l.
          named (codes "concat") refl (λ c.
            rw
              (
                unnamed (codes "file") (refl, (refl, (refl, (refl, tt)))) f,
                unnamed (codes "mem") (refl, (refl, (refl, tt))) m,
                unnamed (codes "data") (refl, (refl, (refl, (refl, tt)))) d,
                unnamed (codes "slice") (refl, (refl, (refl, (refl, (refl, tt))))) l,
                unnamed (codes "concat") (refl, (refl, (refl, (refl, (refl, (refl, tt)))))) c,
                f,
                m,
                d,
                l,
                c,
              )
              refl)))))

  module _ {R : Type 0} (registry : Registry (Opener fs table n) R)
      (law : IsRegistry registry) where
    over :
        (s k : Bytes) (o : Opener fs table n) (r : R) (x : Option (Opener fs table n))
        → registry.lookup s r ≡ x
        → registry.lookup s (registry.register_bytes k o r) ≡ (if eq_bytes s k then some o else x)
    over s k o r x h = law.registered s k o r ∙ ap (λ y. if eq_bytes s k then some o else y) h

    lookup-register :
        (s : Bytes) (r : R)
        → registry.lookup s (register fs table n registry r) ≡ found (registry.lookup s r) s
    unfolding register found
    lookup-register s r = over s (codes "slice") _ _ _ (
        over s (codes "concat") _ _ _ (
          over s (codes "data") _ _ _
            (over s (codes "mem") _ _ _ (over s (codes "file") _ r _ refl))))

    -- For any registry in which a registration replaces the one for the same scheme and leaves the
    -- others, and which is empty at first: for a URI with a scheme in lower case, the driver that
    -- `with_defaults` has under the scheme does what `open_bytes` does, and where it has none,
    -- `open_bytes` gives the `Unsupported` error.
    pub with_defaults-open_bytes :
        (uri_str : Bytes)
        → IsLower (split uri_str).0
        → open_bytes fs table (suc n) uri_str
          ≡ dispatch (registry.lookup (split uri_str).0 (with_defaults fs table n registry)) uri_str
    unfolding with_defaults open_bytes chosen Same
    with_defaults-open_bytes uri_str low =
        chosen-found (split uri_str).0 uri_str low
        ∙ ap (λ o. dispatch o uri_str)
            (ap (λ x. found x (split uri_str).0) (sym (law.empty (split uri_str).0))
              ∙ sym (lookup-register (split uri_str).0 registry.new))

    -- For any registry in which a registration replaces the one for the same scheme and leaves the
    -- others, to `register` a second time changes no lookup.
    register-register :
        (s : Bytes) (r : R)
        → registry.lookup s (register fs table n registry (register fs table n registry r))
          ≡ registry.lookup s (register fs table n registry r)
    register-register s r =
        lookup-register s (register fs table n registry r)
        ∙ ap (λ x. found x s) (lookup-register s r)
        ∙ found_again (registry.lookup s r) s
        ∙ sym (lookup-register s r)
