-- ===== src/Scope/Verdict.antt =====
-- src/scope.rs: what a scope admits, and what adding a root changes.
use oxideav_source.Prelude.{
  Bool, true, false, ◌&&◌, ◌||◌, not, List, [], ◌∷◌, ◌++◌, Bytes, any, ◌≡◌, ◌↔◌, ◌⊎◌, inl, inr,
  refl, sym, subst, ap, ◌∙◌, arith, Bool-cases, Result, ok, err, IoError, Result-cases,
}
use mathlib.Core.List.{Memᴰ}
use oxideav_source.Scope.{
  components, eq_components, under, under_root, Root, FileScope, has_path, add_root, new_root,
  root_path, covers, allow_dir, deny_dir, is_allow_listed, is_denied, is_allowed_path,
}
use oxideav_source.Scope.Covers.{eq_components_sound, IsPrefix, under_root_iff}

module _ {A : Type 0} (f : A → Bool) where
  any-append : (xs ys : List A) → any f (xs ++ ys) ≡ (any f xs || any f ys)
  any-append [] ys = refl
  any-append (x ∷ xs) ys = ground (arith, any-append xs ys)

  any_found : (xs : List A) → any f xs ≡ true → (x : A) × Memᴰ x xs × (f x ≡ true)
  any_found [] h = cc
  any_found (x ∷ xs) h = elim (Bool-cases (f x)) [
    | inl e ↦ (x, Memᴰ.head refl, e)
    | inr e ↦ let (y, m, g) = any_found xs (ground arith) in (y, Memᴰ.tail m, g)
  ]

  any_finds : (xs : List A) (x : A) → Memᴰ x xs → f x ≡ true → any f xs ≡ true
  any_finds [] x m h = elim m [ ]
  any_finds (y ∷ xs) x (Memᴰ.head same) h = rw (sym same) (ground arith)
  any_finds (y ∷ xs) x (Memᴰ.tail m) h = ground (arith, any_finds xs x m h)

-- A root of the same path does what a new one would do.
module _ (f : Root → Bool) (r : Root)
    (same : (x : Root) → components x.path ≡ components r.path → f x ≡ f r) where
  any-present : (list : List Root) → has_path r.path list ≡ true → any f list ≡ (any f list || f r)
  unfolding has_path
  any-present [] h = cc
  any-present (x ∷ list) h =
      elim (Bool-cases (eq_components (components x.path) (components r.path))) [
        | inl e ↦
            rw (same x (eq_components_sound (components x.path) (components r.path) e))
              (ground arith)
        | inr e ↦
            let later : any f list ≡ (any f list || f r) = any-present list (ground arith) in
            ground arith
      ]

  any-add_root : (list : List Root) → any f (add_root r list) ≡ (any f list || f r)
  unfolding add_root
  any-add_root list = elim (Bool-cases (has_path r.path list)) [
    | inl e ↦ rw e (any-present list e)
    | inr e ↦ rw (e, any-append f list (r ∷ [])) (ground arith)
  ]

-- A canonical path stays canonical: a spelling of the same components that resolves, resolves to it.
abbrev pub StaysCanonical : (Bytes → Result IoError Bytes) → Bytes → Type 0
StaysCanonical later r =
    (x y : Bytes) → components x ≡ components r → later x ≡ ok y → components y ≡ components r

module _ (now later : Bytes → Result IoError Bytes) (dir r : Bytes) (known : now dir ≡ ok r)
    (stays : StaysCanonical later r) (c : Bytes) where
  pinned_root : new_root now dir ≡ record { path = r; pinned = true }
  unfolding new_root
  pinned_root = rw (known, new_root) refl

  root_path-components :
      (x : Root) → components x.path ≡ components r → components (root_path later x) ≡ components r
  unfolding root_path
  root_path-components x e = elim (Bool-cases x.pinned) [
    | inl p ↦ rw p e
    | inr p ↦ rw p (elim (Result-cases (later x.path)) [
      | inl (y, k) ↦ rw k (stays x.path y e k)
      | inr (_, k) ↦ rw k e
    ])
  ]

  covers-root : (x : Root) → components x.path ≡ components r → covers later c x ≡ under_root r c
  unfolding covers under_root
  covers-root x e = ap (λ l. under l (components c)) (root_path-components x e)

  covers_added :
      (list : List Root)
      → any (covers later c) (add_root (new_root now dir) list)
        ≡ (any (covers later c) list || under_root r c)
  covers_added list =
      let root : Root = record { path = r; pinned = true } in
      let here : covers later c root ≡ under_root r c = covers-root root refl in
      rw
        (
          pinned_root,
          any-add_root (covers later c) root (λ x e. covers-root x e ∙ sym here) list,
          here,
        )
        refl

  -- Denying a directory that has a canonical form takes away exactly the paths under that form,
  -- whatever the lists hold, at every later check at which spellings of the form still
  -- canonicalise to it, if they do at all.
  pub is_allowed_path-deny_dir :
      (scope : FileScope)
      → is_allowed_path later (deny_dir now dir scope) c
        ≡ (is_allowed_path later scope c && not (under_root r c))
  unfolding is_allowed_path is_denied is_allow_listed deny_dir
  is_allowed_path-deny_dir scope = ground (arith, covers_added scope.denies)

  -- Allowing a directory that has a canonical form adds exactly the paths under that form that no
  -- deny root covers, at every later check at which spellings of the form still canonicalise to
  -- it, if they do at all.
  pub is_allowed_path-allow_dir :
      (scope : FileScope)
      → is_allowed_path later (allow_dir now dir scope) c
        ≡ (is_allowed_path later scope c || (not (is_denied later scope c) && under_root r c))
  unfolding is_allowed_path is_denied is_allow_listed allow_dir
  is_allowed_path-allow_dir scope = ground (arith, covers_added scope.roots)

-- What a scope means: no deny root covers the path, and the scope is permissive or an allow root
-- covers it.
module _ (canonicalize : Bytes → Result IoError Bytes) where
  -- The path that a root stands for: a pinned one for the path that it holds, another one for the
  -- canonical form that its path has now, or for its spelling if it has none.
  pub data StandsFor (x : Root) : Bytes → Type 0 where
    stored : x.pinned ≡ true → StandsFor x x.path
    canonical : {r : Bytes} → x.pinned ≡ false → canonicalize x.path ≡ ok r → StandsFor x r
    spelled : (e : IoError) → x.pinned ≡ false → canonicalize x.path ≡ err e → StandsFor x x.path

  pub record Inside (c : Bytes) (x : Root) : Type 0 where
    pub root : Bytes
    pub stands_for : StandsFor x root
    pub is_prefix : IsPrefix (components root) (components c)

  root_path_lem : {x : Root} {r : Bytes} → StandsFor x r → root_path canonicalize x ≡ r
  unfolding root_path
  root_path_lem (stored p) = rw p refl
  root_path_lem (canonical p k) = rw (p, k) refl
  root_path_lem (spelled e p k) = rw (p, k) refl

  root_path-StandsFor : (x : Root) → StandsFor x (root_path canonicalize x)
  root_path-StandsFor x = elim (Bool-cases x.pinned) [
    | inl p ↦ known (stored p)
    | inr p ↦ elim (Result-cases (canonicalize x.path)) [
      | inl (r, k) ↦ known (canonical p k)
      | inr (e, k) ↦ known (spelled e p k)
    ]
  ]
    where
      known : {r : Bytes} → StandsFor x r → StandsFor x (root_path canonicalize x)
      known h = subst (StandsFor x) (sym (root_path_lem h)) h

  pub record Admits (scope : FileScope) (c : Bytes) : Type 0 where
    pub not_denied : (x : Root) → Memᴰ x scope.denies → ¬ Inside c x
    pub allowed : (scope.permissive ≡ true) ⊎ ((x : Root) × Memᴰ x scope.roots × Inside c x)

  covers_sound : (c : Bytes) (x : Root) → covers canonicalize c x ≡ true → Inside c x
  unfolding covers
  covers_sound c x h = record {
    root = root_path canonicalize x;
    stands_for = root_path-StandsFor x;
    is_prefix = (under_root_iff (root_path canonicalize x) c).0 h;
  }

  covers_complete : (c : Bytes) (x : Root) → Inside c x → covers canonicalize c x ≡ true
  unfolding covers
  covers_complete c x h = rw (root_path_lem h.stands_for) ((under_root_iff h.root c).1 h.is_prefix)

  allow_listed :
      (scope : FileScope) (c : Bytes)
      → is_allow_listed canonicalize scope c ≡ true
      → (scope.permissive ≡ true) ⊎ ((x : Root) × Memᴰ x scope.roots × Inside c x)
  unfolding is_allow_listed
  allow_listed scope c h = elim (Bool-cases scope.permissive) [
    | inl p ↦ inl p
    | inr p ↦
        let (x, m, k) = any_found (covers canonicalize c) scope.roots (ground arith) in
        inr (x, m, covers_sound c x k)
  ]

  Admits-sound :
      (scope : FileScope) (c : Bytes) → is_allowed_path canonicalize scope c ≡ true → Admits scope c
  unfolding is_allowed_path is_denied
  Admits-sound scope c h = record {
    not_denied = λ x m i.
        let denied : any (covers canonicalize c) scope.denies ≡ true =
          any_finds (covers canonicalize c) scope.denies x m (covers_complete c x i) in
        absurd (ground arith);
    allowed = allow_listed scope c (ground arith);
  }

  allowed_listed :
      (scope : FileScope) (c : Bytes)
      → (scope.permissive ≡ true) ⊎ ((x : Root) × Memᴰ x scope.roots × Inside c x)
      → is_allow_listed canonicalize scope c ≡ true
  unfolding is_allow_listed
  allowed_listed scope c (inl p) = rw p refl
  allowed_listed scope c (inr (x, m, i)) =
      ground (arith, any_finds (covers canonicalize c) scope.roots x m (covers_complete c x i))

  Admits-complete :
      (scope : FileScope) (c : Bytes) → Admits scope c → is_allowed_path canonicalize scope c ≡ true
  unfolding is_allowed_path is_denied
  Admits-complete scope c h = elim (Bool-cases (any (covers canonicalize c) scope.denies)) [
    | inl denied ↦
        let (x, m, k) = any_found (covers canonicalize c) scope.denies denied in
        absurd (h.not_denied x m (covers_sound c x k))
    | inr free ↦ rw (free, allowed_listed scope c h.allowed) refl
  ]

  -- A scope admits a path if and only if the path's components begin with those of no deny root
  -- and, unless the scope is permissive, with those of some allow root, where a pinned root stands
  -- for the path it holds, and another for its canonical form at the time of the check or, without
  -- one, for its spelling.
  pub is_allowed_path_iff :
      (scope : FileScope) (c : Bytes)
      → (is_allowed_path canonicalize scope c ≡ true) ↔ Admits scope c
  is_allowed_path_iff scope c = (Admits-sound scope c, Admits-complete scope c)
