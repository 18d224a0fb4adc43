-- ===== src/Scope/Covers.antt =====
-- src/scope.rs, `under_root`: a prefix of components.
use oxideav_source.Prelude.{
  true, List, [], ◌∷◌, ◌++◌, Bytes, eq_bytes_sound, eq_bytes_refl, ◌≡◌, ◌↔◌, refl, ap, arith,
}
use oxideav_source.Scope.{
  Component, root_dir, cur_dir, parent_dir, normal, eq_component, eq_components, components, under,
  under_root,
}

pub eq_component_sound : (a b : Component) → eq_component a b ≡ true → a ≡ b
unfolding eq_component
eq_component_sound root_dir root_dir h = refl
eq_component_sound root_dir cur_dir h = cc
eq_component_sound root_dir parent_dir h = cc
eq_component_sound root_dir (normal b) h = cc
eq_component_sound cur_dir root_dir h = cc
eq_component_sound cur_dir cur_dir h = refl
eq_component_sound cur_dir parent_dir h = cc
eq_component_sound cur_dir (normal b) h = cc
eq_component_sound parent_dir root_dir h = cc
eq_component_sound parent_dir cur_dir h = cc
eq_component_sound parent_dir parent_dir h = refl
eq_component_sound parent_dir (normal b) h = cc
eq_component_sound (normal a) root_dir h = cc
eq_component_sound (normal a) cur_dir h = cc
eq_component_sound (normal a) parent_dir h = cc
eq_component_sound (normal a) (normal b) h = ap normal (eq_bytes_sound a b h)

pub eq_component_refl : (a : Component) → eq_component a a ≡ true
unfolding eq_component
eq_component_refl root_dir = refl
eq_component_refl cur_dir = refl
eq_component_refl parent_dir = refl
eq_component_refl (normal a) = eq_bytes_refl a

pub eq_components_sound : (r c : List Component) → eq_components r c ≡ true → r ≡ c
unfolding eq_components
eq_components_sound [] [] h = refl
eq_components_sound [] (b ∷ c) h = cc
eq_components_sound (a ∷ r) [] h = cc
eq_components_sound (a ∷ r) (b ∷ c) h =
    ground (arith, eq_component_sound a b, eq_components_sound r c)

-- `c` begins with `r`.
abbrev pub IsPrefix : List Component → List Component → Type 0
IsPrefix r c = (rest : List Component) × (c ≡ r ++ rest)

under_sound : (r c : List Component) → under r c ≡ true → IsPrefix r c
unfolding under
under_sound [] c h = (c, refl)
under_sound (a ∷ r) [] h = cc
under_sound (a ∷ r) (b ∷ c) h =
    let same : a ≡ b = ground (arith, eq_component_sound a b) in
    let (rest, e) = under_sound r c (ground arith) in (rest, cc)

under_complete : (r rest : List Component) → under r (r ++ rest) ≡ true
unfolding under
under_complete [] rest = refl
under_complete (a ∷ r) rest = rw (eq_component_refl a) (under_complete r rest)

-- A path is under a root if and only if the path's components begin with all of the root's.
pub under_root_iff :
    (root child : Bytes)
    → (under_root root child ≡ true) ↔ IsPrefix (components root) (components child)
unfolding under_root
under_root_iff root child = (
  λ h. under_sound (components root) (components child) h,
  λ (rest, e). rw e (under_complete (components root) rest),
)
