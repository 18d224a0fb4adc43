-- ===== src/Scope.antt =====
-- src/scope.rs: the allow and deny lists of the `file://` driver. A path is its bytes, with the
-- `components` of the standard library on Unix; `std::fs::canonicalize` is a parameter, since what
-- it returns depends on the file system at the time of the call.
pub mod Covers
pub mod Verdict
pub mod Resolve
use oxideav_source.Prelude.{
  ℕ, zero, suc, Bool, true, false, ◌&&◌, ◌||◌, not, List, [], ◌∷◌, ◌++◌, Option, none, some, Bytes,
  codes, ◌==◌, if◌then◌else◌, any, is_empty, contains, eq_bytes, Result, ok, err, ◌>>=◌, ◌>>◌,
  reject_if, ok_or, map_err, Error, invalid, io, IoError, ErrorKind, io_error, String,
}
use oxideav_source.Uri.{split, scheme_is, has_file_scheme, percent_decode_path}
use oxideav_source.Concat.{split_all}
use oxideav_source.Open.{FileSystem}

-- `std::path::Component` on Unix.
pub data Component : Type 0 where
  root_dir cur_dir parent_dir : Component
  normal : Bytes → Component

unfoldable pub eq_component : Component → Component → Bool
unfolding eq_bytes
eq_component root_dir root_dir = true
eq_component cur_dir cur_dir = true
eq_component parent_dir parent_dir = true
eq_component (normal a) (normal b) = eq_bytes a b
eq_component _ _ = false

-- The components of the pieces between slashes: empty ones and `.` are passed over.
unfoldable pub piece : Bytes → List Component → List Component
unfolding eq_bytes
piece s rest =
    if is_empty s || eq_bytes s (codes ".")
    then rest
    else if eq_bytes s (codes "..")
    then parent_dir ∷ rest
    else normal s ∷ rest

unfoldable pub pieces : List Bytes → List Component
unfolding piece
pieces [] = []
pieces (s ∷ rest) = piece s (pieces rest)

-- A leading `.` is kept.
unfoldable pub relative : List Bytes → List Component
unfolding pieces eq_bytes
relative [] = []
relative (s ∷ rest) = if eq_bytes s (codes ".") then cur_dir ∷ pieces rest else pieces (s ∷ rest)

-- `Path::components`
unfoldable pub components : Bytes → List Component
unfolding pieces relative split_all
components [] = []
components (b ∷ s) =
    if b == b'/' then root_dir ∷ pieces (split_all b'/' s) else relative (split_all b'/' (b ∷ s))

-- The loop of `under_root`.
unfoldable pub under : List Component → List Component → Bool
unfolding eq_component
under [] c = true
under (a ∷ r) [] = false
under (a ∷ r) (b ∷ c) = eq_component a b && under r c

unfoldable pub under_root : Bytes → Bytes → Bool
unfolding under components
under_root root child = under (components root) (components child)

-- Paths are equal if their components are.
unfoldable pub eq_components : List Component → List Component → Bool
unfolding eq_component
eq_components [] [] = true
eq_components (a ∷ r) (b ∷ c) = eq_component a b && eq_components r c
eq_components _ _ = false

pub record Root : Type 0 where
  pub path : Bytes
  pub pinned : Bool

pub record FileScope : Type 0 where
  pub roots : List Root
  pub denies : List Root
  pub permissive : Bool

unfoldable pub new : FileScope
new = record { roots = []; denies = []; permissive = false }

unfoldable pub permissive : FileScope
permissive = record { roots = []; denies = []; permissive = true }

-- `roots.iter().any(|r| r.path == root.path)`
unfoldable pub has_path : Bytes → List Root → Bool
unfolding eq_components components
has_path path = any (λ r. eq_components (components r.path) (components path))

unfoldable pub add_root : Root → List Root → List Root
unfolding has_path
add_root root list = if has_path root.path list then list else list ++ (root ∷ [])

-- `canonicalize` is that of the file system at the time of the call.
module _ (canonicalize : Bytes → Result IoError Bytes) where
  -- `Root::new`
  unfoldable pub new_root : Bytes → Root
  new_root dir = elim (canonicalize dir) [
    | ok canon ↦ record { path = canon; pinned = true }
    | err _ ↦ record { path = dir; pinned = false }
  ]

  -- The path that a root stands for at a check.
  unfoldable pub root_path : Root → Bytes
  root_path root =
      if root.pinned
      then root.path
      else elim (canonicalize root.path) [ ok c ↦ c | err _ ↦ root.path ]

  unfoldable pub covers : Bytes → Root → Bool
  unfolding root_path under_root
  covers canon root = under_root (root_path root) canon

  unfoldable pub allow_dir : Bytes → FileScope → FileScope
  unfolding new_root add_root
  allow_dir dir scope = record scope { roots = add_root (new_root dir) scope.roots }

  unfoldable pub deny_dir : Bytes → FileScope → FileScope
  unfolding new_root add_root
  deny_dir dir scope = record scope { denies = add_root (new_root dir) scope.denies }

  unfoldable pub is_allow_listed : FileScope → Bytes → Bool
  unfolding covers
  is_allow_listed scope canon = scope.permissive || any (covers canon) scope.roots

  unfoldable pub is_denied : FileScope → Bytes → Bool
  unfolding covers
  is_denied scope canon = any (covers canon) scope.denies

  unfoldable pub is_allowed_path : FileScope → Bytes → Bool
  unfolding is_denied is_allow_listed
  is_allowed_path scope canon = not (is_denied scope canon) && is_allow_listed scope canon

-- The path of a URI, as in `open_file`.
unfoldable pub decoded : Bytes → Result Error Bytes
decoded uri_str =
    let rest = (split uri_str).1 in
    if has_file_scheme uri_str then percent_decode_path rest else ok rest

abbrev pub refused : String → Error
refused m = io (io_error ErrorKind.permission_denied m)

abbrev pub did_not_canonicalise : IoError → Error
did_not_canonicalise e = io (io_error e.kind "file did not canonicalise")

-- The process-global slot is a state; `register_into` fills it. (The registration is the
-- registry's part.)
abbrev pub Slot : Type 0
Slot = Option FileScope

unfoldable pub register_into : FileScope → Slot → Slot
register_into scope slot = some scope

module _ (canonicalize : Bytes → Result IoError Bytes) where
  unfoldable pub resolve : FileScope → Bytes → Result Error Bytes
  unfolding decoded is_denied is_allow_listed
  resolve scope uri_str = do
    reject_if (not (scheme_is (split uri_str).0 (codes "file")))
        (invalid "FileScope cannot resolve non-file URI")
    path ← decoded uri_str
    reject_if (contains 0 path) (invalid "file path contains NUL byte")
    canon ← map_err did_not_canonicalise (canonicalize path)
    reject_if (is_denied canonicalize scope canon)
        (refused "file is inside a FileScope deny-listed root")
    reject_if (not (is_allow_listed canonicalize scope canon))
        (refused "file is outside the FileScope allow-list")
    ok canon

  unfoldable pub open_uri : {F : Type 0} → FileSystem F → FileScope → Bytes → Result Error F
  unfolding resolve
  open_uri fs scope uri_str = do canon ← resolve scope uri_str; map_err io (fs.open_at canon)

  unfoldable pub open_file_scoped : {F : Type 0} → FileSystem F → Slot → Bytes → Result Error F
  unfolding open_uri
  open_file_scoped fs slot uri_str = do
    scope ← ok_or slot (invalid "file driver: no FileScope installed")
    open_uri fs scope uri_str
