-- ===== src/Examples/Scopes.antt =====
-- The theorems on scopes, at a file system in which every path is canonical.
use oxideav_source.Prelude.{
  ◌≡◌, ◌↔◌, refl, true, false, ◌&&◌, ◌||◌, not, [], ◌∷◌, Bytes, codes, none, Result, ok, IoError,
}
use oxideav_source.Mem.{MemReader}
use oxideav_source.Mem
use oxideav_source.Open.{FileSystem}
use oxideav_source.Scope.{
  components, under_root, FileScope, allow_dir, deny_dir, is_denied, is_allowed_path, resolve,
  open_file_scoped, register_into,
}
use oxideav_source.Scope.Verdict.{
  Admits, is_allowed_path_iff, is_allowed_path-deny_dir, is_allowed_path-allow_dir,
}
use oxideav_source.Scope.Resolve.{
  Resolution, resolve-Resolution, OpenedInside, open_file_scoped-register_into,
}

abbrev same_path : Bytes → Result IoError Bytes
same_path p = ok p

abbrev files : FileSystem MemReader
files = record { open_at = λ path. ok (Mem.new path); device = Mem.source }

abbrev media : FileScope
media = record {
  roots = record { path = codes "/media"; pinned = true } ∷ [];
  denies = [];
  permissive = false;
}

is_allowed_path_iff_example :
    (is_allowed_path same_path media (codes "/media/x") ≡ true)
    ↔ Admits same_path media (codes "/media/x")
is_allowed_path_iff_example = is_allowed_path_iff same_path media (codes "/media/x")

stays :
    (x y : Bytes)
    → components x ≡ components (codes "/media/private")
    → same_path x ≡ ok y
    → components y ≡ components (codes "/media/private")
stays x y e k = cc

is_allowed_path-deny_dir_example :
    is_allowed_path same_path
      (deny_dir same_path (codes "/media/private") media)
      (codes "/media/private/x")
    ≡ (is_allowed_path same_path media (codes "/media/private/x")
        && not (under_root (codes "/media/private") (codes "/media/private/x")))
is_allowed_path-deny_dir_example =
    is_allowed_path-deny_dir same_path same_path (codes "/media/private") (codes "/media/private")
      refl stays (codes "/media/private/x") media

is_allowed_path-allow_dir_example :
    is_allowed_path same_path
      (allow_dir same_path (codes "/media/private") media)
      (codes "/media/private/x")
    ≡ (is_allowed_path same_path media (codes "/media/private/x")
        || (not (is_denied same_path media (codes "/media/private/x"))
            && under_root (codes "/media/private") (codes "/media/private/x")))
is_allowed_path-allow_dir_example =
    is_allowed_path-allow_dir same_path same_path (codes "/media/private") (codes "/media/private")
      refl stays (codes "/media/private/x") media

resolve-Resolution_example :
    Resolution same_path media
      (codes "file:///media/a%20b")
      (resolve same_path media (codes "file:///media/a%20b"))
resolve-Resolution_example = resolve-Resolution same_path media (codes "file:///media/a%20b")

open_file_scoped-register_into_example :
    OpenedInside same_path files media (codes "file:///media/x") (Mem.new (codes "/media/x"))
unfolding open_file_scoped register_into oxideav_source.Uri.split oxideav_source.Uri.has_file_scheme
    oxideav_source.Uri.percent_decode_path
open_file_scoped-register_into_example =
    open_file_scoped-register_into same_path files media (codes "file:///media/x")
      (Mem.new (codes "/media/x")) none refl
