-- ===== src/Scope/Resolve.antt =====
-- src/scope.rs: `FileScope::resolve`, and what is opened under a scope.
use oxideav_source.Prelude.{
  true, false, Option, Bytes, codes, contains, ◌≡◌, inl, inr, arith, Bool-cases, Result, ok, err,
  ◌>>=◌, Result-cases, map_err, ◌↔◌, ErrorKind, io_error, Error, invalid, io, IoError, String,
}
use oxideav_source.Uri.{split, scheme_is}
use oxideav_source.Uri.Paths.{PathOf, path_of_iff, IsForeign, other-IsForeign, not-IsForeign}
use oxideav_source.Open.{FileSystem}
use oxideav_source.Scope.{
  FileScope, is_denied, is_allow_listed, is_allowed_path, decoded, did_not_canonicalise, resolve,
  open_uri, register_into, open_file_scoped,
}
use oxideav_source.Scope.Verdict.{Admits, is_allowed_path_iff}

module _ (canonicalize : Bytes → Result IoError Bytes) (scope : FileScope) (u : Bytes) where
  -- The branches of `resolve`, where a path is the one that the URI names.
  pub data Resolution : Result Error Bytes → Type 0 where
    not_file : (m : String) → IsForeign u → Resolution (err (invalid m))
    undecodable :
        (e : Error) → ¬ IsForeign u → ((path : Bytes) → ¬ PathOf u path) → Resolution (err e)
    nul :
        (m : String) (path : Bytes)
        → ¬ IsForeign u
        → PathOf u path
        → contains 0 path ≡ true
        → Resolution (err (invalid m))
    missing :
        (path : Bytes) (e : IoError)
        → ¬ IsForeign u
        → PathOf u path
        → contains 0 path ≡ false
        → canonicalize path ≡ err e
        → Resolution (err (did_not_canonicalise e))
    rejected :
        (m : String) (path c : Bytes)
        → ¬ IsForeign u
        → PathOf u path
        → contains 0 path ≡ false
        → canonicalize path ≡ ok c
        → ¬ Admits canonicalize scope c
        → Resolution (err (io (io_error ErrorKind.permission_denied m)))
    resolved :
        (path c : Bytes)
        → ¬ IsForeign u
        → PathOf u path
        → contains 0 path ≡ false
        → canonicalize path ≡ ok c
        → Admits canonicalize scope c
        → Resolution (ok c)

  named :
      scheme_is (split u).0 (codes "file") ≡ true
      → (path : Bytes) → (decoded u ≡ ok path) ↔ PathOf u path
  unfolding decoded
  named file_u path = path_of_iff u file_u path

  denied_lem : (c : Bytes) → is_denied canonicalize scope c ≡ true → ¬ Admits canonicalize scope c
  denied_lem c h a =
      let admitted : is_allowed_path canonicalize scope c ≡ true =
        (is_allowed_path_iff canonicalize scope c).1 a in
      unfold is_allowed_path in absurd (ground arith)

  unlisted_lem :
      (c : Bytes) → is_allow_listed canonicalize scope c ≡ false → ¬ Admits canonicalize scope c
  unlisted_lem c h a =
      let admitted : is_allowed_path canonicalize scope c ≡ true =
        (is_allowed_path_iff canonicalize scope c).1 a in
      unfold is_allowed_path in absurd (ground arith)

  admitted_lem :
      (c : Bytes)
      → is_denied canonicalize scope c ≡ false
      → is_allow_listed canonicalize scope c ≡ true
      → Admits canonicalize scope c
  admitted_lem c d l =
      (is_allowed_path_iff canonicalize scope c).0 (unfold is_allowed_path in ground arith)

  module _ (path c : Bytes) (file_u : scheme_is (split u).0 (codes "file") ≡ true)
      (d : decoded u ≡ ok path) (n : contains 0 path ≡ false) (k : canonicalize path ≡ ok c) where
    judged : Resolution (resolve canonicalize scope u)
    unfolding resolve
    judged =
        let home = not-IsForeign u file_u in
        let here = (named file_u path).0 d in
        elim (Bool-cases (is_denied canonicalize scope c)) [
          | inl no_go ↦
              rw (file_u, d, n, k, no_go) (rejected _ path c home here n k (denied_lem c no_go))
          | inr free ↦ elim (Bool-cases (is_allow_listed canonicalize scope c)) [
            | inl listed ↦
                rw (file_u, d, n, k, free, listed)
                  (resolved path c home here n k (admitted_lem c free listed))
            | inr unlisted ↦
                rw (file_u, d, n, k, free, unlisted)
                  (rejected _ path c home here n k (unlisted_lem c unlisted))
          ]
        ]

  nameless :
      (e : Error)
      → scheme_is (split u).0 (codes "file") ≡ true
      → decoded u ≡ err e
      → (path : Bytes) → ¬ PathOf u path
  nameless e file_u d path h = cc (d, (named file_u path).1 h)

  -- `resolve` by its branches, with the path that the URI names (behind an explicit `file:` and at
  -- most one `//`, the UTF-8 bytes that the percent-encoded rest stands for; otherwise the URI
  -- itself): a URI of another scheme, one that names no path because an escape does not decode or
  -- the bytes are not UTF-8, a path with a NUL byte (also an escaped one) and one that does not
  -- canonicalise are errors; a canonical path that the scope does not admit is refused with
  -- `PermissionDenied`; and one that it admits is returned.
  pub resolve-Resolution : Resolution (resolve canonicalize scope u)
  unfolding resolve
  resolve-Resolution = elim (Bool-cases (scheme_is (split u).0 (codes "file"))) [
    | inr other ↦ rw other (not_file _ (other-IsForeign u other))
    | inl file_u ↦
        let home = not-IsForeign u file_u in
        elim (Result-cases (decoded u)) [
          | inr (e, d) ↦ rw (file_u, d) (undecodable e home (nameless e file_u d))
          | inl (path, d) ↦
              let here = (named file_u path).0 d in
              elim (Bool-cases (contains 0 path)) [
                | inl n ↦ rw (file_u, d, n) (nul _ path home here n)
                | inr n ↦ elim (Result-cases (canonicalize path)) [
                  | inr (e, k) ↦ rw (file_u, d, n, k) (missing path e home here n k)
                  | inl (c, k) ↦ judged path c file_u d n k
                ]
              ]
        ]
  ]

-- What is opened under a scope: a file at a canonical path that the scope admits.
pub record OpenedInside {F : Type 0} (canonicalize : Bytes → Result IoError Bytes)
    (fs : FileSystem F) (scope : FileScope) (u : Bytes) (f : F) : Type 0 where
  pub path : Bytes
  pub canonical : Bytes
  pub names : PathOf u path
  pub no_nul : contains 0 path ≡ false
  pub canonicalised : canonicalize path ≡ ok canonical
  pub admitted : Admits canonicalize scope canonical
  pub opened : fs.open_at canonical ≡ ok f

from_Resolution :
    {F : Type 0} (canonicalize : Bytes → Result IoError Bytes) (fs : FileSystem F)
    (scope : FileScope) (u : Bytes) (f : F) (out : Result Error Bytes)
    → Resolution canonicalize scope u out
    → (out >>= λ c. map_err io (fs.open_at c)) ≡ ok f
    → OpenedInside canonicalize fs scope u f
from_Resolution canonicalize fs scope u f _ (not_file m _) h = cc
from_Resolution canonicalize fs scope u f _ (undecodable e _ _) h = cc
from_Resolution canonicalize fs scope u f _ (nul m path _ _ _) h = cc
from_Resolution canonicalize fs scope u f _ (missing path e _ _ _ _) h = cc
from_Resolution canonicalize fs scope u f _ (rejected m path c _ _ _ _ _) h = cc
from_Resolution canonicalize fs scope u f _ (resolved path c _ d n k a) h = record {
  path = path;
  canonical = c;
  names = d;
  no_nul = n;
  canonicalised = k;
  admitted = a;
  opened = elim (Result-cases (fs.open_at c)) [ inl (g, e) ↦ cc | inr (x, e) ↦ cc ];
}

-- Once a scope is registered, whatever was in the slot before, a successful open by the `file`
-- driver is one of a URI that names a NUL-free path whose canonical form that scope admits, and
-- opens that canonical form.
pub open_file_scoped-register_into :
    {F : Type 0} (canonicalize : Bytes → Result IoError Bytes) (fs : FileSystem F)
    (scope : FileScope) (u : Bytes) (f : F) (slot : Option FileScope)
    → open_file_scoped canonicalize fs (register_into scope slot) u ≡ ok f
    → OpenedInside canonicalize fs scope u f
unfolding open_file_scoped register_into open_uri
open_file_scoped-register_into canonicalize fs scope u f slot h =
    from_Resolution canonicalize fs scope u f (resolve canonicalize scope u)
      (resolve-Resolution canonicalize scope u) h
