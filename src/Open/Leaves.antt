-- ===== src/Open/Leaves.antt =====
-- src/lib.rs, `open_bytes`: what opens without another URI inside (a file, a buffer, a payload), and
-- why one does not.
use oxideav_source.Prelude.{
  ℕ, suc, ◌<◌, ◌≡◌, ◌≢◌, ◌↔◌, refl, inl, inr, true, false, [], ◌∷◌, arith, Bytes, codes, u64_mod,
  length, some, Bool-cases, Option-cases, is_empty, contains, Result, ok, err, ◌>>=◌, Result-cases,
  Error, IoError,
}
use oxideav_source.Uri.{split}
use oxideav_source.Uri.Paths.{PathOf, path_of_iff}
use oxideav_source.Data
use oxideav_source.Data.Sizes.{length-payload}
use oxideav_source.Source.{IsSource}
use oxideav_source.Mem.{Table, get, open_mem}
use oxideav_source.Mem
use oxideav_source.Mem.Reader.{new-Serves}
use oxideav_source.Open.{
  FileSystem, file, mem, cursor, Dyn, file_path, open_file, open_data, open_data_uri,
}
use oxideav_source.Open.Boxes.{level, ServesDyn}
use oxideav_source.Open.Contents.{
  HasScheme, IsId, Content, of_file, of_mem, of_data, Fails, no_path, no_file, bad_id, no_buffer,
  bad_data,
}

module _ {F : Type 0} (fs : FileSystem F) (table : Table) (ServesF : F → Bytes → ℕ → Type 0)
    (Raises : IoError → Type 0) (law : IsSource fs.device ServesF Raises) where
  -- A reader of what the URI stands for, at its start; or an error, for a reason.
  pub data Outcome (n : ℕ) (u : Bytes) : Result Error (Dyn fs n) → Type 0 where
    opened :
        (s : Dyn fs n) (c : Bytes)
        → Content fs table ServesF Raises u c
        → ServesDyn fs ServesF Raises law n s c 0
        → Outcome n u (ok s)
    failed : (e : Error) → Fails fs table ServesF Raises u e → Outcome n u (err e)

  module _ (n : ℕ) (u : Bytes) where
    names : HasScheme u (codes "file") → (path : Bytes) → (file_path u ≡ ok path) ↔ PathOf u path
    unfolding file_path
    names h path = path_of_iff u h path

    pub file_case :
        ((path : Bytes) (f : F) → fs.open_at path ≡ ok f → (c : Bytes) × ServesF f c 0)
        → HasScheme u (codes "file")
        → Outcome (suc n) u (open_file fs u >>= λ r. ok (file r))
    unfolding level open_file
    file_case fresh h = elim (Result-cases (file_path u)) [
      | inr (e, k) ↦ rw (h, k) (failed e (no_path h (λ path p. cc (k, (names h path).1 p))))
      | inl (path, k) ↦ elim (Result-cases (fs.open_at path)) [
        | inr (x, e) ↦ rw (h, k, e) (failed _ (no_file x h ((names h path).0 k) e))
        | inl (f, e) ↦
            let (c, serves) = fresh path f e in
            rw (h, k, e) (opened (file f) c (of_file f h ((names h path).0 k) e serves) serves)
      ]
    ]

    buffer_case :
        ((id b : Bytes) → get id table ≡ some b → length b < u64_mod)
        → HasScheme u (codes "mem")
        → is_empty (split u).1 ≡ false
        → contains b'/' (split u).1 ≡ false
        → Outcome (suc n) u (open_mem table u >>= λ r. ok (mem r))
    unfolding level open_mem
    buffer_case small h full flat =
        let id : IsId (split u).1 = record { not_empty = λ e. cc (full, e); no_slash = flat } in
        elim (Option-cases (get (split u).1 table)) [
          | inl e ↦ rw (h, full, flat, e) (failed _ (no_buffer h id e))
          | inr (b, e) ↦
              rw (h, full, flat, e)
                (opened (mem (Mem.new b)) b (of_mem h id e) (new-Serves b (small (split u).1 b e)))
        ]

    pub mem_case :
        ((id b : Bytes) → get id table ≡ some b → length b < u64_mod)
        → HasScheme u (codes "mem")
        → Outcome (suc n) u (open_mem table u >>= λ r. ok (mem r))
    unfolding open_mem
    mem_case small h = elim (Bool-cases (is_empty (split u).1)) [
      | inl e ↦
          rw (h, e)
            (failed _ (bad_id h (λ (id : IsId (split u).1). empty_lem (split u).1 e id.not_empty)))
      | inr full ↦ elim (Bool-cases (contains b'/' (split u).1)) [
        | inl e ↦
            rw (h, full, e) (failed _ (bad_id h (λ (id : IsId (split u).1). cc (e, id.no_slash))))
        | inr flat ↦ buffer_case small h full flat
      ]
    ]
      where
        empty_lem : (s : Bytes) → is_empty s ≡ true → ¬ (s ≢ [])
        empty_lem [] e h = h refl
        empty_lem (b ∷ s) e h = cc

    pub data_case :
        length u < u64_mod
        → HasScheme u (codes "data")
        → Outcome (suc n) u (open_data u >>= λ r. ok (cursor r))
    unfolding level open_data open_data_uri
    data_case fits h = elim (Result-cases (Data.parse u)) [
      | inl (d, e) ↦ rw e (
          opened (cursor (Mem.new d.payload)) d.payload (of_data d h e)
            (new-Serves d.payload (omega (arith, length-payload u d e))))
      | inr (y, e) ↦ rw e (failed y (bad_data h e))
    ]
