-- ===== src/Fuzz/Composed.antt =====
-- fuzz/fuzz_targets/compose_open.rs: windows and joins of URIs that open to their models.
use oxideav_source.Prelude.{
  ℕ, ◌+◌, ◌≤◌, ◌<◌, ◌≡◌, refl, ◌∙◌, ap, false, ◌∷◌, ◌++◌, arith, Bytes, codes, u64_mod, length,
  length-append, length-take, length-drop, take, drop, contains, contains-append, starts_with,
  is_empty,
}
use oxideav_source.Uri.{split, scheme_is}
use oxideav_source.Uri.Split.{split-scheme}
use oxideav_source.Mem.{Table}
use oxideav_source.Open.{FileSystem}
use oxideav_source.Fuzz.Compose.{Composition, slice_text, joined}
use oxideav_source.Fuzz.Leaves.{IsLeaf}
use oxideav_source.Fuzz.Opening.{Opens, data-Opens, slice-Opens, slice_scheme}
use oxideav_source.Fuzz.Joining.{IsPart, joined-Opens}

module _ {F : Type 0} (fs : FileSystem F) (table : Table) where
  -- A URI that opens to the model, can be a segment unless it has a `|`, and is not too long.
  pub record IsComposed (max_len : ℕ) (c : Composition) : Type 0 where
    pub given : is_empty c.uri ≡ false
    pub no_slashes : starts_with (codes "//") c.uri ≡ false
    pub no_concat : contains b'|' c.uri ≡ false → scheme_is (split c.uri).0 (codes "concat") ≡ false
    pub opens : Opens fs table c.uri c.model
    pub short : length c.model ≤ max_len

  leaf_scheme : (m : ℕ) (c : Composition) → IsLeaf m c → (split c.uri).0 ≡ codes "data"
  leaf_scheme m c h =
      ap (λ u. (split u).0) h.behind
      ∙ ap (λ (p : Bytes × Bytes). p.0) (split-scheme (codes "data") h.text refl refl)

  pub leaf-IsPart : (m : ℕ) (c : Composition) → m < u64_mod → IsLeaf m c → IsPart fs table c
  leaf-IsPart m c fits h = record {
    given = rw h.behind;
    no_slashes = rw h.behind (unfold starts_with in refl);
    no_bar = rw (h.behind, h.no_bar);
    no_concat = rw (leaf_scheme m c h);
    opens =
        data-Opens fs table c.uri c.model h.parsed.0 (leaf_scheme m c h) h.parsed.1
          (omega (arith, h.short));
  }

  pub part-IsComposed :
      (m : ℕ) (c : Composition) → length c.model ≤ m → IsPart fs table c → IsComposed m c
  part-IsComposed m c h p = record {
    given = p.given;
    no_slashes = p.no_slashes;
    no_concat = λ _. p.no_concat;
    opens = p.opens;
    short = h;
  }

  pub composed-IsPart :
      (m : ℕ) (c : Composition) → contains b'|' c.uri ≡ false → IsComposed m c → IsPart fs table c
  composed-IsPart m c bar h = record {
    given = h.given;
    no_slashes = h.no_slashes;
    no_bar = bar;
    no_concat = h.no_concat bar;
    opens = h.opens;
  }

  pub IsComposed-grow : (m k : ℕ) (c : Composition) → m ≤ k → IsComposed m c → IsComposed k c
  IsComposed-grow m k c le h = record {
    given = h.given;
    no_slashes = h.no_slashes;
    no_concat = h.no_concat;
    opens = h.opens;
    short = omega (arith, h.short);
  }

  pub window-IsComposed :
      (m off l : ℕ) (c : Composition)
      → m + 1 < u64_mod
      → off + l ≤ length c.model
      → IsComposed m c
      → IsComposed m (record { uri = slice_text off l c.uri; model = take l (drop off c.model) })
  window-IsComposed m off l c fits inside h =
      let small : length c.model < u64_mod = omega (arith, h.short) in
      record {
        given = unfold slice_text in refl;
        no_slashes = unfold slice_text starts_with in refl;
        no_concat = λ _.
            rw (
              slice_scheme fs table off l c.uri c.model h.opens (omega arith) (omega arith)
                h.given);
        opens =
            slice-Opens fs table off l c.uri c.model h.opens (omega arith) (omega arith) h.given
              inside;
        short = omega (arith, h.short, length-take l (drop off c.model), length-drop off c.model);
      }

  pub joined-IsComposed :
      (m k : ℕ) (a b : Composition)
      → m + k < u64_mod
      → length a.model ≤ m
      → length b.model ≤ k
      → IsPart fs table a
      → IsPart fs table b
      → IsComposed (m + k) (joined a b)
  joined-IsComposed m k a b fits la lb pa pb =
      let sum : length (a.model ++ b.model) ≤ m + k =
        omega (arith, length-append a.model b.model) in
      record {
        given = unfold joined in refl;
        no_slashes = unfold joined starts_with in refl;
        no_concat = λ bar. absurd (with_bar bar);
        opens = joined-Opens fs table a b pa pb (omega arith);
        short = unfold joined in sum;
      }
    where
      with_bar : contains b'|' (joined a b).uri ≡ false → ⊥
      with_bar bar =
          unfold joined in absurd (ground (arith, contains-append b'|' a.uri (b'|' ∷ b.uri)))
