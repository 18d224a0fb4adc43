-- ===== src/Fuzz/Composing.antt =====
-- fuzz/fuzz_targets/compose_open.rs: every step keeps that the URI opens to its model.
use oxideav_source.Prelude.{
  ℕ, zero, suc, ◌+◌, ◌-◌, ◌*◌, ◌%◌, ◌<◌, ◌≡◌, Bool, false, arith, u64_mod, length, contains,
  if-cases, leb, ◌==◌, if◌then◌else◌,
}
use oxideav_source.Mem.{Table}
use oxideav_source.Open.{FileSystem}
use oxideav_source.Source.{return}
use oxideav_source.Base64.Groups.{IsByte}
use oxideav_source.Fuzz.Compose.{
  Composition, Draw, u8, below, joined, data_leaf, window_step, concat_step, probe, probe_step,
  compose_step, compose, build,
}
use oxideav_source.Fuzz.Draws.{
  Draws, return-Draws, >>=-Draws, if-Draws, assert-Draws, Draws-grow, u8-Draws, below-Draws,
}
use oxideav_source.Fuzz.Leaves.{IsLeaf, data_leaf-Draws}
use oxideav_source.Fuzz.Opening.{slice_rejected}
use oxideav_source.Fuzz.Composed.{
  IsComposed, leaf-IsPart, part-IsComposed, composed-IsPart, IsComposed-grow, window-IsComposed,
  joined-IsComposed,
}

module _ {F : Type 0} (fs : FileSystem F) (table : Table) where
  window_step-Draws :
      (m : ℕ) (c : Composition)
      → m + 1 < u64_mod
      → IsComposed fs table m c
      → Draws (IsComposed fs table m) (window_step fs table c)
  unfolding window_step
  window_step-Draws m c fits h =
      let len = length c.model in
      >>=-Draws _ _ (below (len + 1)) _ (below-Draws (len + 1) (omega arith)) (λ off lt.
        >>=-Draws _ _ (below (len - off + 1)) _ (below-Draws (len - off + 1) (omega arith))
          (λ l le. return-Draws _ _ (window-IsComposed fs table m off l c fits (omega arith) h)))

  concat_step-Draws :
      (m : ℕ) (c : Composition)
      → m + 512 < u64_mod
      → IsComposed fs table m c
      → Draws (IsComposed fs table (m + 512)) (concat_step fs table c)
  unfolding concat_step
  concat_step-Draws m c fits h =
      if-Draws _ (contains b'|' c.uri) _ _
        (λ bar. return-Draws _ c (IsComposed-grow fs table m (m + 512) c (omega arith) h))
        (λ bar. >>=-Draws _ _ (data_leaf 512) _ (data_leaf-Draws 512) (λ leaf k.
          >>=-Draws _ _ u8 _ u8-Draws
            (λ side _. return-Draws _ _ (placed bar leaf k (side % 2 == 0)))))
    where
      placed :
          contains b'|' c.uri ≡ false
          → (leaf : Composition) → IsLeaf 512 leaf
          → (b : Bool) → IsComposed fs table (m + 512) (if b then joined c leaf else joined leaf c)
      placed bar leaf k b =
          let part = composed-IsPart fs table m c bar h in
          let other = leaf-IsPart fs table 512 leaf (omega arith) k in
          if-cases (IsComposed fs table (m + 512)) b
            (λ _. joined-IsComposed fs table m 512 c leaf fits h.short k.short part other)
            (λ _.
              IsComposed-grow fs table (512 + m) (m + 512) (joined leaf c) (omega arith)
                (joined-IsComposed fs table 512 m leaf c (omega arith) k.short h.short other part))

  probe-Draws :
      (m x : ℕ) (c : Composition)
      → m + 512 < u64_mod
      → IsByte x
      → IsComposed fs table m c
      → Draws (IsComposed fs table m) (probe fs table c x)
  unfolding probe
  probe-Draws m x c fits lt h =
      assert-Draws _ _ _ (return c)
        (slice_rejected fs table (length c.model + 1 + x) 1 c.uri c.model h.opens
          (omega (arith, h.short)) (omega arith) h.given (omega arith))
        (return-Draws _ c h)

  probe_step-Draws :
      (m : ℕ) (c : Composition)
      → m + 512 < u64_mod
      → IsComposed fs table m c
      → Draws (IsComposed fs table m) (probe_step fs table c)
  unfolding probe_step
  probe_step-Draws m c fits h = >>=-Draws _ _ u8 _ u8-Draws (λ x lt. probe-Draws m x c fits lt h)

  compose_step-Draws :
      (m : ℕ) (c : Composition)
      → m + 512 < u64_mod
      → IsComposed fs table m c
      → Draws (IsComposed fs table (m + 512)) (compose_step fs table c)
  unfolding compose_step
  compose_step-Draws m c fits h = >>=-Draws _ _ u8 _ u8-Draws (λ x _.
      if-Draws _ (leb (x % 4) 1) _ _ (λ _. grown c m _ (window_step-Draws m c (omega arith) h))
        (λ _.
          if-Draws _ (x % 4 == 2) _ _ (λ _. concat_step-Draws m c fits h)
            (λ _. grown c m _ (probe_step-Draws m c fits h))))
    where
      grown :
          (c : Composition) (m : ℕ) (d : Draw Composition)
          → Draws (IsComposed fs table m) d
          → Draws (IsComposed fs table (m + 512)) d
      grown c m d k =
          Draws-grow (IsComposed fs table m) (IsComposed fs table (m + 512)) d
            (λ a. IsComposed-grow fs table m (m + 512) a (omega arith)) k

  compose-Draws :
      (steps m : ℕ) (c : Composition)
      → m + steps * 512 < u64_mod
      → IsComposed fs table m c
      → Draws (IsComposed fs table (m + steps * 512)) (compose fs table steps c)
  unfolding compose
  compose-Draws zero m c fits h =
      return-Draws _ c (IsComposed-grow fs table m (m + 0 * 512) c (omega arith) h)
  compose-Draws (suc steps) m c fits h =
      >>=-Draws _ _ (compose_step fs table c) _ (compose_step-Draws m c (omega arith) h) (λ c' h'.
        Draws-grow (IsComposed fs table (m + 512 + steps * 512))
          (IsComposed fs table (m + suc steps * 512)) _
          (λ a. IsComposed-grow fs table _ _ a (omega arith))
          (compose-Draws steps (m + 512) c' (omega arith) h'))

  -- From every script of bytes, `build` gives without a panic a URI that, with more levels than it
  -- has bytes, opens to a reader of the model at its start, whatever files and buffers there are;
  -- the model has at most 4096 bytes, the URI is not empty and does not begin with `//`, and is no
  -- `concat:` unless it has a `|`; and the script keeps its bytes and its place does not go back.
  pub build-Draws : Draws (IsComposed fs table 4096) (build fs table)
  unfolding build
  build-Draws = >>=-Draws _ _ (data_leaf 1024) _ (data_leaf-Draws 1024) (λ leaf k.
      >>=-Draws _ _ u8 _ u8-Draws (λ x _.
        Draws-grow (IsComposed fs table (1024 + x % 7 * 512)) (IsComposed fs table 4096) _
          (λ a. IsComposed-grow fs table _ _ a (omega arith))
          (compose-Draws (x % 7) 1024 leaf (omega arith) (
            part-IsComposed fs table 1024 leaf k.short
              (leaf-IsPart fs table 1024 leaf (omega arith) k)))))
