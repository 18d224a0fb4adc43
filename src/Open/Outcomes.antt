-- ===== src/Open/Outcomes.antt =====
-- src/lib.rs, `open_bytes`: every URI opens to what it stands for, or fails for a reason.
use oxideav_source.Prelude.{
  if-cases, ℕ, zero, suc, ◌≤◌, ◌<◌, ◌≡◌, inl, inr, true, false, List, [], ◌∷◌, arith, Bytes, codes,
  u64_mod, length, take, drop, All, some, Bool-cases, Result, ok, err, ◌>>=◌, Result-cases, Error,
  IoError,
}
use oxideav_source.Uri.{split, scheme_is}
use oxideav_source.Slice
use oxideav_source.Concat
use oxideav_source.Source.{IsSource}
use oxideav_source.Mem.{Table, get}
use oxideav_source.Sub
use oxideav_source.Sub.Make.{Made, made, rejected, lost_device, SubSource-new-Made}
use oxideav_source.ConcatReader
use oxideav_source.ConcatReader.Segments.{flat, Serving}
use oxideav_source.ConcatReader.Make.{ConcatSource-new-Made}
use oxideav_source.Open.{
  FileSystem, sub, concat, Dyn, dyn_source, open_slice, open_slice_uri, open_inner, open_segment,
  open_segments, open_concat, open_concat_uri, open_bytes,
}
use oxideav_source.Open.Leaves.{Outcome, opened, failed, file_case, mem_case, data_case}
use oxideav_source.Open.Boxes.{level, ServesDyn}
use oxideav_source.Open.Lengths.{length-inner, length-segments}
use oxideav_source.Open.Contents.{
  HasScheme, Content, of_slice, of_concat, Contents, no_more, one_more, unknown, bad_slice,
  inner_fails, outside, bad_concat, segment_fails, too_long, device, SomeFails, nested, this, later,
}

module _ {F : Type 0} (fs : FileSystem F) (table : Table) (ServesF : F → Bytes → ℕ → Type 0)
    (Raises : IoError → Type 0) (law : IsSource fs.device ServesF Raises)
    (fresh : (path : Bytes) (f : F) → fs.open_at path ≡ ok f → (c : Bytes) × ServesF f c 0)
    (small : (id b : Bytes) → get id table ≡ some b → length b < u64_mod) where
  -- The readers of some segments.
  data Collected (n : ℕ) (us : List Bytes) : Result Error (List (Dyn fs n)) → Type 0 where
    collected :
        (ss : List (Dyn fs n)) (cs : List Bytes)
        → Contents fs table ServesF Raises us cs
        → Serving (ServesDyn fs ServesF Raises law n) ss cs
        → Collected n us (ok ss)
    missed : (e : Error) → SomeFails fs table ServesF Raises us e → Collected n us (err e)

  module _ (n : ℕ) (u : Bytes) (fits : length u < u64_mod) where
    windowed :
        (x : Slice.SliceUri) (c : Bytes)
        → HasScheme u (codes "slice")
        → Slice.parse u ≡ ok x
        → Content fs table ServesF Raises x.inner c
        → (out : Result Error (Sub.SubSource (Dyn fs n)))
        → Made
            (dyn_source fs n)
            (ServesDyn fs ServesF Raises law n)
            Raises
            (level fs ServesF Raises law n).1
            c
            x.offset
            x.length
            out
        → Outcome fs table ServesF Raises law (suc n) u (out >>= λ w. ok (sub w))
    unfolding level
    windowed x c h₀ e k _ (made w inside h) =
        opened (sub w) (take x.length (drop x.offset c)) (of_slice x h₀ e k inside) h
    windowed x c h₀ e k _ (rejected y past) = failed y (outside x h₀ e k past)
    windowed x c h₀ e k _ (lost_device y i r) = failed y (device i r)

    sliced :
        (x : Slice.SliceUri)
        → HasScheme u (codes "slice")
        → Slice.parse u ≡ ok x
        → (out : Result Error (Dyn fs n)) → Outcome fs table ServesF Raises law n x.inner out
        → Outcome fs table ServesF Raises law
            (suc n)
            u
            ((out >>= λ i. Sub.new (dyn_source fs n) i x.offset x.length) >>= λ w. ok (sub w))
    sliced x h₀ e _ (failed y k) = failed y (inner_fails x h₀ e k)
    sliced x h₀ e _ (opened s c k h) =
        windowed x c h₀ e k (Sub.new (dyn_source fs n) s x.offset x.length) (
          SubSource-new-Made (dyn_source fs n) (ServesDyn fs ServesF Raises law n) Raises
            (level fs ServesF Raises law n).1 c x.offset x.length s 0 (omega arith) h)

    composed :
        (x : Concat.ConcatUri) (cs : List Bytes)
        → HasScheme u (codes "concat")
        → Concat.parse u ≡ ok x
        → Contents fs table ServesF Raises x.segments cs
        → (out : Result Error (ConcatReader.ConcatSource (Dyn fs n)))
        → ConcatReader.Make.Made
            (dyn_source fs n)
            (ServesDyn fs ServesF Raises law n)
            Raises
            (level fs ServesF Raises law n).1
            cs
            out
        → Outcome fs table ServesF Raises law (suc n) u (out >>= λ w. ok (concat w))
    unfolding level
    composed x cs h₀ e k _ (ConcatReader.Make.made w h) =
        opened (concat w) (flat cs) (of_concat x cs h₀ e k) h
    composed x cs h₀ e k _ (ConcatReader.Make.rejected over) = failed _ (too_long x cs h₀ e k over)
    composed x cs h₀ e k _ (ConcatReader.Make.lost_device i r) = failed _ (device i r)

    joined :
        (x : Concat.ConcatUri)
        → HasScheme u (codes "concat")
        → Concat.parse u ≡ ok x
        → (out : Result Error (List (Dyn fs n))) → Collected n x.segments out
        → Outcome fs table ServesF Raises law
            (suc n)
            u
            ((out >>= λ parts. ConcatReader.new (dyn_source fs n) parts) >>= λ w. ok (concat w))
    joined x h₀ e _ (missed y k) = failed y (segment_fails x h₀ e k)
    joined x h₀ e _ (collected ss cs k h) =
        composed x cs h₀ e k (ConcatReader.new (dyn_source fs n) ss) (
          ConcatSource-new-Made (dyn_source fs n) (ServesDyn fs ServesF Raises law n) Raises
            (level fs ServesF Raises law n).1 ss cs h)

  behind :
      (n : ℕ) (u : Bytes) (us : List Bytes) (s : Dyn fs n) (c : Bytes)
      → scheme_is (split u).0 (codes "concat") ≡ false
      → Content fs table ServesF Raises u c
      → ServesDyn fs ServesF Raises law n s c 0
      → (rest : Result Error (List (Dyn fs n))) → Collected n us rest
      → Collected n (u ∷ us) (rest >>= λ parts. ok (s ∷ parts))
  behind n u us s c e k h _ (missed y m) = missed y (later e k m)
  behind n u us s c e k h _ (collected ss cs ks hs) =
      collected (s ∷ ss) (c ∷ cs) (one_more e k ks) ((0, h), hs)

  next_segment :
      (n : ℕ) (u : Bytes) (us : List Bytes)
      → scheme_is (split u).0 (codes "concat") ≡ false
      → (out : Result Error (Dyn fs n)) → Outcome fs table ServesF Raises law n u out
      → (rest : Result Error (List (Dyn fs n))) → Collected n us rest
      → Collected n (u ∷ us) (out >>= λ part. rest >>= λ parts. ok (part ∷ parts))
  next_segment n u us e _ (failed y k) rest m = missed y (this k)
  next_segment n u us e _ (opened s c k h) rest m = behind n u us s c e k h rest m

  collect :
      (n : ℕ) (us : List Bytes)
      → ((u : Bytes)
          → length u < n
          → Outcome fs table ServesF Raises law n u (open_bytes fs table n u))
      → All (λ u. length u < n) us
      → Collected n us (open_segments (dyn_source fs n) (open_bytes fs table n) us)
  unfolding open_segments open_segment
  collect n [] each short = collected [] [] no_more tt
  collect n (u ∷ us) each (first, rest) =
      elim (Bool-cases (scheme_is (split u).0 (codes "concat"))) [
        | inl e ↦ rw e (missed _ (nested _ e))
        | inr e ↦ rw e (
            next_segment n u us e (open_bytes fs table n u) (each u first)
              (open_segments (dyn_source fs n) (open_bytes fs table n) us) (collect n us each rest))
      ]

  module _ (n : ℕ) (u : Bytes) (fits : length u < u64_mod) where
    module _
        (each : (v : Bytes)
          → length v < n
          → Outcome fs table ServesF Raises law n v (open_bytes fs table n v))
        (short : length u ≤ n) where
      slice_case :
          HasScheme u (codes "slice")
          → Outcome fs table ServesF Raises law
              (suc n)
              u
              (open_slice (dyn_source fs n) (open_bytes fs table n) u >>= λ r. ok (sub r))
      unfolding open_slice open_slice_uri open_inner
      slice_case h = elim (Result-cases (Slice.parse u)) [
        | inl (x, e) ↦ rw e (
            sliced n u fits x h e (open_bytes fs table n x.inner)
              (each x.inner (omega (arith, length-inner u x e))))
        | inr (y, e) ↦ rw e (failed y (bad_slice h e))
      ]

      concat_case :
          scheme_is (split u).0 (codes "concat") ≡ true
          → Outcome fs table ServesF Raises law
              (suc n)
              u
              (open_concat (dyn_source fs n) (open_bytes fs table n) u >>= λ r. ok (concat r))
      unfolding open_concat open_concat_uri
      concat_case h = elim (Result-cases (Concat.parse u)) [
        | inl (x, e) ↦ rw e (
            joined n u fits x h e
              (open_segments (dyn_source fs n) (open_bytes fs table n) x.segments)
              (collect n x.segments each (length-segments u x e h n short)))
        | inr (y, e) ↦ rw e (failed y (bad_concat h e))
      ]

  by_scheme :
      (n : ℕ) (u : Bytes)
      → length u ≤ n
      → length u < u64_mod
      → ((v : Bytes)
          → length v < n
          → Outcome fs table ServesF Raises law n v (open_bytes fs table n v))
      → Outcome fs table ServesF Raises law (suc n) u (open_bytes fs table (suc n) u)
  unfolding open_bytes
  by_scheme n u short fits each =
      let P = Outcome fs table ServesF Raises law (suc n) u in
      let scheme = (split u).0 in
      if-cases P (scheme_is scheme (codes "file"))
        (λ a. file_case fs table ServesF Raises law n u fresh a)
        (λ a.
          if-cases P (scheme_is scheme (codes "mem"))
            (λ b. mem_case fs table ServesF Raises law n u small b)
            (λ b.
              if-cases P (scheme_is scheme (codes "data"))
                (λ c. data_case fs table ServesF Raises law n u fits c)
                (λ c.
                  if-cases P (scheme_is scheme (codes "slice"))
                    (λ d. slice_case n u fits each short d)
                    (λ d.
                      if-cases P (scheme_is scheme (codes "concat"))
                        (λ e. concat_case n u fits each short e)
                        (λ e. failed _ (unknown _ a b c d e))))))

  -- Let files keep the promise of `BytesSource` and serve their content from its start once
  -- opened, and let every registered buffer be of less than 2 ^ 64 bytes. With more levels than
  -- the URI has bytes (and less than 2 ^ 64), `open_bytes` gives a reader that serves what the URI
  -- stands for from position 0 (a file, a buffer, a payload, a window of another URI's content, or
  -- several contents one behind the other), or an error for a reason: no driver for the scheme; of
  -- a `file` URI, that it names no path or that its path does not open; of a `mem` URI, that its
  -- id is empty or has a slash, or that no buffer has it; of a `data:`, `slice:` or `concat:` URI,
  -- that its parser refuses it; a URI inside that fails, a window outside the content, a nested
  -- `concat:`, a sum that does not fit in a `u64`, or a failing device.
  pub open_bytes-Outcome :
      (n : ℕ) (u : Bytes)
      → length u < n
      → n < u64_mod
      → Outcome fs table ServesF Raises law n u (open_bytes fs table n u)
  open_bytes-Outcome zero u short fits = absurd (omega arith)
  open_bytes-Outcome (suc n) u short fits =
      by_scheme n u (omega arith) (omega arith) (λ v k. open_bytes-Outcome n v k (omega arith))
