-- ===== src/Mem/Reader.antt =====
-- src/mem.rs: a `MemReader` serves its buffer.
use oxideav_source.Prelude.{
  ℕ, ◌-◌, ◌<◌, min, ◌≡◌, refl, sym, subst, inl, inr, [], arith, Bytes, leb, ◌==◌, u64_mod, length,
  Bool-cases, Option-cases, ok, ok_or, ErrorKind, io_error,
}
use oxideav_source.Source.{
  pos, negsuc, SeekFrom, start, from_end, current, offset_by, target, Reads, got, Seeks, moved,
  refused, IsSource, Never,
}
use oxideav_source.Mem.{MemReader, new, add_signed, new_pos, seek_to, read, seek, source}

pub record Serves (r : MemReader) (c : Bytes) (p : ℕ) : Type 0 where
  pub content : r.buf ≡ c
  pub position : r.pos ≡ p
  pub fits : length c < u64_mod

pub new-Serves : (c : Bytes) → length c < u64_mod → Serves (new c) c 0
unfolding new
new-Serves c h = record { content = refl; position = refl; fits = h }

at_once :
    (r : MemReader) (n : ℕ)
    → length r.buf < u64_mod
    → (0 < n → r.pos < length r.buf → ⊥)
    → Reads Serves Never r.buf r.pos n (ok [], r)
at_once r n fits idle =
    got 0 r (omega arith) (omega arith) (λ a b. absurd (idle a b))
      (record { content = refl; position = omega arith; fits = fits })

read-Reads :
    (r : MemReader) (n : ℕ) → length r.buf < u64_mod → Reads Serves Never r.buf r.pos n (read n r)
unfolding read
read-Reads r n fits = elim (Bool-cases (n == 0)) [
  | inl e ↦ rw e (at_once r n fits (λ a b. ground arith))
  | inr e ↦ elim (Bool-cases (leb (length r.buf) r.pos)) [
    | inl past ↦ rw (e, past) (at_once r n fits (λ a b. ground arith))
    | inr inside ↦
        rw (e, inside)
          (got (min n (length r.buf - r.pos)) _ (omega arith) (omega arith) (λ a b. omega arith)
            (record { content = refl; position = ground arith; fits = fits }))
  ]
]

new_pos-target :
    (len p : ℕ) (from : SeekFrom)
    → new_pos len p from
      ≡ ok_or (target len p from) (
          io_error ErrorKind.invalid_input
            "mem:// reader: seek resolves to a negative or overflowing position")
unfolding new_pos target add_signed offset_by
new_pos-target len p (start n) = refl
new_pos-target len p (from_end (pos d)) = refl
new_pos-target len p (from_end (negsuc d)) = refl
new_pos-target len p (current (pos d)) = refl
new_pos-target len p (current (negsuc d)) = refl

seek-Seeks :
    (r : MemReader) (from : SeekFrom)
    → length r.buf < u64_mod
    → Seeks Serves Never r.buf r.pos from (seek from r)
unfolding seek
seek-Seeks r from fits = elim (Option-cases (target (length r.buf) r.pos from)) [
  | inl e ↦
      rw (new_pos-target (length r.buf) r.pos from, e, seek_to)
        (refused _ r e (record { content = refl; position = refl; fits = fits }))
  | inr (q, e) ↦
      rw (new_pos-target (length r.buf) r.pos from, e, seek_to)
        (moved q _ e (record { content = refl; position = refl; fits = fits }))
]

-- A reader of a buffer of less than 2 ^ 64 bytes keeps the promise of `BytesSource` for that
-- buffer, and raises no error but that of a refused seek.
pub MemReader-IsSource : IsSource source Serves Never
unfolding source
MemReader-IsSource = record {
  bounded = λ s c p h. h.fits;
  reads = λ s c p n h.
      from_state s c p h (λ c p. Reads Serves Never c p n (read n s)) (λ f. read-Reads s n f);
  seeks = λ s c p from h.
      from_state s c p h (λ c p. Seeks Serves Never c p from (seek from s))
        (λ f. seek-Seeks s from f);
}
  where
    from_state :
        (s : MemReader) (c : Bytes) (p : ℕ)
        → Serves s c p
        → (P : Bytes → ℕ → Type 0) → (length s.buf < u64_mod → P s.buf s.pos)
        → P c p
    from_state s c p h P f = subst (P c) h.position (
        subst (λ x. P x s.pos) h.content
          (f (subst (λ x. length x < u64_mod) (sym h.content) h.fits)))
