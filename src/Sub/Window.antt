-- ===== src/Sub/Window.antt =====
-- src/sub.rs: a `SubSource` over a source serves the window of the source's content.
use oxideav_source.Prelude.{
  ℕ, ◌+◌, ◌-◌, ◌<◌, ◌≤◌, min, ◌≡◌, refl, sym, ap, ◌∙◌, subst, inl, inr, ◌||◌, Option, some, none,
  arith, Bytes, length, take, drop, length-take, length-drop, drop-take, take-take, drop-drop, leb,
  ◌==◌, add_u64-eq-add, u64_mod, Bool-cases, Result, ok, ok_or, IoError,
}
use oxideav_source.Source.{
  pos, negsuc, SeekFrom, start, from_end, current, offset_by, target, and_then, Source, Reads, got,
  failed, Seeks, moved, refused, broken, IsSource,
}
use oxideav_source.Sub.{
  SubSource, bad_seek, add_signed, new_pos, seek_to, seek, read_inner, advance, read, source,
}

-- `k` bytes of the window are those of the inner content.
pub window_lem :
    (base len p k : ℕ) (ic : Bytes)
    → k ≤ len - p
    → take k (drop p (take len (drop base ic))) ≡ take k (drop (base + p) ic)
window_lem base len p k ic h =
    ap (take k) (drop-take p len (drop base ic))
    ∙ take-take k (len - p) (drop p (drop base ic)) h
    ∙ ap (take k) (drop-drop p base ic)

length-window :
    (base len : ℕ) (ic : Bytes) → base + len ≤ length ic → length (take len (drop base ic)) ≡ len
length-window base len ic h = omega (arith, length-take len (drop base ic), length-drop base ic)

length-read : (k p : ℕ) (c : Bytes) → k ≤ length c - p → length (take k (drop p c)) ≡ k
length-read k p c h = omega (arith, length-take k (drop p c), length-drop p c)

new_pos-target :
    (len p : ℕ) (from : SeekFrom) → new_pos len p from ≡ ok_or (target len p from) bad_seek
unfolding new_pos target add_signed offset_by
new_pos-target len p (start n) = refl
new_pos-target len p (from_end (pos d)) = refl
new_pos-target len p (from_end (negsuc d)) = refl
new_pos-target len p (current (pos d)) = refl
new_pos-target len p (current (negsuc d)) = refl

module _ {S : Type 0} (src : Source S) (Serves : S → Bytes → ℕ → Type 0) (Raises : IoError → Type 0)
    (law : IsSource src Serves Raises) where
  -- The window serves `c` at `p`: its inner source serves a content at some position, the window
  -- lies in it, and `c` is the part of it that the window shows.
  pub record Windows (w : SubSource S) (c : Bytes) (p : ℕ) : Type 0 where
    pub inner_content : Bytes
    pub inner_pos : ℕ
    pub inner_serves : Serves w.inner inner_content inner_pos
    pub inside : w.base + w.len ≤ length inner_content
    pub window : take w.len (drop w.base inner_content) ≡ c
    pub position : w.pos ≡ p

  module _ (w : SubSource S) (ic : Bytes) (inside : w.base + w.len ≤ length ic) where
    content : Bytes
    content = take w.len (drop w.base ic)

    serving :
        (i : S) (q r : ℕ)
        → Serves i ic q
        → Windows (record w { inner = i; pos = r }) (take w.len (drop w.base ic)) r
    serving i q r h = record {
      inner_content = ic;
      inner_pos = q;
      inner_serves = h;
      inside = inside;
      window = refl;
      position = refl;
    }

    read_bytes :
        (n k q : ℕ) (bytes : Bytes) (s : S)
        → bytes ≡ take k (drop w.pos (take w.len (drop w.base ic)))
        → length bytes ≡ k
        → w.pos + k < u64_mod
        → k ≤ n
        → k ≤ length (take w.len (drop w.base ic)) - w.pos
        → (0 < n → w.pos < length (take w.len (drop w.base ic)) → 0 < k)
        → Serves s ic q
        → Reads Windows Raises (take w.len (drop w.base ic)) w.pos n (advance w (ok bytes, s))
    unfolding advance
    read_bytes n k q bytes s e counted small le fit progress h =
        rw (counted, e, add_u64-eq-add w.pos k small)
          (got k _ le fit progress (serving s q (w.pos + k) h))

    after_read :
        (n : ℕ) (out : Result IoError Bytes × S)
        → length ic < u64_mod
        → w.pos < w.len
        → Reads Serves Raises ic (w.base + w.pos) (min n (w.len - w.pos)) out
        → Reads Windows Raises (take w.len (drop w.base ic)) w.pos n (advance w out)
    after_read n _ small more (got k s le fit progress h) =
        read_bytes n k _ _ s (sym (window_lem w.base w.len w.pos k ic (omega arith)))
          (length-read k (w.base + w.pos) ic fit) (omega arith) (omega arith) (omega (arith, size))
          (λ a b. progress (omega arith) (omega arith)) h
      where
        size : length (take w.len (drop w.base ic)) ≡ w.len
        size = length-window w.base w.len ic inside
    after_read n _ small more (failed e s r h) =
        unfold advance in failed e _ r (serving s _ w.pos h)

    -- The seek in front of a read: it leads to the place of the window's position.
    after_seek :
        (n : ℕ) (ip : ℕ) (out : Result IoError ℕ × S)
        → length ic < u64_mod
        → w.pos < w.len
        → Seeks Serves Raises ic ip (start (w.base + w.pos)) out
        → Reads Windows Raises
            (take w.len (drop w.base ic))
            w.pos
            n
            (advance w (and_then out (λ _. src.read (min n (w.len - w.pos)))))
    after_seek n ip _ small more (moved q s t h) =
        after_read n _ small more
          (law.reads s ic (w.base + w.pos) (min n (w.len - w.pos)) (subst (Serves s ic) same h))
      where
        same : q ≡ w.base + w.pos
        same = unfold target in ground arith
    after_seek n ip _ small more (refused m s t h) = absurd (unfold target in cc)
    after_seek n ip _ small more (broken e s r h) =
        unfold advance in failed e _ r (serving s ip w.pos h)

    read-Reads :
        (n ip : ℕ)
        → Serves w.inner ic ip
        → Reads Windows Raises (take w.len (drop w.base ic)) w.pos n (read src n w)
    unfolding read read_inner
    read-Reads n ip h = elim (Bool-cases (n == 0 || leb w.len w.pos)) [
      | inl idle ↦ rw idle (
          got 0 w (omega arith) (omega arith)
            (λ a b. absurd (unfold read in ground (arith, length-window w.base w.len ic inside)))
            (subst (Windows w _) zero_more (serving w.inner ip w.pos h)))
      | inr busy ↦
          rw (busy, add_u64-eq-add w.base w.pos (ground (arith, law.bounded w.inner ic ip h)))
            (after_seek n ip _ (law.bounded w.inner ic ip h) (ground arith)
              (law.seeks w.inner ic ip (start (w.base + w.pos)) h))
    ]
      where
        zero_more : w.pos ≡ w.pos + 0
        zero_more = omega arith

    seek-Seeks :
        (from : SeekFrom) (ip : ℕ)
        → Serves w.inner ic ip
        → Seeks Windows Raises (take w.len (drop w.base ic)) w.pos from (seek from w)
    unfolding seek
    seek-Seeks from ip h = rw (new_pos-target w.len w.pos from) (go (target w.len w.pos from) refl)
      where
        same_target :
            target (length (take w.len (drop w.base ic))) w.pos from ≡ target w.len w.pos from
        same_target = ap (λ l. target l w.pos from) (length-window w.base w.len ic inside)

        go :
            (o : Option ℕ)
            → target w.len w.pos from ≡ o
            → Seeks Windows Raises
                (take w.len (drop w.base ic))
                w.pos
                from
                (seek_to (ok_or o bad_seek) w)
        go none e = unfold seek_to in refused _ w (same_target ∙ e) (serving w.inner ip w.pos h)
        go (some q) e = unfold seek_to in moved q _ (same_target ∙ e) (serving w.inner ip q h)

  -- Over an inner source that keeps the promise of `BytesSource`, a window that lies in its
  -- content keeps it for that part of the content.
  pub SubSource-IsSource : IsSource (source src) Windows Raises
  unfolding source
  SubSource-IsSource = record {
    bounded = λ w c p h.
        subst (λ x. length x < u64_mod) h.window
          (small w h.inner_content h.inner_pos h.inside h.inner_serves);
    reads = λ w c p n h.
        moved_to w c p h (λ c p. Reads Windows Raises c p n (read src n w))
          (read-Reads w h.inner_content h.inside n h.inner_pos h.inner_serves);
    seeks = λ w c p from h.
        moved_to w c p h (λ c p. Seeks Windows Raises c p from (seek from w))
          (seek-Seeks w h.inner_content h.inside from h.inner_pos h.inner_serves);
  }
    where
      small :
          (w : SubSource S) (ic : Bytes) (ip : ℕ)
          → w.base + w.len ≤ length ic
          → Serves w.inner ic ip
          → length (take w.len (drop w.base ic)) < u64_mod
      small w ic ip inside h =
          omega (arith, length-window w.base w.len ic inside, law.bounded w.inner ic ip h)

      moved_to :
          (w : SubSource S) (c : Bytes) (p : ℕ) (h : Windows w c p) (P : Bytes → ℕ → Type 0)
          → P (take w.len (drop w.base h.inner_content)) w.pos
          → P c p
      moved_to w c p h P x = subst (P c) h.position (subst (λ y. P y w.pos) h.window x)
