-- ===== src/Buffered/Delivery.antt =====
-- src/buffered.rs: the bytes that the reads of a run return, put together.
use oxideav_source.Prelude.{
  ℕ, ◌-◌, ◌≤◌, ◌<◌, ◌≡◌, sym, ap, ◌∙◌, List, [], ◌∷◌, ◌++◌, arith, Bytes, length, take, drop,
  drop-drop, take-add, u64_mod, Result, ok, IoError,
}
use oxideav_source.Source.{Source, IsSource}
use oxideav_source.Buffered.System.{System, Event, reads, seeks, Step}
use oxideav_source.Buffered.Rounds.{Returned, bytes, device, late}
use oxideav_source.Buffered.Contract.{
  Behaves, silent, dropping, empty_buffer, answered, moved, refused, SystemOk,
}
use oxideav_source.Buffered.Reachable.{Step-Stepped}

-- A run with the events that the caller sees.
pub data Trace {S : Type 0} (src : Source S) : System S → List Event → System S → Type 0 where
  stops : {s : System S} → Trace src s [] s
  goes_on :
      {s t u : System S} {e : Event} {es : List Event}
      → Step src s e t
      → Trace src t es u
      → Trace src s (e ∷ es) u

abbrev bytes_of : Event → Bytes
bytes_of (reads n (ok s)) = s
bytes_of _ = []

abbrev pub delivered : List Event → Bytes
delivered [] = []
delivered (e ∷ es) = bytes_of e ++ delivered es

abbrev IsNoSeek : Event → Type 0
IsNoSeek (seeks from r) = ⊥
IsNoSeek _ = Unit

abbrev pub HasNoSeek : List Event → Type 0
HasNoSeek [] = Unit
HasNoSeek (e ∷ es) = IsNoSeek e × HasNoSeek es

module _ (Raises : IoError → Type 0) (c : Bytes) where
  -- The bytes of the content from `p` on and before `q`.
  pub record Covers (p q : ℕ) (s : Bytes) : Type 0 where
    pub forward : p ≤ q
    pub content : s ≡ take (q - p) (drop p c)

  Returned-Covers :
      (n p q : ℕ) (r : Result IoError Bytes)
      → Returned Raises c n p r q
      → Covers p q (bytes_of (reads n r))
  Returned-Covers n p q _ (bytes k q' s _ _ _ content next) = record {
    forward = omega (arith, next);
    content = content ∙ ap (λ k. take k (drop p c)) (omega (arith, next));
  }
  Returned-Covers n p _ _ (device e raised) = record {
    forward = omega arith;
    content = ap (λ k. take k (drop p c)) {x = 0} (omega arith);
  }
  Returned-Covers n p _ _ late = record {
    forward = omega arith;
    content = ap (λ k. take k (drop p c)) {x = 0} (omega arith);
  }

  stay : (p : ℕ) → Covers p p []
  stay p = record {
    forward = omega arith;
    content = ap (λ k. take k (drop p c)) {x = 0} (omega arith);
  }

  Behaves-Covers :
      (p q : ℕ) (e : Event) → Behaves Raises c p e q → IsNoSeek e → Covers p q (bytes_of e)
  Behaves-Covers p _ _ silent h = stay p
  Behaves-Covers p _ _ dropping h = stay p
  Behaves-Covers p _ _ empty_buffer h = stay p
  Behaves-Covers p _ _ (answered n q r x) h = Returned-Covers n p q r x
  Behaves-Covers p _ _ (moved from q t) h = absurd h
  Behaves-Covers p _ _ (refused from m t) h = absurd h

  joined : (p q r : ℕ) (s t : Bytes) → Covers p q s → Covers q r t → Covers p r (s ++ t)
  joined p q r s t a b = record {
    forward = omega (arith, a.forward, b.forward);
    content =
        ap (λ x. x ++ t) a.content
        ∙ ap (λ x. take (q - p) (drop p c) ++ x)
            (b.content
              ∙ ap (take (r - q))
                  (ap (λ i. drop i c) (omega (arith, a.forward)) ∙ sym (drop-drop (q - p) p c)))
        ∙ take-add (q - p) (r - q) (drop p c)
        ∙ ap (λ k. take k (drop p c)) (omega (arith, a.forward, b.forward));
  }

module _ {S : Type 0} (src : Source S) (Serves : S → Bytes → ℕ → Type 0) (Raises : IoError → Type 0)
    (law : IsSource src Serves Raises) (c : Bytes) (short : length c < u64_mod) where
  -- Let the inner source keep the promise of `BytesSource` for a content `c` of less than 2 ^ 64
  -- bytes. In any run without seeks from a state in the invariants, however the two threads are
  -- interleaved and whatever errors and timeouts come between, the bytes that the reads return,
  -- put together, are those of `c` between the first position and the last, without a gap or a
  -- repetition.
  pub Trace-Covers :
      (s t : System S) (es : List Event)
      → SystemOk Serves Raises c s
      → Trace src s es t
      → HasNoSeek es
      → Covers Raises c s.pos t.pos (delivered es)
  Trace-Covers s _ _ k stops h = stay Raises c s.pos
  Trace-Covers s u _ k (goes_on {t = t} {e = e} {es = es} x r) (here, later) =
      let (k', b) = Step-Stepped src Serves Raises law c short s t e k x in
      joined Raises c s.pos t.pos u.pos (bytes_of e) (delivered es)
        (Behaves-Covers Raises c s.pos t.pos e b here) (Trace-Covers t u es k' r later)
