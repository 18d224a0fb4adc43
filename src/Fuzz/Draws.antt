-- ===== src/Fuzz/Draws.antt =====
-- fuzz/fuzz_targets/compose_open.rs, `Script`: what is drawn from a script of bytes is in range, and
-- the script moves on.
use oxideav_source.Prelude.{
  ℕ, zero, suc, ◌+◌, ◌*◌, ◌%◌, ◌≤◌, ◌<◌, ◌≡◌, refl, ◌∙◌, subst, sym, Bool, true, false, [], ◌∷◌,
  arith, All, Bytes, String, length, get_or, Result, ok, leb, if◌then◌else◌,
}
use oxideav_source.Base64.Groups.{IsByte}
use oxideav_source.Source.{and_then, Run, ◌>>=◌, ◌>>◌, return}
use oxideav_source.Fuzz.Compose.{Script, Draw, assert, u8, u16, below, bytes}

-- No panic, and a postcondition.
pub data Yields {S A : Type 0} (P : A → S → Type 0) : Result String A × S → Type 0 where
  yields : (a : A) (s : S) → P a s → Yields P (ok a, s)

pub Yields-ok :
    {S : Type 0} (out : Result String (Unit {0}) × S) → Yields (λ _ _. Unit {0}) out → out.0 ≡ ok tt
Yields-ok _ (yields tt s h) = refl

pub and_then-Yields :
    {S A B : Type 0} (P : A → S → Type 0) (Q : B → S → Type 0) (out : Result String A × S)
    (f : A → Run String S B)
    → Yields P out
    → ((a : A) (s : S) → P a s → Yields Q (f a s))
    → Yields Q (and_then out f)
and_then-Yields P Q _ f (yields a s h) next = next a s h

-- What a draw leaves of the script that it began with.
pub record After {A : Type 0} (P : A → Type 0) (sc : Script) (a : A) (sc' : Script) : Type 0 where
  pub drawn : P a
  pub same : sc'.d ≡ sc.d
  pub on : sc.i ≤ sc'.i

-- From every script of bytes.
pub record Draws {A : Type 0} (P : A → Type 0) (m : Draw A) : Type 0 where
  pub at : (sc : Script) → All IsByte sc.d → Yields (After P sc) (m sc)

pub return-Draws : {A : Type 0} (P : A → Type 0) (a : A) → P a → Draws P (return a)
return-Draws P a h = record {
  at = λ sc _. yields a sc (record { drawn = h; same = refl; on = omega arith });
}

pub >>=-Draws :
    {A B : Type 0} (P : A → Type 0) (Q : B → Type 0) (m : Draw A) (f : A → Draw B)
    → Draws P m
    → ((a : A) → P a → Draws Q (f a))
    → Draws Q (m >>= f)
>>=-Draws {A = A} {B = B} P Q m f first next = record {
  at = λ sc h.
      and_then-Yields (After P sc) (After Q sc) (m sc) f (first.at sc h)
        (λ a s k. later sc h a s k);
}
  where
    weaken :
        (sc s : Script) (out : Result String B × Script)
        → s.d ≡ sc.d
        → sc.i ≤ s.i
        → Yields (After Q s) out
        → Yields (After Q sc) out
    weaken sc s _ e le (yields b t k) =
        yields b t (record { drawn = k.drawn; same = k.same ∙ e; on = omega (arith, k.on) })

    later :
        (sc : Script)
        → All IsByte sc.d
        → (a : A) (s : Script) → After P sc a s
        → Yields (After Q sc) (f a s)
    later sc h a s k =
        weaken sc s (f a s) k.same k.on ((next a k.drawn).at s (subst (All IsByte) (sym k.same) h))

pub if-Draws :
    {A : Type 0} (P : A → Type 0) (b : Bool) (m n : Draw A)
    → (b ≡ true → Draws P m)
    → (b ≡ false → Draws P n)
    → Draws P (if b then m else n)
if-Draws P true m n h k = h refl
if-Draws P false m n h k = k refl

pub assert-Draws :
    {A : Type 0} (P : A → Type 0) (b : Bool) (message : String) (m : Draw A)
    → b ≡ true
    → Draws P m
    → Draws P (assert b message >> m)
assert-Draws P true message m e h = record { at = λ sc k. h.at sc k }
assert-Draws P false message m e h = absurd (cc)

pub Draws-grow :
    {A : Type 0} (P Q : A → Type 0) (m : Draw A) → ((a : A) → P a → Q a) → Draws P m → Draws Q m
Draws-grow {A = A} P Q m weaken h = record { at = λ sc k. go sc (m sc) (h.at sc k) }
  where
    go :
        (sc : Script) (out : Result String A × Script)
        → Yields (After P sc) out
        → Yields (After Q sc) out
    go sc _ (yields a s k) =
        yields a s (record { drawn = weaken a k.drawn; same = k.same; on = k.on })

byte_at : (d : Bytes) (i : ℕ) → All IsByte d → IsByte (get_or d i 0)
byte_at [] i h = omega arith
byte_at (b ∷ d) zero (h, _) = h
byte_at (b ∷ d) (suc i) (_, hs) = byte_at d i hs

pub u8-Draws : Draws IsByte u8
unfolding u8
u8-Draws = record {
  at = λ sc h. yields _ _ (record { drawn = byte_at sc.d sc.i h; same = refl; on = omega arith });
}

pub u16-Draws : Draws (λ x. x < 65536) u16
unfolding u16
u16-Draws =
    >>=-Draws _ _ u8 _ u8-Draws
      (λ lo h. >>=-Draws _ _ u8 _ u8-Draws (λ hi k. return-Draws _ (lo + hi * 256) (omega arith)))

pub below-Draws : (n : ℕ) → 0 < n → Draws (λ x. x < n) (below n)
unfolding below
below-Draws n h =
    if-Draws _ (leb n 1) _ _ (λ e. return-Draws _ 0 h)
      (λ e. >>=-Draws _ _ u16 _ u16-Draws (λ x _. return-Draws _ (x % n) (grind arith)))

pub bytes-Draws : (n : ℕ) → Draws (λ s. (length s ≡ n) × All IsByte s) (bytes n)
unfolding bytes
bytes-Draws zero = return-Draws _ [] (refl, tt)
bytes-Draws (suc n) = >>=-Draws _ _ u8 _ u8-Draws (λ b h.
    >>=-Draws _ _ (bytes n) _ (bytes-Draws n)
      (λ rest k. return-Draws _ (b ∷ rest) (omega (arith, k.0), (h, k.1))))
