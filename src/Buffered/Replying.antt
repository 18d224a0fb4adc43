-- ===== src/Buffered/Replying.antt =====
-- src/buffered.rs: a read that goes on behind its wait.
use oxideav_source.Prelude.{
  ℕ, ◌<◌, ◌≡◌, sym, ◌∙◌, subst, inl, inr, Option, some, arith, Bytes, length, u64_mod, Result,
  IoError,
}
use oxideav_source.Source.{Source}
use oxideav_source.Buffered.Reader.{Round, attempt}
use oxideav_source.Buffered.System.{
  woken, System, reads, go_on, Next, after_rounds, by_reader, step,
}
use oxideav_source.Buffered.Rounds.{Returned}
use oxideav_source.Buffered.Attempts.{Tried, replied, slept, attempt-Tried}
use oxideav_source.Buffered.Reasons.{Waiting}
use oxideav_source.Buffered.Contract.{SystemOk}
use oxideav_source.Buffered.Waking.{HasNews}

-- The read of `n` bytes at `p` returns what a reader of the content may return.
pub data Replies {S : Type 0} (Raises : IoError → Type 0) (c : Bytes) (n p : ℕ)
    : Next S → Type 0 where
  replies :
      (r : Result IoError Bytes) (t : System S)
      → Returned Raises c n p r t.pos
      → Replies Raises c n p (some (reads n r, t))

module _ {S : Type 0} (src : Source S) (Serves : S → Bytes → ℕ → Type 0) (Raises : IoError → Type 0)
    (c : Bytes) (short : length c < u64_mod) (s : System S) (k : SystemOk Serves Raises c s) (n : ℕ)
    (news : HasNews s) where
  Tried-Replies :
      (o : Option Round)
      → Tried Raises c n s.pos s.ring o
      → Replies Raises c n s.pos (after_rounds n s o)
  unfolding after_rounds
  Tried-Replies _ (replied r q st b x h at d t) = replies r _ x
  Tried-Replies _ (slept st b x h at edge d t) = absurd (elim news [
    | inl failed ↦ failed (sym d.same_err ∙ x.no_error)
    | inr (inl ended) ↦ let more = x.not_ended in let same = d.same_eof in absurd (cc)
    | inr (inr held) ↦ absurd (omega (arith, held, edge, d.same_end))
  ])

  -- In a state in the invariants for a content `c` of less than 2 ^ 64 bytes, where the reader has
  -- been woken in a read and the ring has a byte at its position, the end of file or an error, the
  -- read does not wait again when it goes on: it returns what a reader of `c` may return.
  pub go_on-Replies :
      (wrap : ℕ) → s.reader ≡ woken n → Replies Raises c n s.pos (step src (go_on wrap) s)
  unfolding step
  go_on-Replies wrap r =
      subst (λ x. Replies Raises c n s.pos (by_reader src x (go_on wrap) s)) (sym r)
        (Tried-Replies (attempt wrap n s.pos s.ring) (
          attempt-Tried Raises c short wrap n (subst (Waiting s.ring) r k.wait) s.pos s.ring k.ring
            k.at))
