-- ===== src/Buffered/Reasons.antt =====
-- src/buffered.rs: why the worker and the reader may sleep.
use oxideav_source.Prelude.{◌<◌, ◌≡◌, sym, ◌∙◌, inl, inr, ◌⊎◌, Bool, true, false, none, length}
use oxideav_source.Buffered.Ring.{RingState}
use oxideav_source.Buffered.Worker.{
  Phase, head, asleep, exited, seeking, seek_failed, reading, depositing,
}
use oxideav_source.Buffered.System.{Reader, idle, dropped, waiting, woken, wake_worker, wake_reader}
use oxideav_source.Buffered.Invariant.{Drained}
use oxideav_source.Buffered.Rounds.{Starved, Told}

-- Why the worker may sleep, and why it may have returned.
abbrev pub Sleeping : RingState → Phase → Type 0
Sleeping st asleep =
    (st.target_pos ≡ none) × (st.stop ≡ false) × ((st.eof ≡ true) ⊎ (length st.buf ≡ st.capacity))
Sleeping st exited = (st.worker_dead ≡ true) ⊎ (st.stop ≡ true)
Sleeping st _ = Unit

-- Why the reader may sleep.
abbrev pub Waiting : RingState → Reader → Type 0
Waiting st (waiting n) = Starved st × (0 < n)
Waiting st (woken n) = 0 < n
Waiting st _ = Unit

pub Sleeping-Drained :
    (st st' : RingState) (w : Phase) (b : Bool)
    → Drained st st'
    → Told st st' b
    → Sleeping st w
    → Sleeping st' (wake_worker b w)
Sleeping-Drained st st' asleep true d t k = tt
Sleeping-Drained st st' asleep false d t (o, s, why) = (
  d.same_target ∙ o,
  d.same_stop ∙ s,
  elim why [ inl e ↦ inl (d.same_eof ∙ e) | inr full ↦ inr (t ∙ full ∙ sym d.same_capacity) ],
)
Sleeping-Drained st st' exited b d t k = elim k [
  | inl e ↦ inl (d.same_dead ∙ e)
  | inr e ↦ inr (d.same_stop ∙ e)
]
Sleeping-Drained st st' head b d t k = tt
Sleeping-Drained st st' (seeking _) b d t k = tt
Sleeping-Drained st st' (seek_failed _) b d t k = tt
Sleeping-Drained st st' (reading _) b d t k = tt
Sleeping-Drained st st' (depositing _) b d t k = tt

-- A worker that is told of a change that leaves its reasons to have returned.
pub Sleeping-told :
    (st st' : RingState) (w : Phase)
    → ((st.worker_dead ≡ true) ⊎ (st.stop ≡ true) → (st'.worker_dead ≡ true) ⊎ (st'.stop ≡ true))
    → Sleeping st w
    → Sleeping st' (wake_worker true w)
Sleeping-told st st' asleep f k = tt
Sleeping-told st st' exited f k = f k
Sleeping-told st st' head f k = tt
Sleeping-told st st' (seeking _) f k = tt
Sleeping-told st st' (seek_failed _) f k = tt
Sleeping-told st st' (reading _) f k = tt
Sleeping-told st st' (depositing _) f k = tt

pub Waiting-told :
    (st st' : RingState) (r : Reader) → Waiting st r → Waiting st' (wake_reader true r)
Waiting-told st st' idle k = tt
Waiting-told st st' dropped k = tt
Waiting-told st st' (waiting n) k = k.1
Waiting-told st st' (woken n) k = k

pub Waiting-untold : (st : RingState) (r : Reader) → Waiting st r → Waiting st (wake_reader false r)
Waiting-untold st idle k = tt
Waiting-untold st dropped k = tt
Waiting-untold st (waiting n) k = k
Waiting-untold st (woken n) k = k

-- Only a worker that has returned is dead.
abbrev pub Alive : RingState → Phase → Type 0
Alive st exited = Unit
Alive st _ = st.worker_dead ≡ false
