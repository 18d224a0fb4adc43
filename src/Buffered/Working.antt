-- ===== src/Buffered/Working.antt =====
-- src/buffered.rs: what holds of the worker in each phase.
use oxideav_source.Prelude.{
  ℕ, ◌+◌, ◌≤◌, ◌<◌, ◌≡◌, refl, sym, ap, ◌∙◌, subst, Bool, true, false, ◌||◌, Option, none, some,
  arith, Bytes, length, take, drop, u64_mod, Result, ok, err, IoError,
}
use oxideav_source.Buffered.Ring.{RingState}
use oxideav_source.Buffered.Worker.{
  Phase, head, asleep, exited, seeking, seek_failed, reading, depositing, is_some,
}
use oxideav_source.Buffered.System.{wake_worker}
use oxideav_source.Buffered.Invariant.{Drained}

-- A worker that is to stop is taken like one that is asked for a position: what it reads is dropped.
abbrev pub aim : Bool → Option ℕ → Option ℕ
aim true o = some 0
aim false o = o

module _ {S : Type 0} (Serves : S → Bytes → ℕ → Type 0) (Raises : IoError → Type 0)
    (c : Bytes) where
  abbrev pub Somewhere : S → Type 0
  Somewhere inner = (q : ℕ) × Serves inner c q

  -- The inner source stands at the end of the ring, unless the worker is asked for a position.
  abbrev pub At : Option ℕ → ℕ → S → Type 0
  At none end inner = Serves inner c end
  At (some t) end inner = Somewhere inner

  abbrev pub Due : Option ℕ → ℕ → ℕ → Type 0
  Due none t end = end ≡ t
  Due (some _) t end = Unit

  abbrev pub Fits : Option ℕ → ℕ → ℕ → Type 0
  Fits none l cap = l ≤ cap
  Fits (some _) l cap = Unit

  -- What a read of the inner source at the end of the ring gave.
  abbrev pub Landed : ℕ → ℕ → ℕ → S → Result IoError Bytes → Type 0
  Landed end l cap inner (ok s) =
      (s ≡ take (length s) (drop end c))
      × (l + length s ≤ cap)
      × (length s ≡ 0 → length c ≤ end)
      × Serves inner c (end + length s)
  Landed end l cap inner (err e) = Raises e × Serves inner c end

  abbrev pub Fetched : Option ℕ → ℕ → ℕ → ℕ → S → Result IoError Bytes → Type 0
  Fetched none end l cap inner r = Landed end l cap inner r
  Fetched (some _) end l cap inner r = Somewhere inner

  -- By phase, for a ring of `l` bytes that ends at `end`.
  abbrev pub Working : Option ℕ → ℕ → ℕ → ℕ → S → Phase → Type 0
  Working o end l cap inner head = At o end inner
  Working o end l cap inner asleep = At o end inner
  Working o end l cap inner (seeking t) = Somewhere inner × Due o t end × (t < u64_mod)
  Working o end l cap inner (seek_failed e) = Raises e
  Working o end l cap inner (reading k) = At o end inner × (0 < k) × Fits o (l + k) cap
  Working o end l cap inner (depositing r) = Fetched o end l cap inner r
  Working o end l cap inner exited = Unit

  -- A ring that the reader has drained.
  Working-shorter :
      (o : Option ℕ) (end l m cap : ℕ) (inner : S) (w : Phase)
      → m ≤ l
      → Working o end l cap inner w
      → Working o end m cap inner w
  Working-shorter o end l m cap inner head h k = k
  Working-shorter o end l m cap inner asleep h k = k
  Working-shorter o end l m cap inner (seeking t) h k = k
  Working-shorter o end l m cap inner (seek_failed e) h k = k
  Working-shorter none end l m cap inner (reading n) h (a, b, f) = (a, b, omega arith)
  Working-shorter (some t) end l m cap inner (reading n) h k = k
  Working-shorter none end l m cap inner (depositing (ok s)) h (a, f, z, sv) =
      (a, omega arith, z, sv)
  Working-shorter none end l m cap inner (depositing (err e)) h k = k
  Working-shorter (some t) end l m cap inner (depositing r) h k = k
  Working-shorter o end l m cap inner exited h k = k

  At-Somewhere : (o : Option ℕ) (end : ℕ) (inner : S) → At o end inner → Somewhere inner
  At-Somewhere none end inner h = (end, h)
  At-Somewhere (some t) end inner h = h

  -- A worker that is asked for a position.
  pub Working-asked :
      (o : Option ℕ) (t end l cap end' l' cap' : ℕ) (inner : S) (w : Phase)
      → Working o end l cap inner w
      → Working (some t) end' l' cap' inner w
  Working-asked o t end l cap end' l' cap' inner head k = At-Somewhere o end inner k
  Working-asked o t end l cap end' l' cap' inner asleep k = At-Somewhere o end inner k
  Working-asked o t end l cap end' l' cap' inner (seeking u) (a, b, f) = (a, tt, f)
  Working-asked o t end l cap end' l' cap' inner (seek_failed e) k = k
  Working-asked o t end l cap end' l' cap' inner (reading n) (a, b, f) =
      (At-Somewhere o end inner a, b, tt)
  Working-asked none t end l cap end' l' cap' inner (depositing (ok s)) (a, f, z, sv) =
      (end + length s, sv)
  Working-asked none t end l cap end' l' cap' inner (depositing (err e)) (r, sv) = (end, sv)
  Working-asked (some u) t end l cap end' l' cap' inner (depositing r) k = k
  Working-asked o t end l cap end' l' cap' inner exited k = tt

  pub Working-aimed :
      (b : Bool) (o : Option ℕ) (t end l cap end' l' cap' : ℕ) (inner : S) (w : Phase)
      → Working o end l cap inner w
      → Working (aim b (some t)) end' l' cap' inner w
  Working-aimed true o t end l cap end' l' cap' inner w k =
      Working-asked o 0 end l cap end' l' cap' inner w k
  Working-aimed false o t end l cap end' l' cap' inner w k =
      Working-asked o t end l cap end' l' cap' inner w k

  pub Working-wake :
      (o : Option ℕ) (end l cap : ℕ) (inner : S) (w : Phase) (b : Bool)
      → Working o end l cap inner w
      → Working o end l cap inner (wake_worker b w)
  Working-wake o end l cap inner asleep true k = k
  Working-wake o end l cap inner asleep false k = k
  Working-wake o end l cap inner head b k = k
  Working-wake o end l cap inner (seeking t) b k = k
  Working-wake o end l cap inner (seek_failed e) b k = k
  Working-wake o end l cap inner (reading n) b k = k
  Working-wake o end l cap inner (depositing r) b k = k
  Working-wake o end l cap inner exited b k = k

  -- For the ring of a state.
  abbrev pub WorkerOk : RingState → S → Phase → Type 0
  WorkerOk st inner w =
      Working (aim st.stop st.target_pos) (st.ring_start + length st.buf) (length st.buf)
        st.capacity inner w

  pub WorkerOk-Drained :
      (st st' : RingState) (inner : S) (w : Phase)
      → Drained st st'
      → WorkerOk st inner w
      → WorkerOk st' inner w
  WorkerOk-Drained st st' inner w d k =
      let o = aim st.stop st.target_pos in
      let same_aim : aim st'.stop st'.target_pos ≡ o =
        ap (λ b. aim b st'.target_pos) d.same_stop ∙ ap (aim st.stop) d.same_target in
      subst
        (λ o'. Working o' (st'.ring_start + length st'.buf) (length st'.buf) st'.capacity inner w)
        (sym same_aim)
        (subst (λ e. Working o e (length st'.buf) st'.capacity inner w) (sym d.same_end)
          (subst (λ x. Working o (st.ring_start + length st.buf) (length st'.buf) x inner w)
            (sym d.same_capacity)
            (Working-shorter o (st.ring_start + length st.buf) (length st.buf) (length st'.buf)
              st.capacity inner w d.shorter k)))

  -- A worker that is to go on and is not asked for a position.
  module _ (st : RingState) (inner : S) (w : Phase) (free : st.target_pos ≡ none)
      (stopless : st.stop ≡ false) where
    abbrev Free : Type 0
    Free = Working none (st.ring_start + length st.buf) (length st.buf) st.capacity inner w

    aimless : aim st.stop st.target_pos ≡ none
    aimless = ap (λ b. aim b st.target_pos) stopless ∙ free

    pub WorkerOk-free : Free → WorkerOk st inner w
    WorkerOk-free =
        subst (λ o. Working o (st.ring_start + length st.buf) (length st.buf) st.capacity inner w)
          (sym aimless)

    pub free-WorkerOk : WorkerOk st inner w → Free
    free-WorkerOk =
        subst (λ o. Working o (st.ring_start + length st.buf) (length st.buf) st.capacity inner w)
          aimless

  Fetched-Somewhere :
      (b : Bool) (o : Option ℕ) (end l cap : ℕ) (inner : S) (f : Result IoError Bytes)
      → (is_some o || b) ≡ true
      → Fetched (aim b o) end l cap inner f
      → At (aim b o) end inner
  Fetched-Somewhere true o end l cap inner f h k = k
  Fetched-Somewhere false (some t) end l cap inner f h k = k
  Fetched-Somewhere false none end l cap inner f h k = absurd (cc)

  -- What was read for a position that is no longer wanted is dropped.
  pub WorkerOk-dropped :
      (st : RingState) (inner : S) (f : Result IoError Bytes)
      → (is_some st.target_pos || st.stop) ≡ true
      → WorkerOk st inner (depositing f)
      → WorkerOk st inner head
  WorkerOk-dropped st inner f h k =
      Fetched-Somewhere st.stop st.target_pos (st.ring_start + length st.buf) (length st.buf)
        st.capacity inner f h k

pub kept-free : (b : Bool) (o : Option ℕ) → (is_some o || b) ≡ false → (o ≡ none) × (b ≡ false)
kept-free b none h = (refl, h)
kept-free b (some t) h = absurd (cc)
