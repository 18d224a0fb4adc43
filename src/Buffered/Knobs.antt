-- ===== src/Buffered/Knobs.antt =====
-- src/buffered.rs: the clamping of the knobs, and what it gives the ring.
use oxideav_source.Prelude.{ℕ, ◌*◌, ◌/◌, ◌<◌, arith}
use oxideav_source.Buffered.Ring.{RingState, saturating_mul, rear}
use oxideav_source.Buffered.Builder.{sanitise_lookback}

-- The sanitised fraction is below one.
pub sanitise_lookback-lt :
    (num den : ℕ) → (sanitise_lookback num den).0 < (sanitise_lookback num den).1
unfolding sanitise_lookback
sanitise_lookback-lt num den = ground arith

quotient-lt : (a c d : ℕ) → a < c * d → a / d < c
quotient-lt a c d h = grind arith

product-lt : (c n d : ℕ) → 0 < c → n < d → c * n < c * d
product-lt c n d h k = grind arith

-- For a positive capacity and a lookback fraction below one, the lookback allowance is less than
-- the capacity, also where the product saturates.
pub rear-lt-capacity :
    (st : RingState) → 0 < st.capacity → st.lookback_num < st.lookback_den → rear st < st.capacity
unfolding rear
rear-lt-capacity st h k =
    let p = product-lt st.capacity st.lookback_num st.lookback_den h k in
    let small : saturating_mul st.capacity st.lookback_num < st.capacity * st.lookback_den =
      omega (arith, p) in
    ground (
      arith,
      quotient-lt (saturating_mul st.capacity st.lookback_num) st.capacity st.lookback_den small,
    )
