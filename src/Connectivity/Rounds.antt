-- ===== src/Connectivity/Rounds.antt =====
-- How the wait for a gRPC channel ends.
use invora_controller.Prelude.{
  ℕ, zero, suc, ◌<◌, inl, inr, ◌≡◌, ◌⊎◌, ◌↔◌, refl, arith, Option, none, some, Option-cases,
}
use invora_controller.Go.{Error}
use invora_controller.Connectivity.{
  Round, ChannelState, idle, connecting, transient_failure, shutdown, expiry, ready, round_result,
  wait_for_gateway,
}

-- A wait from round i on returns in the round that comes k rounds later, and in none before.
abbrev ReturnsAt : (ℕ → Round) → ℕ → ℕ → Option Error → Type 0
ReturnsAt rounds i zero r = round_result (rounds i) ≡ some r
ReturnsAt rounds i (suc k) r = (round_result (rounds i) ≡ none) × ReturnsAt rounds (suc i) k r

wait-returns :
    (rounds : ℕ → Round) (n i k : ℕ) (r : Option Error)
    → k < n
    → ReturnsAt rounds i k r
    → wait_for_gateway rounds n i ≡ r
unfolding wait_for_gateway
wait-returns rounds zero i k r below at = absurd (omega arith)
wait-returns rounds (suc n) i zero r below at = ground (arith, at)
wait-returns rounds (suc n) i (suc k) r below (passed, at) =
    ground (arith, passed, wait-returns rounds n (suc i) k r (omega arith) at)

-- A round after which the wait goes on: the channel is idle, connecting or in a transient failure,
-- the context is not done, and WaitForStateChange has seen a change.
abbrev pub GoesOn : Round → Type 0
GoesOn r =
    ((r.state ≡ idle) ⊎ ((r.state ≡ connecting) ⊎ (r.state ≡ transient_failure)))
    × (r.expired ≡ none)
    × (r.unchanged ≡ none)

-- The channel is ready in the round that comes k rounds after round i, and the wait goes on after
-- each round before.
abbrev pub ReadyAt : (ℕ → Round) → ℕ → ℕ → Type 0
ReadyAt rounds i zero = (rounds i).state ≡ ready
ReadyAt rounds i (suc k) = GoesOn (rounds i) × ReadyAt rounds (suc i) k

GoesOn-none : (r : Round) → GoesOn r → round_result r ≡ none
GoesOn-none r (inl s, e, u) = rw (s, e, u) refl
GoesOn-none r (inr (inl s), e, u) = rw (s, e, u) refl
GoesOn-none r (inr (inr s), e, u) = rw (s, e, u) refl

ChannelState-cases :
    (s : ChannelState)
    → (s ≡ ready) ⊎ ((s ≡ shutdown) ⊎ ((s ≡ idle) ⊎ ((s ≡ connecting) ⊎ (s ≡ transient_failure))))
ChannelState-cases idle = inr (inr (inl refl))
ChannelState-cases connecting = inr (inr (inr (inl refl)))
ChannelState-cases ready = inl refl
ChannelState-cases transient_failure = inr (inr (inr (inr refl)))
ChannelState-cases shutdown = inr (inl refl)

expiry-none : (r : Round) → expiry r ≡ none → (r.expired ≡ none) × (r.unchanged ≡ none)
expiry-none r h = elim (Option-cases r.expired) [
  | inr (e, p) ↦ absurd (ground (arith, p, h))
  | inl p ↦ elim (Option-cases r.unchanged) [
    | inr (e, q) ↦ absurd (ground (arith, p, q, h))
    | inl q ↦ (p, q)
  ]
]

none-GoesOn : (r : Round) → round_result r ≡ none → GoesOn r
none-GoesOn r h = elim (ChannelState-cases r.state) [
  | inl s ↦ absurd (ground (arith, s, h))
  | inr (inl s) ↦ absurd (ground (arith, s, h))
  | inr (inr s) ↦
      let over = expiry-none r (elim s [
        | inl p ↦ ground (arith, p, h)
        | inr q ↦ elim q [ inl p ↦ ground (arith, p, h) | inr p ↦ ground (arith, p, h) ]
      ]) in
      (s, over.0, over.1)
]

ReadyAt-ReturnsAt : (rounds : ℕ → Round) (i k : ℕ) → ReadyAt rounds i k → ReturnsAt rounds i k none
ReadyAt-ReturnsAt rounds i zero h = rw h refl
ReadyAt-ReturnsAt rounds i (suc k) (on, at) =
    (GoesOn-none (rounds i) on, ReadyAt-ReturnsAt rounds (suc i) k at)

round_fine : (r : Round) → round_result r ≡ some none → r.state ≡ ready
round_fine r h = ground (arith, h)

wait-ReadyAt :
    (rounds : ℕ → Round) (n i : ℕ)
    → wait_for_gateway rounds n i ≡ none
    → (k : ℕ) × (k < n) × ReadyAt rounds i k
unfolding wait_for_gateway
wait-ReadyAt rounds zero i h = absurd (ground (arith, h))
wait-ReadyAt rounds (suc n) i h = elim (Option-cases (round_result (rounds i))) [
  | inl passed ↦
      let (k, below, at) = wait-ReadyAt rounds n (suc i) (ground (arith, passed, h)) in
      (suc k, omega arith, (none-GoesOn (rounds i) passed, at))
  | inr (r, returned) ↦ (0, omega arith, round_fine (rounds i) (ground (arith, returned, h)))
]

-- The wait ends without an error just when, below the bound, there is a round in which the channel
-- is ready, and in each round before it the channel is idle, connecting or in a transient failure,
-- the context is not done, and WaitForStateChange has seen a change.
pub wait_for_gateway-ReadyAt :
    (rounds : ℕ → Round) (n : ℕ)
    → (wait_for_gateway rounds n 0 ≡ none) ↔ ((k : ℕ) × (k < n) × ReadyAt rounds 0 k)
wait_for_gateway-ReadyAt rounds n = (
  (λ h. wait-ReadyAt rounds n 0 h),
  λ (k, below, at). wait-returns rounds n 0 k none below (ReadyAt-ReturnsAt rounds 0 k at),
)
