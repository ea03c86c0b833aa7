-- ===== src/Connectivity.antt =====
-- internal/controller/grpc_connectivity.go: the wait for a gRPC channel to become ready.
-- A round of the wait loop is what the loop reads in it: the state of the channel, waitCtx.Err, and
-- the answer of WaitForStateChange. waitCtx always has a deadline, so one of finitely many rounds is
-- the last; `bound` is a number of rounds above it.
pub mod Rounds
use invora_controller.Prelude.{ℕ, zero, suc, String, Option, none, some}
use invora_controller.Go.{Error, errorf, wrap, Result, ok, err, M, ◌>>=◌, pure}
use invora_controller.Cluster.{Conn, Log, Env, close_conn}
use invora_controller.Gateway.{dial}

-- google.golang.org/grpc/connectivity
pub data ChannelState : Type 0 where
  idle connecting ready transient_failure shutdown : ChannelState

-- `expired` is waitCtx.Err; `unchanged` is none where WaitForStateChange answers true, and
-- waitCtx.Err where it answers false.
pub record Round : Type 0 where
  pub state : ChannelState
  pub expired : Option Error
  pub unchanged : Option Error

abbrev waiting : Error → Option (Option Error)
waiting e = some (some (wrap "waiting for gateway" e))

-- What the tests on the context return, if they return.
abbrev pub expiry : Round → Option (Option Error)
expiry r = elim r.expired [
  | some e ↦ waiting e
  | none ↦ elim r.unchanged [ some e ↦ waiting e | none ↦ none ]
]

-- What a round returns, if it returns.
abbrev pub round_result : Round → Option (Option Error)
round_result r = elim r.state [
  | ready ↦ some none
  | shutdown ↦ some (some (errorf "gateway connection shut down"))
  | _ ↦ expiry r
]

-- The loop, from a round on.
unfoldable pub wait_for_gateway : (ℕ → Round) → ℕ → ℕ → Option Error
wait_for_gateway rounds zero i = some (errorf "waiting for gateway")
wait_for_gateway rounds (suc n) i =
    let rest = wait_for_gateway rounds n (suc i) in
    elim (round_result (rounds i)) [ some r ↦ r | none ↦ rest ]

-- A channel by the rounds of its wait, and a number of them.
pub record Channel : Type 0 where
  pub rounds : ℕ → Round
  pub bound : ℕ

module _ {O Q : Type 0} (env : Env O Q) (channel : Log O Q → Conn → Channel) where
  unfoldable pub wait_on : Conn → Log O Q → Option Error
  wait_on conn l = let c = channel l conn in wait_for_gateway c.rounds c.bound 0

  -- The wait, and the deferred Close.
  unfoldable pub wait_and_close : Conn → M (Log O Q) (Option Error)
  wait_and_close conn l = let (_, l') = close_conn env conn l in (wait_on conn l, l')

  unfoldable pub check_gateway_connectivity : String → M (Log O Q) (Option Error)
  check_gateway_connectivity url = do
    dialled ← dial env url
    elim dialled [ err e ↦ pure (some e) | ok conn ↦ wait_and_close conn ]
