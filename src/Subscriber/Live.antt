-- ===== src/Subscriber/Live.antt =====
-- A pass of poll in which no event fails.
use invora_controller.Prelude.{ℕ, ◌≡◌, ◌≤◌, inl, inr, none, List, [], ◌∷◌, ◌++◌, arith, All}
use invora_controller.Subscriber.{Event, Server, Lib, SubscriberConfig}
use invora_controller.Subscriber.Handlers.{apply_event}
use invora_controller.Subscriber.Poll.{apply_events}
use invora_controller.Subscriber.Progress.{Ascending, Progress, apply_events-Progress}

All-right {ℓ κ} : {A : Type ℓ} (P : A → Type κ) (xs ys : List A) → All P (xs ++ ys) → All P ys
All-right P [] ys h = h
All-right P (x ∷ xs) ys (p, h) = All-right P xs ys h

All-nil {ℓ κ} : {A : Type ℓ} (P : A → Type κ) (xs : List A) → All P xs → All P (xs ++ [])
All-nil P [] h = tt
All-nil P (x ∷ xs) (p, h) = (p, All-nil P xs h)

module _ {S : Type 0} (lib : Lib) (server : Server S) (config : SubscriberConfig) where
  -- The handler of the event ends without an error, in whatever state it runs.
  abbrev pub Succeeds : Event → Type 0
  Succeeds ev = (s : S) → (apply_event lib server config ev s).0 ≡ none

  passes :
      (last_seq highest : ℕ) (events : List Event) (s final : S)
      → Progress lib server config last_seq highest events s final
      → All Succeeds events
      → All (λ ev. ev.sequence ≤ highest) events
  passes last_seq highest events s final p fine = elim p.stopped [
    | inl (ended, same) ↦
        rw (p.split, ended) (All-nil (λ ev. ev.sequence ≤ highest) p.gone p.passed)
    | inr (ev, rest, e, begins, failed, same) ↦
        let split : All Succeeds (p.gone ++ p.left) = rw p.split at fine in
        let kept : All Succeeds p.left = All-right Succeeds p.gone p.left split in
        let here : All Succeeds (ev ∷ rest) = rw begins at kept in
        absurd (ground (arith, failed, here.0 p.middle))
  ]

  -- A pass over a batch in ascending order whose events all are handled without an error takes the
  -- cursor to or past every event of the batch.
  pub apply_events-Succeeds :
      (last_seq : ℕ) (events : List Event) (s : S)
      → Ascending events
      → All Succeeds events
      → All
          (λ ev. ev.sequence ≤ (apply_events lib server config last_seq last_seq events s).0)
          events
  apply_events-Succeeds last_seq events s asc fine =
      passes last_seq _ events s _ (apply_events-Progress lib server config last_seq events s asc)
        fine
