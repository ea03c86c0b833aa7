-- ===== src/Subscriber/CatchUp.antt =====
-- The subscriber catches up with the events of Zitadel.
use invora_controller.Prelude.{
  ℕ, zero, suc, ◌≡◌, ◌≤◌, ◌<◌, refl, sym, ap, ◌∙◌, false, Option, List, [], ◌∷◌, arith,
  if◌then◌else◌, leb, ltb, All, length,
}
use invora_controller.Go.{Error}
use invora_controller.Subscriber.{Event, Server, Lib, SubscriberConfig, advance}
use invora_controller.Subscriber.Token.{Crypto}
use invora_controller.Subscriber.Start.{AdminOptions, run_ticks}
use invora_controller.Subscriber.Directory.{Tenants}
use invora_controller.Subscriber.Progress.{Ascending}
use invora_controller.Subscriber.Replay.{latest, replay, changed_by}
use invora_controller.Subscriber.Follow.{Follows, Readable, HasCursor}
use invora_controller.Subscriber.Polls.{polled, run_ticks-polled}

-- The events above a sequence, and the first ones of a list.
abbrev pub newer : ℕ → List Event → List Event
newer n [] = []
newer n (ev ∷ events) = let rest = newer n events in if ltb n ev.sequence then ev ∷ rest else rest

abbrev pub take : ℕ → List Event → List Event
take zero events = []
take (suc k) [] = []
take (suc k) (ev ∷ events) = ev ∷ take k events

abbrev drop : ℕ → List Event → List Event
drop zero events = events
drop (suc k) [] = []
drop (suc k) (ev ∷ events) = drop k events

abbrev Above : ℕ → List Event → Type 0
Above n events = All (λ ev. n < ev.sequence) events

newer-Above : (n : ℕ) (events : List Event) → Above n (newer n events)
newer-Above n [] = tt
newer-Above n (ev ∷ events) = ground (arith, newer-Above n events)

newer_all : (n : ℕ) (events : List Event) → Above n events → newer n events ≡ events
newer_all n [] h = refl
newer_all n (ev ∷ events) (above, h) = ground (arith, newer_all n events h)

newer-newer : (m n : ℕ) (events : List Event) → m ≤ n → newer n (newer m events) ≡ newer n events
newer-newer m n [] le = refl
newer-newer m n (ev ∷ events) le = ground (arith, newer-newer m n events le)

All-newer :
    (P : Event → Type 0) (n : ℕ) (events : List Event) → All P events → All P (newer n events)
All-newer P n [] h = tt
All-newer P n (ev ∷ events) (one, h) = ground (arith, All-newer P n events h)

All-take : (P : Event → Type 0) (k : ℕ) (events : List Event) → All P events → All P (take k events)
All-take P zero events h = tt
All-take P (suc k) [] h = tt
All-take P (suc k) (ev ∷ events) (one, h) = (one, All-take P k events h)

newer-Ascending : (n : ℕ) (events : List Event) → Ascending events → Ascending (newer n events)
newer-Ascending n [] h = tt
newer-Ascending n (ev ∷ events) (later, h) = ground (
  arith,
  newer-Ascending n events h,
  All-newer (λ later_ev. ev.sequence < later_ev.sequence) n events later,
)

latest-le : (last_seq highest : ℕ) (events : List Event) → highest ≤ latest last_seq highest events
unfolding advance
latest-le last_seq highest [] = omega arith
latest-le last_seq highest (ev ∷ events) = ground (
  arith,
  latest-le last_seq (if leb ev.sequence last_seq then highest else advance highest ev.sequence)
      events,
)

-- The cursor after the first events of a list leaves the others.
newer-latest :
    (last_seq highest k : ℕ) (events : List Event)
    → Ascending events
    → Above last_seq events
    → Above highest events
    → newer (latest last_seq highest (take k events)) events ≡ drop k events
unfolding advance
newer-latest last_seq highest zero events asc above over = newer_all highest events over
newer-latest last_seq highest (suc k) [] asc above over = refl
newer-latest last_seq highest (suc k) (ev ∷ events) (later, asc) (high, above) (higher, over) =
    ground (
      arith,
      newer-latest last_seq ev.sequence k events asc above later,
      latest-le last_seq ev.sequence (take k events),
    )

length-drop-le : (k : ℕ) (events : List Event) → length (drop k events) ≤ length events
length-drop-le zero events = omega arith
length-drop-le (suc k) [] = omega arith
length-drop-le (suc k) (ev ∷ events) = omega (arith, length-drop-le k events)

length-drop :
    (k m : ℕ) (events : List Event) → 0 < k → length events ≤ suc m → length (drop k events) ≤ m
length-drop zero m events pos_k h = absurd (omega arith)
length-drop (suc k) m [] pos_k h = omega arith
length-drop (suc k) m (ev ∷ events) pos_k h = omega (arith, length-drop-le k events)

no_events : (events : List Event) → length events ≤ 0 → events ≡ []
no_events [] h = refl
no_events (ev ∷ events) h = absurd (omega arith)

module _ {S : Type 0} (lib : Lib) (server : Server S) (config : SubscriberConfig) where
  replay-Above :
      (last_seq : ℕ) (events : List Event) (t : Tenants)
      → Above last_seq events
      → replay lib server config last_seq events t ≡ replay lib server config 0 events t
  replay-Above last_seq [] t h = refl
  replay-Above last_seq (ev ∷ events) t (above, h) =
      let seen : leb ev.sequence last_seq ≡ false = ground arith in
      let first : leb ev.sequence 0 ≡ false = ground arith in
      rw (seen, first) (replay-Above last_seq events (changed_by lib server config ev t) h)

  replay-take :
      (k : ℕ) (events : List Event) (t : Tenants)
      → replay lib server config 0 (drop k events) (replay lib server config 0 (take k events) t)
        ≡ replay lib server config 0 events t
  replay-take zero events t = refl
  replay-take (suc k) [] t = refl
  replay-take (suc k) (ev ∷ events) t =
      replay-take k events (if leb ev.sequence 0 then t else changed_by lib server config ev t)

  module _ (log : List Event) (asc : Ascending log) (k : ℕ) (some_events : 0 < k) where
    abbrev answers : ℕ → List Event
    answers n = take k (newer n log)

    next-newer : (n : ℕ) → newer (latest n n (answers n)) log ≡ drop k (newer n log)
    next-newer n =
        sym (newer-newer n (latest n n (answers n)) log (latest-le n n (answers n)))
        ∙ newer-latest n n k (newer n log) (newer-Ascending n log asc) (newer-Above n log)
            (newer-Above n log)

    polled-newer :
        (rounds n : ℕ) (t : Tenants)
        → length (newer n log) ≤ rounds
        → let p = polled lib server config answers rounds (n, t) in
          (newer p.0 log ≡ []) × (p.1 ≡ replay lib server config 0 (newer n log) t)
    polled-newer zero n t enough =
        let none_left = no_events (newer n log) enough in (none_left, rw none_left refl)
    polled-newer (suc rounds) n t enough =
        let left = next-newer n in
        let t' = replay lib server config n (answers n) t in
        let first =
          replay-Above n (answers n) t
            (All-take (λ ev. n < ev.sequence) k (newer n log) (newer-Above n log)) in
        let rest =
          polled-newer rounds (latest n n (answers n)) t'
            (rw left (length-drop k rounds (newer n log) some_events enough)) in
        (
          rest.0,
          rest.1
              ∙ (ap (λ events. replay lib server config 0 events t') left
                  ∙ (ap (replay lib server config 0 (drop k (newer n log))) first
                      ∙ replay-take k (newer n log) t)),
        )

    -- Where Zitadel answers a poll with the first events above the cursor, up to some number, of a
    -- log in ascending order, the API server does not fail, no finalizer holds back a deleted
    -- organization, and the sequences are read back from their decimal text: as many polls as there
    -- are events above the stored cursor, or more, apply all of them, in order and each once, and
    -- leave no event above the cursor that they store.
    pub run_ticks-caught_up :
        (follows : Follows lib server config answers) {K : Type 0} (crypto : Crypto K)
        (new_client : AdminOptions K → Option Error)
        → All (λ ev. Readable lib server config answers follows ev.sequence) log
        → (rounds n : ℕ) (s : S) → Readable lib server config answers follows n
        → HasCursor lib server config answers follows n s
        → length (newer n log) ≤ rounds
        → let s' = (run_ticks lib server config crypto new_client rounds s).1 in
          (follows.orgs.tenants s'
            ≡ replay lib server config 0 (newer n log) (follows.orgs.tenants s))
          × (m : ℕ) × HasCursor lib server config answers follows m s'
          × (newer m log ≡ [])
    run_ticks-caught_up follows crypto new_client readable rounds n s is_readable has enough =
        let t = follows.orgs.tenants s in
        let (cursor, orgs) =
          run_ticks-polled lib server config answers follows crypto new_client
            (λ m. All-take _ k (newer m log) (All-newer _ m log readable)) rounds n t s is_readable
            has refl in
        let (none_left, whole) = polled-newer rounds n t enough in
        (orgs ∙ whole, (polled lib server config answers rounds (n, t)).0, cursor, none_left)
