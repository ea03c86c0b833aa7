-- ===== src/Subscriber/Progress.antt =====
-- What a pass of poll over a batch does with each event, and where it leaves the cursor.
use invora_controller.Prelude.{
  ℕ, ◌≡◌, ◌≤◌, ◌<◌, refl, ap, ◌⊎◌, inl, inr, false, none, some, List, [], ◌∷◌, ◌++◌, ◌==◌, eq_iff,
  arith, All, Bool-cases, Option-cases, leb,
}
use invora_controller.Go.{Error}
use invora_controller.Subscriber.{Event, Server, Lib, SubscriberConfig, advance}
use invora_controller.Subscriber.Handlers.{apply_event}
use invora_controller.Subscriber.Poll.{apply_events}

-- The events come in the strict order of their sequences, as Asc asks for.
abbrev pub Ascending : List Event → Type 0
Ascending [] = Unit
Ascending (ev ∷ events) = All (λ later. ev.sequence < later.sequence) events × Ascending events

-- The cursor has not passed an event that the pass will look at.
abbrev pub Ahead : ℕ → ℕ → Event → Type 0
Ahead last_seq highest ev = (ev.sequence ≤ last_seq) ⊎ (highest < ev.sequence)

Ahead-advance :
    (last_seq highest seq : ℕ) (events : List Event)
    → All (λ later. seq < later.sequence) events
    → All (Ahead last_seq highest) events
    → All (Ahead last_seq (advance highest seq)) events
unfolding advance
Ahead-advance last_seq highest seq [] later ahead = tt
Ahead-advance last_seq highest seq (ev ∷ events) (after, later) (h, ahead) = (
  elim h [ inl old ↦ inl old | inr new ↦ inr (ground arith) ],
  Ahead-advance last_seq highest seq events later ahead,
)

Ahead-start : (last_seq : ℕ) (events : List Event) → All (Ahead last_seq last_seq) events
Ahead-start last_seq [] = tt
Ahead-start last_seq (ev ∷ events) = (
  elim (Bool-cases (leb ev.sequence last_seq)) [
    | inl h ↦ inl (ground arith)
    | inr h ↦ inr (ground arith)
  ],
  Ahead-start last_seq events,
)

advance_le : (highest seq : ℕ) → (highest ≤ advance highest seq) × (seq ≤ advance highest seq)
unfolding advance
advance_le highest seq = (ground arith, ground arith)

module _ {S : Type 0} (lib : Lib) (server : Server S) (config : SubscriberConfig) where
  -- The events were gone through one after the other: each was old, or had no aggregate, or was
  -- applied without an error.
  pub data Applied (last_seq : ℕ) : List Event → S → S → Type 0 where
    done : {s : S} → Applied last_seq [] s s
    old :
        {ev : Event} {events : List Event} {s s' : S}
        → ev.sequence ≤ last_seq
        → Applied last_seq events s s'
        → Applied last_seq (ev ∷ events) s s'
    unnamed :
        {ev : Event} {events : List Event} {s s' : S}
        → ev.aggregate_id ≡ ""
        → Applied last_seq events s s'
        → Applied last_seq (ev ∷ events) s s'
    handled :
        {ev : Event} {events : List Event} {s s' : S}
        → (apply_event lib server config ev s).0 ≡ none
        → Applied last_seq events (apply_event lib server config ev s).1 s'
        → Applied last_seq (ev ∷ events) s s'

  -- A pass that started in a state, came to a cursor and ended in a state: the events up to a point
  -- were gone through, and there the batch ends or the next event fails. The cursor is at or past
  -- the events that were gone through, and before each event from there on that is not old.
  pub record Progress (last_seq highest : ℕ) (events : List Event) (s final : S) : Type 0 where
    pub gone : List Event
    pub left : List Event
    pub middle : S
    pub split : events ≡ gone ++ left
    pub applied : Applied last_seq gone s middle
    pub stopped :
        ((left ≡ []) × (final ≡ middle))
        ⊎ ((ev : Event) × (rest : List Event) × (e : Error) × (left ≡ ev ∷ rest)
            × ((apply_event lib server config ev middle).0 ≡ some e)
            × (final ≡ (apply_event lib server config ev middle).1))
    pub kept : All (Ahead last_seq highest) left
    pub passed : All (λ ev. ev.sequence ≤ highest) gone

  Progress-cons :
      (last_seq highest : ℕ) (ev : Event) (events : List Event) (s s' final : S)
      → ((gone : List Event) (middle : S)
          → Applied last_seq gone s' middle
          → Applied last_seq (ev ∷ gone) s middle)
      → ev.sequence ≤ highest
      → Progress last_seq highest events s' final
      → Progress last_seq highest (ev ∷ events) s final
  Progress-cons last_seq highest ev events s s' final step reached p = record {
    gone = ev ∷ p.gone;
    left = p.left;
    middle = p.middle;
    split = ap (λ r. ev ∷ r) p.split;
    applied = step p.gone p.middle p.applied;
    stopped = p.stopped;
    kept = p.kept;
    passed = (reached, p.passed);
  }

  pub apply_events-fine :
      (last_seq highest : ℕ) (ev : Event) (events : List Event) (s : S)
      → leb ev.sequence last_seq ≡ false
      → (ev.aggregate_id == "") ≡ false
      → (apply_event lib server config ev s).0 ≡ none
      → apply_events lib server config last_seq highest (ev ∷ events) s
        ≡ apply_events lib server config last_seq
            (advance highest ev.sequence)
            events
            (apply_event lib server config ev s).1
  unfolding apply_events
  apply_events-fine last_seq highest ev events s is_new has_id fine =
      ground (arith, is_new, has_id, fine)

  apply_events-failed :
      (last_seq highest : ℕ) (ev : Event) (events : List Event) (s : S)
      → leb ev.sequence last_seq ≡ false
      → (ev.aggregate_id == "") ≡ false
      → (e : Error) → (apply_event lib server config ev s).0 ≡ some e
      → apply_events lib server config last_seq highest (ev ∷ events) s
        ≡ (highest, (apply_event lib server config ev s).1)
  unfolding apply_events
  apply_events-failed last_seq highest ev events s is_new has_id e failed =
      ground (arith, is_new, has_id, failed)

  -- The loop never takes the cursor back.
  pub apply_events-advances :
      (last_seq highest : ℕ) (events : List Event) (s : S)
      → highest ≤ (apply_events lib server config last_seq highest events s).0
  unfolding apply_events
  apply_events-advances last_seq highest [] s = omega arith
  apply_events-advances last_seq highest (ev ∷ events) s =
      let up = advance_le highest ev.sequence in
      let highest' = advance highest ev.sequence in
      let r = apply_event lib server config ev s in
      elim (Bool-cases (leb ev.sequence last_seq)) [
        | inl is_old ↦ rw (apply_events, is_old) (apply_events-advances last_seq highest events s)
        | inr is_new ↦ elim (Bool-cases (ev.aggregate_id == "")) [
          | inl no_id ↦
              let rec = apply_events-advances last_seq highest' events s in
              rw (apply_events, is_new, no_id) (omega (arith, up, rec))
          | inr has_id ↦ elim (Option-cases r.0) [
            | inl fine ↦
                let rec = apply_events-advances last_seq highest' events r.1 in
                rw (apply_events-fine last_seq highest ev events s is_new has_id fine)
                  (omega (arith, up, rec))
            | inr (e, failed) ↦
                rw (apply_events-failed last_seq highest ev events s is_new has_id e failed)
                  (omega arith)
          ]
        ]
      ]

  apply_events-from :
      (last_seq highest : ℕ) (events : List Event) (s : S)
      → Ascending events
      → All (Ahead last_seq highest) events
      → last_seq ≤ highest
      → Progress last_seq
          (apply_events lib server config last_seq highest events s).0
          events
          s
          (apply_events lib server config last_seq highest events s).1
  unfolding apply_events
  apply_events-from last_seq highest [] s asc ahead low = record {
    gone = [];
    left = [];
    middle = s;
    split = refl;
    applied = done;
    stopped = inl (refl, refl);
    kept = tt;
    passed = tt;
  }
  apply_events-from last_seq highest (ev ∷ events) s (later, asc) (h, ahead) low =
      let up = advance_le highest ev.sequence in
      let ahead' = Ahead-advance last_seq highest ev.sequence events later ahead in
      let highest' = advance highest ev.sequence in
      let reach = λ (from : ℕ) (at : S). apply_events-advances last_seq from events at in
      elim (Bool-cases (leb ev.sequence last_seq)) [
        | inl is_old ↦
            let is_old_le : ev.sequence ≤ last_seq = ground arith in
            rw (apply_events, is_old)
              (Progress-cons last_seq _ ev events s s _ (λ gone m a. old is_old_le a)
                (omega (arith, is_old_le, reach highest s))
                (apply_events-from last_seq highest events s asc ahead low))
        | inr is_new ↦ elim (Bool-cases (ev.aggregate_id == "")) [
          | inl no_id ↦
              rw (apply_events, is_new, no_id)
                (Progress-cons last_seq _ ev events s s _
                  (λ gone m a. unnamed ((eq_iff ev.aggregate_id "").0 no_id) a)
                  (omega (arith, up, reach highest' s))
                  (apply_events-from last_seq highest' events s asc ahead' (omega (arith, up))))
          | inr has_id ↦
              let r = apply_event lib server config ev s in
              elim (Option-cases r.0) [
                | inl fine ↦
                    let e = apply_events-fine last_seq highest ev events s is_new has_id fine in
                    rw e (
                      Progress-cons last_seq _ ev events s r.1 _ (λ gone m a. handled fine a)
                        (omega (arith, up, reach highest' r.1))
                        (apply_events-from last_seq highest' events r.1 asc ahead'
                          (omega (arith, up))))
                | inr (e, failed) ↦
                    rw (apply_events-failed last_seq highest ev events s is_new has_id e failed)
                      (record {
                        gone = [];
                        left = ev ∷ events;
                        middle = s;
                        split = refl;
                        applied = done;
                        stopped = inr (ev, events, e, refl, failed, refl);
                        kept = (h, ahead);
                        passed = tt;
                      })
              ]
        ]
      ]

  -- The loop over a batch in ascending order, from the stored cursor, makes Progress.
  pub apply_events-Progress :
      (last_seq : ℕ) (events : List Event) (s : S)
      → Ascending events
      → Progress last_seq
          (apply_events lib server config last_seq last_seq events s).0
          events
          s
          (apply_events lib server config last_seq last_seq events s).1
  apply_events-Progress last_seq events s asc =
      apply_events-from last_seq last_seq events s asc (Ahead-start last_seq events) (omega arith)
