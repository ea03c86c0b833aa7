-- ===== src/Subscriber/Polls.antt =====
-- A series of polls, against the events of Zitadel that are left.
use invora_controller.Prelude.{
  ℕ, zero, suc, inl, inr, ◌≡◌, ◌≤◌, refl, ap, ◌∙◌, Option, none, List, [], ◌∷◌, arith,
  if◌then◌else◌, leb, ltb, All, Bool-cases,
}
use mathlib.Core.Path.{subst}
use invora_controller.Go.{Error}
use invora_controller.Subscriber.{Event, Server, Lib, SubscriberConfig, advance}
use invora_controller.Subscriber.Poll.{
  apply_events, poll, read_state, state_name, list_request, write_state_if_advanced,
}
use invora_controller.Subscriber.Token.{Crypto}
use invora_controller.Subscriber.Start.{AdminOptions, run_ticks}
use invora_controller.Subscriber.Directory.{Tenants}
use invora_controller.Subscriber.Progress.{apply_events-advances}
use invora_controller.Subscriber.Replay.{latest, replay, apply_events-replay}
use invora_controller.Subscriber.Follow.{
  Follows, Readable, HasCursor, read_state-HasCursor, read_state-state, write_state-HasCursor,
  map-apply_events,
}

module _ {S : Type 0} (lib : Lib) (server : Server S) (config : SubscriberConfig)
    (answers : ℕ → List Event) where
  -- A series of polls, as a pair of the cursor and the organizations.
  abbrev pub polled : ℕ → ℕ × Tenants → ℕ × Tenants
  polled zero p = p
  polled (suc rounds) (n, t) =
      polled rounds (latest n n (answers n), replay lib server config n (answers n) t)

module _ {S : Type 0} (lib : Lib) (server : Server S) (config : SubscriberConfig)
    (answers : ℕ → List Event) (follows : Follows lib server config answers) where
  HasCursor-same :
      (n : ℕ) (s s' : S)
      → follows.held_map s' ≡ follows.held_map s
      → HasCursor lib server config answers follows n s
      → HasCursor lib server config answers follows n s'
  HasCursor-same n s s' same (inl (nothing, is_zero)) = inl (same ∙ nothing, is_zero)
  HasCursor-same n s s' same (inr (cm, held, is_n)) = inr (cm, same ∙ held, is_n)

  write_state_if_advanced-HasCursor :
      (prev next : ℕ) (s : S)
      → prev ≤ next
      → HasCursor lib server config answers follows prev s
      → let r = write_state_if_advanced lib server config prev next s in
        (r.0 ≡ none)
        × HasCursor lib server config answers follows next r.1
        × (follows.orgs.tenants r.1 ≡ follows.orgs.tenants s)
  unfolding write_state_if_advanced
  write_state_if_advanced-HasCursor prev next s up has = elim (Bool-cases (leb next prev)) [
    | inr higher ↦ rw higher (write_state-HasCursor lib server config answers follows next s)
    | inl not_higher ↦
        let same : prev ≡ next = ground arith in
        rw not_higher
          (refl, subst (λ n. HasCursor lib server config answers follows n s) same has, refl)
  ]

  next-Readable :
      (last_seq highest : ℕ) (ev : Event)
      → Readable lib server config answers follows highest
      → Readable lib server config answers follows ev.sequence
      → Readable lib server config answers follows
          (if leb ev.sequence last_seq then highest else advance highest ev.sequence)
  unfolding advance
  next-Readable last_seq highest ev h one = elim (Bool-cases (leb ev.sequence last_seq)) [
    | inl seen ↦ rw seen h
    | inr new ↦ elim (Bool-cases (ltb highest ev.sequence)) [
      | inl higher ↦ rw (new, higher) one
      | inr not_higher ↦ rw (new, not_higher) h
    ]
  ]

  -- A poll ends with no error, applies the events that Zitadel answers for the cursor, and leaves the
  -- highest of their sequences as the cursor.
  pub poll-HasCursor :
      (n : ℕ) (s : S)
      → Readable lib server config answers follows n
      → HasCursor lib server config answers follows n s
      → let r = poll lib server config s in
        (r.0 ≡ none)
        × HasCursor lib server config answers follows (latest n n (answers n)) r.1
        × (follows.orgs.tenants r.1
            ≡ replay lib server config n (answers n) (follows.orgs.tenants s))
  unfolding poll
  poll-HasCursor n s readable has =
      let read = (read_state lib server config s).1 in
      let got = read_state-HasCursor lib server config answers follows n s readable has in
      let (map_read, orgs_read) = follows.gets_map (state_name lib server config) s in
      let (answered, map_listed, orgs_listed) = follows.lists n read in
      let listed = (server.list_events (list_request lib server config n) read).1 in
      let (reached, applied) =
        apply_events-replay lib server config follows.orgs n n (answers n) listed in
      let final = (apply_events lib server config n n (answers n) listed).1 in
      let kept = map-apply_events lib server config answers follows n n (answers n) listed in
      let up = apply_events-advances lib server config n n (answers n) listed in
      let at_read = read_state-state lib server config answers follows s in
      let same = kept ∙ (map_listed ∙ (ap follows.held_map at_read ∙ map_read)) in
      let start = orgs_listed ∙ (ap follows.orgs.tenants at_read ∙ orgs_read) in
      let whole =
        write_state_if_advanced-HasCursor n (latest n n (answers n)) final (rw (← reached) up)
          (HasCursor-same n s final same has) in
      let run : poll lib server config s
          ≡ write_state_if_advanced lib server config n (latest n n (answers n)) final =
        ground (arith, got, answered, reached) in
      rw run
        (whole.0, whole.1, whole.2 ∙ (applied ∙ ap (replay lib server config n (answers n)) start))

  latest-Readable :
      (last_seq highest : ℕ) (events : List Event)
      → Readable lib server config answers follows highest
      → All (λ ev. Readable lib server config answers follows ev.sequence) events
      → Readable lib server config answers follows (latest last_seq highest events)
  latest-Readable last_seq highest [] h all = h
  latest-Readable last_seq highest (ev ∷ events) h (one, all) =
      latest-Readable last_seq
        (if leb ev.sequence last_seq then highest else advance highest ev.sequence) events
        (next-Readable last_seq highest ev h one) all

  module _ {K : Type 0} (crypto : Crypto K) (new_client : AdminOptions K → Option Error)
      (readable : (n : ℕ)
        → All (λ ev. Readable lib server config answers follows ev.sequence) (answers n)) where
    -- The polls of the ticks, one after the other, take the cursor and the organizations to where
    -- the answers of Zitadel take them.
    pub run_ticks-polled :
        (rounds n : ℕ) (t : Tenants) (s : S)
        → Readable lib server config answers follows n
        → HasCursor lib server config answers follows n s
        → follows.orgs.tenants s ≡ t
        → let s' = (run_ticks lib server config crypto new_client rounds s).1 in
          HasCursor lib server config answers follows
            (polled lib server config answers rounds (n, t)).0
            s'
          × (follows.orgs.tenants s' ≡ (polled lib server config answers rounds (n, t)).1)
    unfolding run_ticks
    run_ticks-polled zero n t s is_readable has same = (has, same)
    run_ticks-polled (suc rounds) n t s is_readable has same =
        let (fine, has', applied) = poll-HasCursor n s is_readable has in
        run_ticks-polled rounds (latest n n (answers n)) (replay lib server config n (answers n) t)
          (poll lib server config s).1 (latest-Readable n n (answers n) is_readable (readable n))
          has' (applied ∙ ap (replay lib server config n (answers n)) same)
