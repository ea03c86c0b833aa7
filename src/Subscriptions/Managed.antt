-- ===== src/Subscriptions/Managed.antt =====
-- The feature codes that a pass over the entitlements applies and remembers.
use Prim.Native.Char.{code}
use text.Mathlib.TextEquality.{Char-path}
use invora_controller.Prelude.{
  ℕ, String, ◌≡◌, refl, ◌∙◌, ◌⊎◌, inl, inr, true, false, none, List, [], ◌∷◌, arith, All,
  Bool-cases, contains, ◌||◌, ◌==◌, eq_iff, eq_refl, codes, codes_before,
}
use invora_controller.Cluster.{Call, rpcs}
use invora_controller.Base.{OrgContext, grpc_ctx}
use invora_controller.Subscriptions.{
  Subscription, SubscriptionService, SubscriptionEntitlement, State, upsert_entitlement,
  remove_entitlement,
}
use invora_controller.Subscriptions.Features.{
  feature_codes, upsert_entitlements, prune_entitlements, prune_dropped, reconcile_entitlements,
  set_managed_codes, insert_code, managed_codes,
}
use invora_controller.Subscriptions.Entitlements.{applied, removed, listing, prune_dropped-cases}

codes_before-total : (s t : List ℕ) → codes_before s t ≡ false → codes_before t s ≡ false → s ≡ t
unfolding codes_before
codes_before-total [] [] h k = refl
codes_before-total [] (d ∷ t) h k = absurd (ground arith)
codes_before-total (c ∷ s) [] h k = absurd (ground arith)
codes_before-total (c ∷ s) (d ∷ t) h k = ground (arith, codes_before-total s t)

codes_injective : (s t : String) → codes s ≡ codes t → s ≡ t
codes_injective String.[] String.[] h = refl
codes_injective String.[] (String.◌∷◌ d t) h = absurd (ground (arith, h))
codes_injective (String.◌∷◌ c s) String.[] h = absurd (ground (arith, h))
codes_injective (String.◌∷◌ c s) (String.◌∷◌ d t) h =
    let same_head : c ≡ d = Char-path c d (ground (arith, h)) in
    let same_tail : s ≡ t = codes_injective s t (ground (arith, h)) in
    rw (same_head, same_tail) refl

-- The first text of a list, if any, comes after a text.
abbrev After : String → List String → Type 0
After c [] = Unit
After c (d ∷ _) = codes_before (codes c) (codes d) ≡ true

-- A list in the strict order of sort.Strings.
abbrev pub IsSorted : List String → Type 0
IsSorted [] = Unit
IsSorted (c ∷ cs) = After c cs × IsSorted cs

After-insert_code :
    (d c : String) (cs : List String)
    → codes_before (codes d) (codes c) ≡ true
    → After d cs
    → After d (insert_code c cs)
unfolding insert_code
After-insert_code d c [] h after = h
After-insert_code d c (b ∷ cs) h after = ground (arith, h, after)

insert_code-IsSorted : (c : String) (cs : List String) → IsSorted cs → IsSorted (insert_code c cs)
unfolding insert_code
insert_code-IsSorted c [] sorted = (tt, tt)
insert_code-IsSorted c (d ∷ cs) (after, sorted) = elim (Bool-cases (c == d)) [
  | inl same ↦ rw (insert_code, same) (after, sorted)
  | inr other ↦ elim (Bool-cases (codes_before (codes c) (codes d))) [
    | inl first ↦ rw (insert_code, other, first) (first, (after, sorted))
    | inr later ↦
        let before : codes_before (codes d) (codes c) ≡ true =
          elim (Bool-cases (codes_before (codes d) (codes c))) [
            | inl first ↦ first
            | inr neither ↦
                let e =
                  codes_injective c d (codes_before-total (codes c) (codes d) later neither) in
                absurd (ground (arith, e, other, eq_iff c d))
          ] in
        rw (insert_code, other, later)
          (After-insert_code d c cs before after, insert_code-IsSorted c cs sorted)
  ]
]

managed_codes-IsSorted : (cs : List String) → IsSorted (managed_codes cs)
unfolding managed_codes
managed_codes-IsSorted [] = tt
managed_codes-IsSorted (c ∷ cs) =
    insert_code-IsSorted c (managed_codes cs) (managed_codes-IsSorted cs)

contains-insert_code :
    (c b : String) (cs : List String) → contains (insert_code c cs) b ≡ (c == b || contains cs b)
unfolding insert_code
contains-insert_code c b [] = refl
contains-insert_code c b (d ∷ cs) = ground (arith, contains-insert_code c b cs, eq_iff c d)

contains-managed_codes :
    (b : String) (cs : List String) → contains (managed_codes cs) b ≡ contains cs b
unfolding managed_codes
contains-managed_codes b [] = refl
contains-managed_codes b (c ∷ cs) =
    ground (arith, contains-insert_code c b (managed_codes cs), contains-managed_codes b cs)

-- The texts in the reverse order, before others.
abbrev pub reverse_onto : List String → List String → List String
reverse_onto [] others = others
reverse_onto (c ∷ cs) others = reverse_onto cs (c ∷ others)

-- A remote feature is declared, or was granted by others, or was removed.
abbrev pub IsSettled : List String → List String → List String → String → Type 0
IsSettled desired managed gone code =
    (contains desired code ≡ true) ⊎ ((contains managed code ≡ false) ⊎ (contains gone code ≡ true))

module _ (svc : SubscriptionService) where
  applied-upsert_entitlements :
      (orc : OrgContext) (id : String) (entitlements : List SubscriptionEntitlement) (l : State)
      → (upsert_entitlements svc orc id entitlements l).0 ≡ none
      → applied (rpcs (upsert_entitlements svc orc id entitlements l).1)
        ≡ reverse_onto (feature_codes entitlements) (applied (rpcs l))
  unfolding upsert_entitlements
  applied-upsert_entitlements orc id [] l h = refl
  applied-upsert_entitlements orc id (e ∷ es) l h =
      let l1 : State = Call.rpc orc.conn (grpc_ctx orc) (upsert_entitlement id e) ∷ l in
      ground (arith, h, applied-upsert_entitlements orc id es l1)

  applied-prune_entitlements :
      (orc : OrgContext) (id : String) (desired managed remote : List String) (l : State)
      → applied (rpcs (prune_entitlements svc orc id desired managed remote l).1) ≡ applied (rpcs l)
  unfolding prune_entitlements
  applied-prune_entitlements orc id desired managed [] l = refl
  applied-prune_entitlements orc id desired managed (code ∷ remote) l =
      let l1 : State = Call.rpc orc.conn (grpc_ctx orc) (remove_entitlement id code) ∷ l in
      ground (
        arith,
        applied-prune_entitlements orc id desired managed remote l,
        applied-prune_entitlements orc id desired managed remote l1,
      )

  applied-prune_dropped :
      (orc : OrgContext) (sub : Subscription) (l : State)
      → applied (rpcs (prune_dropped svc orc sub l).1) ≡ applied (rpcs l)
  applied-prune_dropped orc sub l = elim (prune_dropped-cases svc orc sub l) [
    | inl same ↦ rw same refl
    | inr (inl (e, same)) ↦ rw same refl
    | inr (inr (remote, same)) ↦ rw same (
        applied-prune_entitlements orc sub.status.external_id (feature_codes sub.spec.entitlements)
          sub.status.managed_entitlement_codes remote (listing orc sub l))
  ]

  -- A pass over the entitlements that ends without an error has applied every declared feature, in
  -- the declared order, and remembers exactly the declared features, in the order of sort.Strings.
  pub reconcile_entitlements-success :
      (orc : OrgContext) (sub : Subscription) (l : State)
      → (reconcile_entitlements svc orc sub l).0.0 ≡ none
      → (applied (rpcs (reconcile_entitlements svc orc sub l).1)
          ≡ reverse_onto (feature_codes sub.spec.entitlements) (applied (rpcs l)))
        × IsSorted (reconcile_entitlements svc orc sub l).0.1.status.managed_entitlement_codes
        × ((code : String)
            → contains
                (reconcile_entitlements svc orc sub l).0.1.status.managed_entitlement_codes
                code
              ≡ contains (feature_codes sub.spec.entitlements) code)
  unfolding reconcile_entitlements
  reconcile_entitlements-success orc sub l h =
      let r = upsert_entitlements svc orc sub.status.external_id sub.spec.entitlements l in
      let p = prune_dropped svc orc sub r.1 in
      let declared = feature_codes sub.spec.entitlements in
      let fine : r.0 ≡ none = ground (arith, h) in
      let same : reconcile_entitlements svc orc sub l ≡ ((none, set_managed_codes sub), p.1) =
        ground (arith, h, fine) in
      (
        rw same (
            applied-prune_dropped orc sub r.1
            ∙ applied-upsert_entitlements orc sub.status.external_id sub.spec.entitlements l fine),
        rw same (managed_codes-IsSorted declared),
        λ code. rw same (contains-managed_codes code declared),
      )

  removed-grows :
      (orc : OrgContext) (id : String) (desired managed remote : List String) (l : State)
      (code : String)
      → contains (removed (rpcs l)) code ≡ true
      → contains (removed (rpcs (prune_entitlements svc orc id desired managed remote l).1)) code
        ≡ true
  unfolding prune_entitlements
  removed-grows orc id desired managed [] l code h = h
  removed-grows orc id desired managed (c ∷ remote) l code h =
      let l1 : State = Call.rpc orc.conn (grpc_ctx orc) (remove_entitlement id c) ∷ l in
      ground (
        arith,
        removed-grows orc id desired managed remote l code h,
        removed-grows orc id desired managed remote l1 code,
      )

  -- A prune that ends without an error has settled every remote feature: it is declared, or was not
  -- applied by the resource, or is removed.
  pub prune_entitlements-IsSettled :
      (orc : OrgContext) (id : String) (desired managed remote : List String) (l : State)
      → (prune_entitlements svc orc id desired managed remote l).0 ≡ none
      → All
          (IsSettled desired managed
            (removed (rpcs (prune_entitlements svc orc id desired managed remote l).1)))
          remote
  unfolding prune_entitlements
  prune_entitlements-IsSettled orc id desired managed [] l h = tt
  prune_entitlements-IsSettled orc id desired managed (code ∷ remote) l h =
      let l1 : State = Call.rpc orc.conn (grpc_ctx orc) (remove_entitlement id code) ∷ l in
      let gone =
        removed (rpcs (prune_entitlements svc orc id desired managed (code ∷ remote) l).1) in
      elim (Bool-cases (contains desired code)) [
        | inl wanted ↦
            let same : prune_entitlements svc orc id desired managed (code ∷ remote) l
                ≡ prune_entitlements svc orc id desired managed remote l =
              ground (arith, wanted) in
            let rest : All (IsSettled desired managed gone) remote = rw same (
              prune_entitlements-IsSettled orc id desired managed remote l
                (ground (arith, h, same))) in
            (inl wanted, rest)
        | inr dropped ↦ elim (Bool-cases (contains managed code)) [
          | inr foreign ↦
              let same : prune_entitlements svc orc id desired managed (code ∷ remote) l
                  ≡ prune_entitlements svc orc id desired managed remote l =
                ground (arith, dropped, foreign) in
              let rest : All (IsSettled desired managed gone) remote = rw same (
                prune_entitlements-IsSettled orc id desired managed remote l
                  (ground (arith, h, same))) in
              (inr (inl foreign), rest)
          | inl ours ↦
              let same : prune_entitlements svc orc id desired managed (code ∷ remote) l
                  ≡ prune_entitlements svc orc id desired managed remote l1 =
                ground (arith, dropped, ours, h) in
              let rest : All (IsSettled desired managed gone) remote = rw same (
                prune_entitlements-IsSettled orc id desired managed remote l1
                  (ground (arith, h, same))) in
              let went : contains gone code ≡ true =
                rw same
                  (removed-grows orc id desired managed remote l1 code (rw (eq_refl code) refl)) in
              (inr (inr went), rest)
        ]
      ]
