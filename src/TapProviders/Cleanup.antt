-- ===== src/TapProviders/Cleanup.antt =====
-- The clean-up after a write of tapprovider_controller.go, and the Delete calls that it makes.
use invora_controller.Prelude.{
  inl, inr, String, ◌≡◌, refl, ◌≢◌, ap, ◌∙◌, ◌⊎◌, arith, Option, none, some, Bool-cases, ◌==◌, ◌||◌,
  eq_iff, List, [], ◌∷◌,
}
use invora_controller.Go.{ok, Result-cases, ℤ}
use invora_controller.Cluster.{Call, Conn, Headers, Env, rpcs}
use invora_controller.Base.{OrgContext, success_result, home_grpc_ctx}
use invora_controller.Resource.{set_success_status}
use invora_controller.TapProviders.{TapProvider, TapRpc, TapService, State, tap_fields}
use invora_controller.TapProviders.Reconcile.{
  delete_twin, cleanup_platform_twin, fail_tap, finish_tap, store_and_clean,
}

-- The Delete calls of a log, newest first.
abbrev pub deletes_of :
    List (Option Conn × Headers × TapRpc) → List (Option Conn × Headers × String)
deletes_of [] = []
deletes_of ((conn, headers, TapRpc.delete_provider id) ∷ qs) = (conn, headers, id) ∷ deletes_of qs
deletes_of (_ ∷ qs) = deletes_of qs

abbrev pub deletes : State → List (Option Conn × Headers × String)
deletes l = deletes_of (rpcs l)

module _ (svc : TapService) (env : Env TapProvider TapRpc) where
  -- The last call is the Delete, through the connection of an organization that is a tenant, with the
  -- metadata of the home organization, of a provider with a nonempty id that is not the given one.
  abbrev pub DeletesOther : OrgContext → String → State → State → Type 0
  DeletesOther orc acting before l =
      (twin : String) × (orc.org_id ≢ "")
      × (acting ≢ "")
      × (twin ≢ "")
      × (twin ≢ acting)
      × (deletes l ≡ (orc.conn, home_grpc_ctx orc, twin) ∷ deletes before)

  -- The same, where the given id is the one in the status that the API server has stored.
  abbrev pub DeletesTwin : OrgContext → State → State → Type 0
  DeletesTwin orc before l =
      (o : TapProvider) × (stored : TapProvider) × (at : State) × (env.update_status at o
        ≡ ok stored)
      × DeletesOther orc stored.status.provider_id before l

  deletes-delete_twin :
      (orc : OrgContext) (acting twin : String) (l : State)
      → orc.org_id ≢ ""
      → acting ≢ ""
      → (deletes (delete_twin svc env orc acting twin l).1 ≡ deletes l)
        ⊎ DeletesOther orc acting l (delete_twin svc env orc acting twin l).1
  unfolding delete_twin
  deletes-delete_twin orc acting twin l tenant known =
      elim (Bool-cases (twin == "" || twin == acting)) [
        | inl guarded ↦ inl (rw guarded refl)
        | inr other ↦ inr (
          twin,
          tenant,
          known,
          ground (arith, other, eq_iff twin ""),
          ground (arith, other, eq_iff twin acting),
          rw other refl,
        )
      ]

  deletes-cleanup :
      (orc : OrgContext) (code acting : String) (l : State)
      → (deletes (cleanup_platform_twin svc env orc code acting l).1 ≡ deletes l)
        ⊎ DeletesOther orc acting l (cleanup_platform_twin svc env orc code acting l).1
  unfolding cleanup_platform_twin
  deletes-cleanup orc code acting l = elim (Bool-cases (orc.org_id == "" || acting == "")) [
    | inl guarded ↦ inl (rw guarded refl)
    | inr tenant ↦
        let l' : State = Call.rpc orc.conn (home_grpc_ctx orc) (TapRpc.get_provider code) ∷ l in
        elim (Result-cases (svc.get code l')) [
          | inl (e, failed) ↦ inl (rw (tenant, failed) refl)
          | inr (none, found) ↦ inl (rw (tenant, found) refl)
          | inr (some twin, found) ↦
              let same : (cleanup_platform_twin svc env orc code acting l).1
                  ≡ (delete_twin svc env orc acting twin l').1 =
                rw (tenant, found) refl in
              rw same (
                deletes-delete_twin orc acting twin l'
                  (ground (arith, tenant, eq_iff orc.org_id ""))
                  (ground (arith, tenant, eq_iff acting "")))
        ]
  ]

  abbrev pub Kept : OrgContext → State → State → Type 0
  Kept orc before l = (deletes l ≡ deletes before) ⊎ DeletesTwin orc before l

  pub Kept-from : (orc : OrgContext) (l m r : State) → rpcs m ≡ rpcs l → Kept orc m r → Kept orc l r
  Kept-from orc l m r same (inl kept) = inl (kept ∙ ap deletes_of same)
  Kept-from orc l m r same
        (inr (o, stored, at, written, (twin, tenant, known, some_twin, other, added))) =
      inr (
        o,
        stored,
        at,
        written,
        (
          twin,
          tenant,
          known,
          some_twin,
          other,
          added ∙ ap (λ qs. (orc.conn, home_grpc_ctx orc, twin) ∷ deletes_of qs) same,
        ),
      )

  pub deletes-fail_tap :
      (tap : TapProvider) (type_name reason message : String) (delay : ℤ) (l : State)
      → deletes (fail_tap svc env tap type_name reason message delay l).1 ≡ deletes l
  unfolding fail_tap
  deletes-fail_tap tap type_name reason message delay l = refl

  deletes-store_and_clean :
      (orc : OrgContext) (code : String) (o : TapProvider) (l : State)
      → Kept orc l (store_and_clean svc env orc code o l).1
  unfolding store_and_clean success_result
  deletes-store_and_clean orc code o l = elim (Result-cases (env.update_status l o)) [
    | inl (e, failed) ↦
        let same : (store_and_clean svc env orc code o l).1 ≡ Call.update_status o ∷ l =
          ground (arith, failed) in
        inl (rw same refl)
    | inr (stored, written) ↦
        let acting = stored.status.provider_id in
        let l' : State = Call.update_status o ∷ l in
        let same : (store_and_clean svc env orc code o l).1
            ≡ (cleanup_platform_twin svc env orc code acting l').1 =
          ground (arith, written) in
        elim (deletes-cleanup orc code acting l') [
          | inl kept ↦ inl (rw same kept)
          | inr twin ↦ inr (o, stored, l, written, rw same twin)
        ]
  ]

  pub deletes-finish_tap :
      (orc : OrgContext) (tap : TapProvider) (reason : String) (l : State)
      → Kept orc l (finish_tap svc env orc tap reason l).1
  unfolding finish_tap
  deletes-finish_tap orc tap reason l =
      deletes-store_and_clean orc tap.spec.code
        (set_success_status env tap_fields tap tap.meta.generation reason l).0 l
