-- ===== src/TapProviders/Targets.antt =====
-- Which provider a reconcile of tapprovider_controller.go writes.
use invora_controller.Prelude.{
  inl, inr, String, ◌≡◌, refl, arith, Option, Bool-cases, ◌==◌, eq_iff, id_or_empty, List, [], ◌∷◌,
  ◌++◌, if◌then◌else◌,
}
use invora_controller.Go.{Result, ok, err, Result-cases, ℤ, seconds}
use invora_controller.Api.{condition_synced}
use invora_controller.Resource.{set_success_status}
use invora_controller.Cluster.{Call, Conn, Headers, Env, rpcs}
use invora_controller.Base.{OrgContext, grpc_ctx, is_grpc_not_found}
use invora_controller.TapProviders.{
  TapProvider, TapRpc, TapService, State, tap_fields, CreateTapRequest, UpdateTapRequest,
  set_provider, choose_provider, update_tap_request, create_tap_request,
}
use invora_controller.TapProviders.Reconcile.{
  delete_twin, cleanup_platform_twin, fail_tap, finish_tap, store_and_clean, update_provider,
  create_provider, write_provider, sync_provider,
}

pub data TapWrite : Type 0 where
  creates : CreateTapRequest → TapWrite
  changes : UpdateTapRequest → TapWrite

-- The CreateTap and UpdateTap calls of a log, newest first, with their metadata.
abbrev pub writes_of : List (Option Conn × Headers × TapRpc) → List (Headers × TapWrite)
writes_of [] = []
writes_of ((conn, headers, TapRpc.create_tap q) ∷ qs) = (headers, creates q) ∷ writes_of qs
writes_of ((conn, headers, TapRpc.update_tap q) ∷ qs) = (headers, changes q) ∷ writes_of qs
writes_of (_ ∷ qs) = writes_of qs

abbrev pub writes : State → List (Headers × TapWrite)
writes l = writes_of (rpcs l)

choose_provider-found : (found stored : String) → choose_provider found stored ≡ found
unfolding choose_provider
choose_provider-found found stored =
    ground (arith, eq_iff found "", eq_iff stored "", eq_iff found stored)

module _ (svc : TapService) (env : Env TapProvider TapRpc) where
  writes-fail_tap :
      (tap : TapProvider) (type_name reason message : String) (delay : ℤ) (l : State)
      → writes (fail_tap svc env tap type_name reason message delay l).1 ≡ writes l
  unfolding fail_tap
  writes-fail_tap tap type_name reason message delay l = refl

  writes-cleanup :
      (orc : OrgContext) (code acting : String) (l : State)
      → writes (cleanup_platform_twin svc env orc code acting l).1 ≡ writes l
  unfolding cleanup_platform_twin delete_twin
  writes-cleanup orc code acting l = ground arith

  writes-store_and_clean :
      (orc : OrgContext) (code : String) (o : TapProvider) (l : State)
      → writes (store_and_clean svc env orc code o l).1 ≡ writes l
  unfolding store_and_clean
  writes-store_and_clean orc code o l =
      let l' : State = Call.update_status o ∷ l in
      elim (Result-cases (env.update_status l o)) [
        | inl (e, failed) ↦
            let same : (store_and_clean svc env orc code o l).1 ≡ l' = ground (arith, failed) in
            rw same refl
        | inr (stored, written) ↦
            let acting = stored.status.provider_id in
            let same : (store_and_clean svc env orc code o l).1
                ≡ (cleanup_platform_twin svc env orc code acting l').1 =
              ground (arith, written) in
            rw same (writes-cleanup orc code acting l')
      ]

  writes-finish_tap :
      (orc : OrgContext) (tap : TapProvider) (reason : String) (l : State)
      → writes (finish_tap svc env orc tap reason l).1 ≡ writes l
  unfolding finish_tap
  writes-finish_tap orc tap reason l =
      writes-store_and_clean orc tap.spec.code
        (set_success_status env tap_fields tap tap.meta.generation reason l).0 l

  writes-update_provider :
      (orc : OrgContext) (id : String) (tap : TapProvider) (l : State)
      → writes (update_provider svc env orc id tap l).1
        ≡ (grpc_ctx orc, changes (update_tap_request id tap)) ∷ writes l
  unfolding update_provider
  writes-update_provider orc id tap l =
      let q = update_tap_request id tap in
      let l' : State = Call.rpc orc.conn (grpc_ctx orc) (TapRpc.update_tap q) ∷ l in
      elim (Result-cases (svc.update q l')) [
        | inl (e, failed) ↦
            rw failed (writes-fail_tap tap condition_synced "UpdateFailed" e.text (seconds 30) l')
        | inr (w, answered) ↦ rw answered (writes-finish_tap orc (set_provider w tap) "InSync" l')
      ]

  writes-create_provider :
      (orc : OrgContext) (api_key : String) (tap : TapProvider) (l : State)
      → writes (create_provider svc env orc api_key tap l).1
        ≡ (grpc_ctx orc, creates (create_tap_request api_key tap)) ∷ writes l
  unfolding create_provider
  writes-create_provider orc api_key tap l =
      let q = create_tap_request api_key tap in
      let l' : State = Call.rpc orc.conn (grpc_ctx orc) (TapRpc.create_tap q) ∷ l in
      elim (Result-cases (svc.create q l')) [
        | inl (e, failed) ↦
            rw failed (writes-fail_tap tap condition_synced "CreateFailed" e.text (seconds 30) l')
        | inr (w, answered) ↦ rw answered (writes-finish_tap orc (set_provider w tap) "Created" l')
      ]

  -- What the writes are for an id that the code finds in the acting organization.
  abbrev pub written_for : OrgContext → String → String → TapProvider → Headers × TapWrite
  written_for orc api_key found tap =
      if found == ""
      then (grpc_ctx orc, creates (create_tap_request api_key tap))
      else (grpc_ctx orc, changes (update_tap_request found tap))

  writes-write_provider :
      (orc : OrgContext) (api_key found : String) (tap : TapProvider) (l : State)
      → writes (write_provider svc env orc api_key found tap l).1
        ≡ written_for orc api_key found tap ∷ writes l
  unfolding write_provider
  writes-write_provider orc api_key found tap l = elim (Bool-cases (found == "")) [
    | inl missing ↦
        rw (choose_provider-found found tap.status.provider_id, missing)
          (writes-create_provider orc api_key tap l)
    | inr known ↦
        rw (choose_provider-found found tap.status.provider_id, known)
          (writes-update_provider orc found tap l)
  ]

  -- What the sync does with an answer to the Get of the code.
  abbrev pub writes_after :
      OrgContext → String → TapProvider → Result (Option String) → List (Headers × TapWrite)
  writes_after orc api_key tap (ok found) = written_for orc api_key (id_or_empty found) tap ∷ []
  writes_after orc api_key tap (err e) =
      if is_grpc_not_found e then written_for orc api_key "" tap ∷ [] else []

  -- The sync of a Tap provider makes at most one write, whatever id is stored: UpdateTap of the id
  -- that the acting organization's Get of the code answered, CreateTap where the Get answered
  -- NotFound, no Tap provider or an empty id, and none after another error of the Get.
  pub writes-sync_provider :
      (orc : OrgContext) (api_key : String) (tap : TapProvider) (l : State)
      → writes (sync_provider svc env orc api_key tap l).1
        ≡ writes_after orc api_key tap (
            svc.get tap.spec.code
              (Call.rpc orc.conn (grpc_ctx orc) (TapRpc.get_provider tap.spec.code) ∷ l))
          ++ writes l
  unfolding sync_provider
  writes-sync_provider orc api_key tap l =
      let code = tap.spec.code in
      let l' : State = Call.rpc orc.conn (grpc_ctx orc) (TapRpc.get_provider code) ∷ l in
      elim (Result-cases (svc.get code l')) [
        | inr (found, answered) ↦
            rw answered (writes-write_provider orc api_key (id_or_empty found) tap l')
        | inl (e, failed) ↦ elim (Bool-cases (is_grpc_not_found e)) [
          | inl missing ↦ rw (failed, missing) (writes-write_provider orc api_key "" tap l')
          | inr other ↦
              rw (failed, other)
                (writes-fail_tap tap condition_synced "LookupFailed" e.text (seconds 30) l')
        ]
      ]
