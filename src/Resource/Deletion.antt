-- ===== src/Resource/Deletion.antt =====
-- What handleGrpcDeletion keeps.
use invora_controller.Prelude.{
  ℕ, inl, inr, String, ◌≡◌, ◌∷◌, ◌==◌, ◌||◌, ◌&&◌, not, Option, arith, List, Bool-cases,
  Option-cases,
}
use invora_controller.Go.{Error, M}
use invora_controller.Api.{
  Cr, ResourceRef, condition_true, condition_deletion_blocked, Condition, deletion_policy_delete,
  deletion_policy_orphan,
}
use invora_controller.Cluster.{Call, Log, Env}
use invora_controller.Base.{OrgContext, Conditions, set_condition, is_grpc_not_found}
use invora_controller.Resource.{
  Dependencies, resolved, Dependencies-cases, resolve_org_dependencies, finish_deletion,
  handle_grpc_deletion, set_object_condition,
}

module _ {S T Q : Type 0} (env : Env (Cr S T) Q) (P : Log (Cr S T) Q → Type 0)
    (finish : (o : Cr S T) (l : Log (Cr S T) Q) → P l → P (finish_deletion env o l).1) (o : Cr S T)
    (ref : ResourceRef) (policy id : String) (conditions : Conditions T) (generation : ℕ)
    (delete_fn : OrgContext → M (Log (Cr S T) Q) (Option Error)) (l : Log (Cr S T) Q) where
  abbrev deps : (Dependencies × Cr S T) × Log (Cr S T) Q
  deps = resolve_org_dependencies env ref o conditions generation l

  -- What holds before, after the resolution, after the Delete and after a write of the conditions,
  -- and is kept by the removal of the finalizer, holds after the deletion.
  pub handle_grpc_deletion_keeps :
      P l
      → P deps.1
      → ((orc : OrgContext) → deps.0.0 ≡ resolved orc → P (delete_fn orc deps.1).1)
      → ((orc : OrgContext)
          → deps.0.0 ≡ resolved orc
          → (cs : List Condition)
          → P (
              Call.update_status
                (record (deps.0.1) { status = conditions.store cs deps.0.1.status })
              ∷ (delete_fn orc deps.1).1))
      → P (handle_grpc_deletion env o ref policy id conditions generation delete_fn l).1
  unfolding handle_grpc_deletion set_object_condition
  handle_grpc_deletion_keeps h resolving deleted blocked =
      elim (Bool-cases (policy == deletion_policy_orphan)) [
        | inl orphan ↦ rw orphan (finish o l h)
        | inr other ↦
            elim (Bool-cases
              ((policy == deletion_policy_delete || policy == "") && not (id == ""))) [
                | inr nothing ↦ rw (other, nothing) (finish o l h)
                | inl wanted ↦ elim (Dependencies-cases deps.0.0) [
                  | inl (result, p) ↦ rw (other, wanted) (ground (arith, p, resolving))
                  | inr (orc, p) ↦ elim (Option-cases (delete_fn orc deps.1).0) [
                    | inl gone ↦
                        rw (other, wanted)
                          (ground (
                            arith,
                            p,
                            gone,
                            finish deps.0.1 (delete_fn orc deps.1).1 (deleted orc p),
                          ))
                    | inr (e, failed) ↦ elim (Bool-cases (is_grpc_not_found e)) [
                      | inl missing ↦
                          rw (other, wanted)
                            (ground (
                              arith,
                              p,
                              failed,
                              missing,
                              finish deps.0.1 (delete_fn orc deps.1).1 (deleted orc p),
                            ))
                      | inr refused ↦
                          let cs =
                            (set_condition env (conditions.read deps.0.1.status)
                              condition_deletion_blocked condition_true "DeleteFailed" e.text
                              generation (delete_fn orc deps.1).1).0 in
                          rw (other, wanted) (ground (arith, p, failed, refused, blocked orc p cs))
                    ]
                  ]
                ]
              ]
      ]
