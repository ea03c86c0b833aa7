-- ===== src/Resource/Quiet.antt =====
-- The shared steps that call no gateway service: they leave the log's RPC calls as they were.
use invora_controller.Prelude.{ℕ, String, ◌≡◌, arith}
use invora_controller.Api.{ResourceRef, Cr}
use invora_controller.Cluster.{Log, Env, rpcs, updates}
use invora_controller.Base.{Conditions}
use invora_controller.Gateway.{dial, resolve_secret_value}
use invora_controller.Resource.{ensure_finalizer, resolve_org_dependencies, finish_deletion}

module _ {O Q : Type 0} (env : Env O Q) where
  pub rpcs-dial : (url : String) (l : Log O Q) → rpcs (dial env url l).1 ≡ rpcs l
  unfolding dial
  rpcs-dial url l = ground arith

  pub rpcs-resolve_secret_value :
      (name namespace key owner : String) (l : Log O Q)
      → rpcs (resolve_secret_value env name namespace key owner l).1 ≡ rpcs l
  unfolding resolve_secret_value
  rpcs-resolve_secret_value name namespace key owner l = ground arith

  pub updates-dial : (url : String) (l : Log O Q) → updates (dial env url l).1 ≡ updates l
  unfolding dial
  updates-dial url l = ground arith

  pub updates-resolve_secret_value :
      (name namespace key owner : String) (l : Log O Q)
      → updates (resolve_secret_value env name namespace key owner l).1 ≡ updates l
  unfolding resolve_secret_value
  updates-resolve_secret_value name namespace key owner l = ground arith

module _ {S T Q : Type 0} (env : Env (Cr S T) Q) where
  pub rpcs-resolve_org_dependencies :
      (org_ref : ResourceRef) (o : Cr S T) (conditions : Conditions T) (generation : ℕ)
      (l : Log (Cr S T) Q)
      → rpcs (resolve_org_dependencies env org_ref o conditions generation l).1 ≡ rpcs l
  unfolding resolve_org_dependencies
  rpcs-resolve_org_dependencies org_ref o conditions generation l = ground arith

  pub updates-resolve_org_dependencies :
      (org_ref : ResourceRef) (o : Cr S T) (conditions : Conditions T) (generation : ℕ)
      (l : Log (Cr S T) Q)
      → updates (resolve_org_dependencies env org_ref o conditions generation l).1 ≡ updates l
  unfolding resolve_org_dependencies
  updates-resolve_org_dependencies org_ref o conditions generation l = ground arith

  pub rpcs-ensure_finalizer :
      (o : Cr S T) (l : Log (Cr S T) Q) → rpcs (ensure_finalizer env o l).1 ≡ rpcs l
  unfolding ensure_finalizer
  rpcs-ensure_finalizer o l = ground arith

  pub rpcs-finish_deletion :
      (o : Cr S T) (l : Log (Cr S T) Q) → rpcs (finish_deletion env o l).1 ≡ rpcs l
  unfolding finish_deletion
  rpcs-finish_deletion o l = ground arith
