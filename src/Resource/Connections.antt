-- ===== src/Resource/Connections.antt =====
-- The connections that resolveOrgDependencies opens.
use invora_controller.Prelude.{ℕ, suc, ◌+◌, inl, inr, String, ◌≡◌, some, ◌∷◌, [], arith, Bool-cases}
use invora_controller.Go.{ok, err, Result-cases}
use invora_controller.Api.{NamespacedName, ResourceRef, Cr}
use invora_controller.Cluster.{Conn, Call, Kind, Log, Env, open_conns}
use invora_controller.Base.{Conditions, OrgContext, or_namespace, is_ready}
use invora_controller.Gateway.{dial, resolve_secret_value}
use invora_controller.Resource.{resolved, resolve_org_dependencies}

-- How many connections grpc.NewClient has answered in a log.
abbrev pub opened : {O Q : Type 0} → Env O Q → Log O Q → ℕ
opened env [] = 0
opened env (Call.new_client target tls ∷ l) =
    let n = opened env l in elim (env.new_client l target tls) [ ok _ ↦ suc n | err _ ↦ n ]
opened env (_ ∷ l) = opened env l

module _ {S T Q : Type 0} (env : Env (Cr S T) Q) where
  -- Two logs between which every connection that is opened stays open.
  abbrev pub LeavesOpen : Log (Cr S T) Q → Log (Cr S T) Q → Type 0
  LeavesOpen l l' = open_conns env l' + opened env l ≡ open_conns env l + opened env l'

  LeavesOpen-dial : (url : String) (l : Log (Cr S T) Q) → LeavesOpen l (dial env url l).1
  unfolding dial
  LeavesOpen-dial url l = ground arith

  LeavesOpen-resolve_secret_value :
      (name namespace key owner : String) (l : Log (Cr S T) Q)
      → LeavesOpen l (resolve_secret_value env name namespace key owner l).1
  unfolding resolve_secret_value
  LeavesOpen-resolve_secret_value name namespace key owner l = ground arith

  pub LeavesOpen-resolve_org_dependencies :
      (ref : ResourceRef) (o : Cr S T) (conditions : Conditions T) (generation : ℕ)
      (l : Log (Cr S T) Q)
      → LeavesOpen l (resolve_org_dependencies env ref o conditions generation l).1
  unfolding resolve_org_dependencies
  LeavesOpen-resolve_org_dependencies ref o conditions generation l =
      let place : NamespacedName = record {
        namespace = or_namespace ref.namespace o.meta.namespace;
        name = ref.name;
      } in
      let read = Call.get Kind.organization_kind place ∷ l in
      elim (Result-cases (env.get_organization l place)) [
        | inl (e, p) ↦ ground (arith, p)
        | inr (org, p) ↦ elim (Bool-cases (is_ready env org.status.base.conditions)) [
          | inr waiting ↦ ground (arith, p, waiting)
          | inl ready ↦
              let inst = org.spec.instance_ref in
              let at : NamespacedName = record {
                namespace = or_namespace inst.namespace o.meta.namespace;
                name = inst.name;
              } in
              elim (Result-cases (env.get_instance read at)) [
                | inl (e, q) ↦ ground (arith, p, ready, q)
                | inr (instance, q) ↦
                    let token = instance.spec.token_ref in
                    let asked = Call.get Kind.instance_kind at ∷ read in
                    let secret =
                      resolve_secret_value env token.name
                        (or_namespace token.namespace at.namespace) token.key
                        instance.meta.namespace asked in
                    ground (
                      arith,
                      p,
                      ready,
                      q,
                      LeavesOpen-resolve_secret_value token.name
                          (or_namespace token.namespace at.namespace) token.key
                          instance.meta.namespace asked,
                      LeavesOpen-dial instance.spec.gateway_url secret.1,
                    )
              ]
        ]
      ]

module _ {S T Q : Type 0} (env : Env (Cr S T) Q) where
  -- A resolution of the organization that returns a connection has opened it, and has closed none.
  pub open_conns-resolve_org_dependencies :
      (org_ref : ResourceRef) (o : Cr S T) (conditions : Conditions T) (generation : ℕ)
      (l : Log (Cr S T) Q) (orc : OrgContext) (conn : Conn)
      → (resolve_org_dependencies env org_ref o conditions generation l).0.0 ≡ resolved orc
      → orc.conn ≡ some conn
      → open_conns env (resolve_org_dependencies env org_ref o conditions generation l).1
        ≡ suc (open_conns env l)
  unfolding resolve_org_dependencies dial resolve_secret_value
  open_conns-resolve_org_dependencies org_ref o conditions generation l orc conn h has =
      ground (arith, h, has)
