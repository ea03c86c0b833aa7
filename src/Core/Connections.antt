-- ===== src/Core/Connections.antt =====
-- The calls of a core or invoicing reconcile, and its connection.
use invora_controller.Prelude.{inl, inr, ◌≡◌, refl, suc, ◌⊎◌, arith, String, some, [], ◌∷◌}
use invora_controller.Go.{Error, Result, ok, err, Result-cases}
use invora_controller.Api.{NamespacedName, condition_true, condition_false, ResourceRef, Cr}
use invora_controller.Cluster.{Call, Kind, Conn, Headers, Log, Env, rpcs, open_conns}
use invora_controller.Gateway.{target, dial, resolve_secret_value}
use invora_controller.Resource.Quiet.{rpcs-dial}
use invora_controller.Base.{bearer}
use invora_controller.Core.{
  InvoraInstance, Pushed-cases, set_ready, CoreResource, resolve_invora_instance, fail_core,
  store_synced, push_and_store, use_instance, reconcile_core_object, reconcile_core,
}

-- A push makes one call of the gateway, and no other call.
pub record CallsOnce {S T Q : Type 0} (resource : CoreResource S T Q) : Type 0 where
  pub query : Cr S T → Q
  pub asks :
      (conn : Conn) (headers : Headers) (o : Cr S T) (l : Log (Cr S T) Q)
      → (resource.push conn headers o l).1 ≡ Call.rpc (some conn) headers (query o) ∷ l

module _ {S T Q : Type 0} (resource : CoreResource S T Q) (once : CallsOnce resource)
    (env : Env (Cr S T) Q)
    (instances : Log (Cr S T) Q → NamespacedName → Result InvoraInstance) where
  abbrev State : Type 0
  State = Log (Cr S T) Q

  rpcs-resolve_invora_instance :
      (ref : ResourceRef) (ns : String) (l : State)
      → rpcs (resolve_invora_instance resource env instances ref ns l).1 ≡ rpcs l
  unfolding resolve_invora_instance resolve_secret_value
  rpcs-resolve_invora_instance ref ns l = ground arith

  open_conns-resolve_invora_instance :
      (ref : ResourceRef) (ns : String) (l : State)
      → open_conns env (resolve_invora_instance resource env instances ref ns l).1
        ≡ open_conns env l
  unfolding resolve_invora_instance resolve_secret_value
  open_conns-resolve_invora_instance ref ns l = ground arith

  -- The log is the given one and one status write.
  abbrev Writes : State → State → Type 0
  Writes before l = (w : Cr S T) × (l ≡ Call.update_status w ∷ before)

  fail_core-Writes :
      (reason : String) (e : Error) (o : Cr S T) (l : State)
      → Writes l (fail_core resource env instances reason e o l).1
  unfolding fail_core
  fail_core-Writes reason e o l =
      (set_ready env resource.conditions condition_false reason e.text o, refl)

  store_synced-Writes :
      (message : String) (o : Cr S T) (l : State)
      → Writes l (store_synced resource env instances message o l).1
  unfolding store_synced
  store_synced-Writes message o l = (
    set_ready env resource.conditions condition_true "Synced" message
        (record o { status = resource.mark_synced o.meta.generation (env.now l) o.status }),
    refl,
  )

  -- The log that a push leaves.
  abbrev asked : Conn → Headers → Cr S T → State → State
  asked conn headers o l = Call.rpc (some conn) headers (once.query o) ∷ l

  -- A push and the status write leave one call of the gateway, and no other but the write.
  push_and_store-Writes :
      (conn : Conn) (headers : Headers) (o : Cr S T) (l : State)
      → Writes (asked conn headers o l) (push_and_store resource env instances conn headers o l).1
  unfolding push_and_store
  push_and_store-Writes conn headers o l =
      let p = resource.push conn headers o l in
      let one = once.asks conn headers o l in
      elim (Pushed-cases p.0) [
        | inl (reason, e, failed) ↦
            let (w, wrote) = fail_core-Writes reason e o p.1 in
            (w, ground (arith, failed, wrote, one))
        | inr (o', message, answered) ↦
            let (w, wrote) = store_synced-Writes message o' p.1 in
            (w, ground (arith, answered, wrote, one))
      ]

  -- A dial either fails with no connection, or opens the one that it answers.
  dial-cases :
      (url : String) (l : State)
      → (((e : Error) × ((dial env url l).0 ≡ err e))
          × (open_conns env (dial env url l).1 ≡ open_conns env l))
        ⊎ (((conn : Conn) × ((dial env url l).0 ≡ ok conn))
            × (open_conns env (dial env url l).1 ≡ suc (open_conns env l)))
  unfolding dial
  dial-cases url l = elim (Result-cases (target env.platform url)) [
    | inl (e, bad) ↦ inl ((e, ground (arith, bad)), ground (arith, bad))
    | inr ((t, tls), good) ↦ elim (Result-cases (env.new_client l t tls)) [
      | inl (e, failed) ↦ inl ((e, ground (arith, good, failed)), ground (arith, good, failed))
      | inr (conn, opened) ↦
          inr ((conn, ground (arith, good, opened)), ground (arith, good, opened))
    ]
  ]

  -- Every connection opened since is closed, and the gateway is called not at all or once, with the
  -- bearer token alone.
  abbrev pub CallsAndCloses : State → State → Type 0
  CallsAndCloses before l =
      (open_conns env l ≡ open_conns env before)
      × ((rpcs l ≡ rpcs before)
          ⊎ ((conn : Conn) × (token : String) × (o : Cr S T) × (rpcs l
                ≡ (some conn, bearer token ∷ [], once.query o) ∷ rpcs before)))

  use_instance-CallsAndCloses :
      (inst : InvoraInstance) (token : String) (o : Cr S T) (l : State)
      → CallsAndCloses l (use_instance resource env instances inst token o l).1
  unfolding use_instance
  use_instance-CallsAndCloses inst token o l =
      let d = dial env inst.spec.gateway_url l in
      let quiet : rpcs d.1 ≡ rpcs l = rpcs-dial env inst.spec.gateway_url l in
      elim (dial-cases inst.spec.gateway_url l) [
        | inl ((e, failed), kept) ↦
            let same : (use_instance resource env instances inst token o l).1 ≡ d.1 =
              ground (arith, failed) in
            (rw (same, kept) refl, inl (rw (same, quiet) refl))
        | inr ((conn, answered), opened) ↦
            let (w, wrote) = push_and_store-Writes conn (bearer token ∷ []) o d.1 in
            let same : (use_instance resource env instances inst token o l).1
                ≡ Call.close conn ∷ (Call.update_status w ∷ asked conn (bearer token ∷ []) o d.1) =
              ground (arith, answered, wrote) in
            (rw (same, opened) (omega arith), inr (conn, token, o, rw (same, quiet) refl))
      ]

  reconcile_core_object-CallsAndCloses :
      (o : Cr S T) (l : State)
      → CallsAndCloses l (reconcile_core_object resource env instances o l).1
  unfolding reconcile_core_object
  reconcile_core_object-CallsAndCloses o l =
      let ref = resource.instance_ref o.spec in
      let r = resolve_invora_instance resource env instances ref o.meta.namespace l in
      let quiet : rpcs r.1 ≡ rpcs l = rpcs-resolve_invora_instance ref o.meta.namespace l in
      let kept : open_conns env r.1 ≡ open_conns env l =
        open_conns-resolve_invora_instance ref o.meta.namespace l in
      elim (Result-cases r.0) [
        | inl (e, failed) ↦
            let (w, wrote) = fail_core-Writes "InstanceResolveFailed" e o r.1 in
            let same : (reconcile_core_object resource env instances o l).1
                ≡ Call.update_status w ∷ r.1 =
              ground (arith, failed, wrote) in
            (rw (same, kept) refl, inl (rw (same, quiet) refl))
        | inr ((inst, token), found) ↦
            let same : (reconcile_core_object resource env instances o l).1
                ≡ (use_instance resource env instances inst token o r.1).1 =
              ground (arith, found) in
            rw (same, ← kept, ← quiet) (use_instance-CallsAndCloses inst token o r.1)
      ]

  -- Of a core or invoicing resource whose push makes one call: whatever the API server and the
  -- gateway answer, a reconcile closes every connection that it opens, and calls the gateway not at
  -- all or once, with the bearer token as its only metadata.
  pub reconcile_core-CallsAndCloses :
      (name : NamespacedName) (l : State)
      → CallsAndCloses l (reconcile_core resource env instances name l).1
  unfolding reconcile_core
  reconcile_core-CallsAndCloses name l = elim (Result-cases (env.get_own l name)) [
    | inl (e, failed) ↦ (rw failed refl, inl (rw failed refl))
    | inr (o, got) ↦
        rw got (reconcile_core_object-CallsAndCloses o (Call.get Kind.own_kind name ∷ l))
  ]
