-- ===== src/Gateway/Secrets.antt =====
-- Secrets stay in their namespace.
use invora_controller.Prelude.{
  String, ◌≡◌, ◌≢◌, ◌⊎◌, inl, inr, ◌==◌, eq_iff, ◌∷◌, arith, Bool-cases, String, ◌≡◌,
}
use invora_controller.Go.{Error, err, Result-cases}
use invora_controller.Cluster.{Call, Kind, Log, Env}
use invora_controller.Gateway.{resolve_secret_value}

module _ {O Q : Type 0} (env : Env O Q) where
  -- A reference by an object of a namespace reads no Secret of another: it fails with no call, or
  -- its only call reads the named Secret of the owner's namespace.
  pub resolve_secret_value_same_namespace :
      (name namespace key owner : String) (l : Log O Q)
      → owner ≢ ""
      → (((resolve_secret_value env name namespace key owner l).1 ≡ l)
          × ((e : Error) × ((resolve_secret_value env name namespace key owner l).0 ≡ err e)))
        ⊎ ((namespace ≡ owner)
            × ((resolve_secret_value env name namespace key owner l).1
                ≡ Call.get Kind.secret_kind (record { namespace = owner; name = name }) ∷ l))
  unfolding resolve_secret_value
  resolve_secret_value_same_namespace name namespace key owner l h =
      elim (Bool-cases (namespace == owner)) [
        | inl same ↦ inr ((eq_iff namespace owner).0 same, ground (arith, eq_iff namespace owner))
        | inr other ↦ inl (
          ground (arith, eq_iff namespace owner, eq_iff owner ""),
          elim (Result-cases (resolve_secret_value env name namespace key owner l).0) [
            | inl failed ↦ failed
            | inr (v, p) ↦ absurd (ground (arith, eq_iff namespace owner, eq_iff owner ""))
          ],
        )
      ]
