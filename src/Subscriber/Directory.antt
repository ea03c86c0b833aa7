-- ===== src/Subscriber/Directory.antt =====
-- An API server as a map of the organizations in the tenant namespace.
use invora_controller.Prelude.{
  inl, inr, String, ◌≡◌, refl, sym, ap, ◌∙◌, true, Option, none, some, ◌==◌, eq_iff, if◌then◌else◌,
  Bool-cases,
}
use mathlib.Core.Path.{fun_ext}
use invora_controller.Go.{Error, ok, err, is_api_not_found}
use invora_controller.Api.{NamespacedName, Organization, OrganizationSpec}
use invora_controller.Subscriber.{NewOrganization, Server}

-- The organizations of the tenant namespace, by the name of the object.
abbrev pub Tenants : Type 0
Tenants = String → Option OrganizationSpec

abbrev pub put : String → Option OrganizationSpec → Tenants → Tenants
put n v t m = if n == m then v else t m

-- An API server that does not fail, in whose tenant namespace no finalizer holds back an object that
-- is deleted.
pub record KeepsOrganizations {S : Type 0} (server : Server S) (namespace : String) : Type 0 where
  pub tenants : S → Tenants
  pub finds :
      (n : String) (s : S) (spec : OrganizationSpec)
      → tenants s n ≡ some spec
      → (o : Organization) × ((server.get_organization
            (record { namespace = namespace; name = n })
            s).0
          ≡ ok o)
        × (o.meta.namespace ≡ namespace)
        × (o.meta.name ≡ n)
        × (o.spec ≡ spec)
  pub misses :
      (n : String) (s : S)
      → tenants s n ≡ none
      → (e : Error) × ((server.get_organization (record { namespace = namespace; name = n }) s).0
          ≡ err e)
        × (is_api_not_found e ≡ true)
  pub gets : (n : NamespacedName) (s : S) → tenants (server.get_organization n s).1 ≡ tenants s
  pub creates :
      (o : NewOrganization) (s : S)
      → o.namespace ≡ namespace
      → tenants s o.name ≡ none
      → ((server.create_organization o s).0 ≡ none)
        × (tenants (server.create_organization o s).1 ≡ put o.name (some o.spec) (tenants s))
  pub updates :
      (o : Organization) (s : S) (spec : OrganizationSpec)
      → o.meta.namespace ≡ namespace
      → tenants s o.meta.name ≡ some spec
      → ((server.update_organization o s).0 ≡ none)
        × (tenants (server.update_organization o s).1 ≡ put o.meta.name (some o.spec) (tenants s))
  pub deletes :
      (o : Organization) (s : S) (spec : OrganizationSpec)
      → o.meta.namespace ≡ namespace
      → tenants s o.meta.name ≡ some spec
      → ((server.delete_organization o s).0 ≡ none)
        × (tenants (server.delete_organization o s).1 ≡ put o.meta.name none (tenants s))

pub put_self : (n : String) (v : Option OrganizationSpec) (t : Tenants) → t n ≡ v → put n v t ≡ t
put_self n v t h = fun_ext λ m. elim (Bool-cases (n == m)) [
  | inl same ↦ rw same (sym h ∙ ap t ((eq_iff n m).0 same))
  | inr other ↦ rw other refl
]

-- The name of an organization, changed.
abbrev pub renamed : String → OrganizationSpec → OrganizationSpec
renamed display_name spec = record spec { name = display_name }

abbrev pub relabelled : String → Option OrganizationSpec → Option OrganizationSpec
relabelled display_name none = none
relabelled display_name (some spec) = some (renamed display_name spec)

pub renamed_same :
    (d : String) (spec : OrganizationSpec) → (spec.name == d) ≡ true → renamed d spec ≡ spec
renamed_same d spec h = λ i. record spec { name = sym ((eq_iff spec.name d).0 h) i }
