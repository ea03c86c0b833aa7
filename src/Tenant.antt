-- ===== src/Tenant.antt =====
-- The billing tenant of an organization: guidRe, resolveTenantID, orgExternalID and
-- parentDualWriteEnabled of internal/controller/organization_controller.go, and orgActingID of
-- orgresource_helpers.go.
pub mod Guid
use invora_controller.Prelude.{
  ℕ, zero, suc, String, Bool, true, false, Option, none, some, List, [], ◌∷◌, ◌==◌, ◌&&◌, ◌||◌, not,
  codes, leb, eqb, if◌then◌else◌, trim_space,
}
use invora_controller.Api.{Organization}

-- [0-9a-f] under (?i)
unfoldable pub is_hex : ℕ → Bool
is_hex c = (leb b'0' c && leb c b'9') || (leb b'a' c && leb c b'f') || (leb b'A' c && leb c b'F')

-- [0-9a-f]{n}, then what `k` matches
unfoldable pub hex_run : ℕ → (List ℕ → Bool) → List ℕ → Bool
unfolding is_hex
hex_run zero k s = k s
hex_run (suc n) k [] = false
hex_run (suc n) k (c ∷ s) = is_hex c && hex_run n k s

unfoldable pub hyphen : (List ℕ → Bool) → List ℕ → Bool
hyphen k [] = false
hyphen k (c ∷ s) = eqb c b'-' && k s

unfoldable pub at_end : List ℕ → Bool
at_end [] = true
at_end (_ ∷ _) = false

-- guidRe.MatchString
unfoldable pub guid_re : List ℕ → Bool
guid_re =
    hex_run 8
      (hyphen (hex_run 4 (hyphen (hex_run 4 (hyphen (hex_run 4 (hyphen (hex_run 12 at_end))))))))

unfoldable pub resolve_tenant_id : Organization → Option String
unfolding guid_re trim_space
resolve_tenant_id org =
    let id = trim_space org.spec.external_id in if guid_re (codes id) then some id else none

unfoldable pub org_acting_id : Organization → String
unfolding resolve_tenant_id
org_acting_id org = elim (resolve_tenant_id org) [ some tenant_id ↦ tenant_id | none ↦ "" ]

unfoldable pub parent_dual_write_enabled : Organization → Bool
parent_dual_write_enabled org = elim org.spec.parent_org_ref [
  | none ↦ false
  | some _ ↦ elim org.spec.enable_parent_dual_write [ some false ↦ false | _ ↦ true ]
]

unfoldable pub org_external_id : Organization → String
org_external_id org =
    if not (org.spec.external_id == "") then org.spec.external_id else org.meta.name
