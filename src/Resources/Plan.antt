-- ===== src/Resources/Plan.antt =====
-- plan_controller.go and plan_types.go. The raw JSON of a charge's properties is read by
-- encoding/json into the generated PropertiesInput: both are parameters.
use invora_controller.Prelude.{ℕ, String, Bool, false, Option, none, some, List, map}
use invora_controller.Go.{ℤ, M, Outcome}
use invora_controller.Api.{ResourceRef, Cr, CatalogStatus, NamespacedName}
use invora_controller.Cluster.{Env, Log}
use invora_controller.Catalog.Reconcile.{reconcile}
use invora_controller.Catalog.{
  Catalog, by_id, by_update, by_list, ignored, wrapped, Service, CatalogRpc,
}
use invora_controller.Convert.{
  str_ptr, Floats, parse_trial_period, currency, plan_interval, charge_model_enum,
}

pub record PlanCharge : Type 0 where
  pub billable_metric_code : String
  pub charge_model : String
  pub invoice_display_name : String
  pub pay_in_advance : Bool
  pub prorated : Bool
  pub properties : Option String

pub record PlanSpec : Type 0 where
  pub organization_ref : ResourceRef
  pub deletion_policy : String
  pub code : String
  pub name : String
  pub description : String
  pub amount_cents : ℤ
  pub amount_currency : String
  pub interval : String
  pub pay_in_advance : Bool
  pub trial_period : String
  pub charges : List PlanCharge
  pub tax_codes : List String

abbrev pub Plan : Type 0
Plan = Cr PlanSpec CatalogStatus

pub record ChargeInput (J : Type 0) : Type 0 where
  pub billable_metric_id : String
  pub charge_model : ℕ
  pub pay_in_advance : Option Bool
  pub prorated : Option Bool
  pub invoice_display_name : Option String
  pub properties : Option J

pub record PlanCreateRequest (F J : Type 0) : Type 0 where
  pub code : String
  pub name : String
  pub description : Option String
  pub amount_cents : ℤ
  pub amount_currency : ℕ
  pub interval : ℕ
  pub pay_in_advance : Bool
  pub trial_period : F
  pub tax_codes : List String
  pub charges : List (ChargeInput J)

pub record PlanUpdateRequest (F J : Type 0) : Type 0 where
  pub id : String
  pub code : String
  pub name : String
  pub description : Option String
  pub amount_cents : ℤ
  pub amount_currency : ℕ
  pub interval : ℕ
  pub pay_in_advance : Bool
  pub trial_period : F
  pub tax_codes : List String
  pub charges : List (ChargeInput J)

module _ {F J : Type 0} (fl : Floats F) (unmarshal : String → J) where
  unfoldable pub build_charge_input : PlanCharge → ChargeInput J
  unfolding charge_model_enum str_ptr
  build_charge_input c = record {
    billable_metric_id = c.billable_metric_code;
    charge_model = charge_model_enum c.charge_model;
    pay_in_advance = some c.pay_in_advance;
    prorated = some c.prorated;
    invoice_display_name = str_ptr c.invoice_display_name;
    properties = elim c.properties [ none ↦ none | some raw ↦ some (unmarshal raw) ];
  }

  -- A nil slice and an empty one are the same to the request.
  unfoldable pub build_charge_inputs : Plan → List (ChargeInput J)
  unfolding build_charge_input
  build_charge_inputs plan = map build_charge_input plan.spec.charges

  unfoldable pub plan_create_request : Plan → PlanCreateRequest F J
  unfolding str_ptr currency plan_interval parse_trial_period build_charge_inputs
  plan_create_request plan = record {
    code = plan.spec.code;
    name = plan.spec.name;
    description = str_ptr plan.spec.description;
    amount_cents = plan.spec.amount_cents;
    amount_currency = currency plan.spec.amount_currency;
    interval = plan_interval plan.spec.interval;
    pay_in_advance = plan.spec.pay_in_advance;
    trial_period = parse_trial_period fl plan.spec.trial_period;
    tax_codes = plan.spec.tax_codes;
    charges = build_charge_inputs plan;
  }

  unfoldable pub plan_update_request : Plan → PlanUpdateRequest F J
  unfolding str_ptr currency plan_interval parse_trial_period build_charge_inputs
  plan_update_request plan = record {
    id = plan.status.external_id;
    code = plan.spec.code;
    name = plan.spec.name;
    description = str_ptr plan.spec.description;
    amount_cents = plan.spec.amount_cents;
    amount_currency = currency plan.spec.amount_currency;
    interval = plan_interval plan.spec.interval;
    pay_in_advance = plan.spec.pay_in_advance;
    trial_period = parse_trial_period fl plan.spec.trial_period;
    tax_codes = plan.spec.tax_codes;
    charges = build_charge_inputs plan;
  }

  abbrev pub plan_catalog : Catalog PlanSpec (PlanCreateRequest F J) (PlanUpdateRequest F J)
  plan_catalog = record {
    organization_ref = λ s. s.organization_ref;
    deletion_policy = λ s. s.deletion_policy;
    key = λ s. s.code;
    get_key = λ o. by_id o.status.external_id;
    create_request = plan_create_request;
    update_call = λ o. by_update (plan_update_request o);
    strategy = by_list;
    plural = "plans";
    checks_import = false;
    import_status = ignored;
    in_sync_status = ignored;
    adopted_status = wrapped;
    created_status = wrapped;
  }

  -- Reconcile of Plan
  abbrev pub reconcile_plan :
      Service Plan (PlanCreateRequest F J) (PlanUpdateRequest F J)
      → Env Plan (CatalogRpc (PlanCreateRequest F J) (PlanUpdateRequest F J))
      → NamespacedName
      → M (Log Plan (CatalogRpc (PlanCreateRequest F J) (PlanUpdateRequest F J))) Outcome
  reconcile_plan svc env = reconcile plan_catalog svc env
