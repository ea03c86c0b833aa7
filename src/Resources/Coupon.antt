-- ===== src/Resources/Coupon.antt =====
-- coupon_controller.go and coupon_types.go. time.Parse with RFC3339 is a parameter.
use invora_controller.Prelude.{
  ℕ, String, Bool, true, false, Option, none, some, ◌==◌, if◌then◌else◌,
}
use invora_controller.Go.{ℤ, M, Outcome}
use invora_controller.Api.{ResourceRef, Cr, CatalogStatus, NamespacedName}
use invora_controller.Cluster.{Env, Log}
use invora_controller.Catalog.Reconcile.{reconcile}
use invora_controller.Catalog.{
  Catalog, by_id, by_update, never, ignored, wrapped, Service, CatalogRpc,
}
use invora_controller.Convert.{
  str_ptr, ptr_str, DecimalValue, Floats, percentage_rate, currency, coupon_type, coupon_expiration,
  coupon_frequency,
}

pub record CouponSpec : Type 0 where
  pub organization_ref : ResourceRef
  pub deletion_policy : String
  pub code : String
  pub name : String
  pub coupon_type : String
  pub frequency : String
  pub expiration : String
  pub amount_cents : Option ℤ
  pub amount_currency : Option String
  pub percentage_rate : Option String
  pub expiration_at : Option String
  pub reusable : Bool

abbrev pub Coupon : Type 0
Coupon = Cr CouponSpec CatalogStatus

pub record CouponCreateRequest : Type 0 where
  pub name : String
  pub coupon_type : ℕ
  pub frequency : ℕ
  pub expiration : ℕ
  pub code : Option String
  pub amount_cents : Option ℤ
  pub amount_currency : Option ℕ
  pub percentage_rate : Option DecimalValue
  pub expiration_at : Option ℤ
  pub reusable : Option Bool

pub record CouponUpdateRequest : Type 0 where
  pub id : String
  pub name : String
  pub coupon_type : ℕ
  pub frequency : ℕ
  pub expiration : ℕ
  pub code : Option String
  pub amount_cents : Option ℤ
  pub amount_currency : Option ℕ
  pub percentage_rate : Option DecimalValue
  pub expiration_at : Option ℤ
  pub reusable : Option Bool

abbrev currency_ptr : Option String → Option ℕ
currency_ptr none = none
currency_ptr (some s) = some (currency s)

module _ {F : Type 0} (fl : Floats F) (parse_time : String → Option ℤ) where
  -- convert.Timestamp
  unfoldable pub timestamp : String → Option ℤ
  timestamp s = if s == "" then none else parse_time s

  unfoldable pub build_create_coupon_request : Coupon → CouponCreateRequest
  unfolding coupon_type coupon_frequency coupon_expiration str_ptr ptr_str percentage_rate timestamp
  build_create_coupon_request coupon = record {
    name = coupon.spec.name;
    coupon_type = coupon_type coupon.spec.coupon_type;
    frequency = coupon_frequency coupon.spec.frequency;
    expiration = coupon_expiration coupon.spec.expiration;
    code = str_ptr coupon.spec.code;
    amount_cents = coupon.spec.amount_cents;
    amount_currency = currency_ptr coupon.spec.amount_currency;
    percentage_rate = percentage_rate fl (ptr_str coupon.spec.percentage_rate);
    expiration_at = timestamp (ptr_str coupon.spec.expiration_at);
    reusable = if coupon.spec.reusable then some true else none;
  }

  unfoldable pub build_update_coupon_request : Coupon → CouponUpdateRequest
  unfolding coupon_type coupon_frequency coupon_expiration str_ptr ptr_str percentage_rate timestamp
  build_update_coupon_request coupon = record {
    id = coupon.status.external_id;
    name = coupon.spec.name;
    coupon_type = coupon_type coupon.spec.coupon_type;
    frequency = coupon_frequency coupon.spec.frequency;
    expiration = coupon_expiration coupon.spec.expiration;
    code = str_ptr coupon.spec.code;
    amount_cents = coupon.spec.amount_cents;
    amount_currency = currency_ptr coupon.spec.amount_currency;
    percentage_rate = percentage_rate fl (ptr_str coupon.spec.percentage_rate);
    expiration_at = timestamp (ptr_str coupon.spec.expiration_at);
    reusable = some coupon.spec.reusable;
  }

  abbrev pub coupon_catalog : Catalog CouponSpec CouponCreateRequest CouponUpdateRequest
  coupon_catalog = record {
    organization_ref = λ s. s.organization_ref;
    deletion_policy = λ s. s.deletion_policy;
    key = λ s. s.code;
    get_key = λ o. by_id o.status.external_id;
    create_request = build_create_coupon_request;
    update_call = λ o. by_update (build_update_coupon_request o);
    strategy = never;
    plural = "coupons";
    checks_import = false;
    import_status = ignored;
    in_sync_status = ignored;
    adopted_status = ignored;
    created_status = wrapped;
  }

  -- Reconcile of Coupon
  abbrev pub reconcile_coupon :
      Service Coupon CouponCreateRequest CouponUpdateRequest
      → Env Coupon (CatalogRpc CouponCreateRequest CouponUpdateRequest)
      → NamespacedName
      → M (Log Coupon (CatalogRpc CouponCreateRequest CouponUpdateRequest)) Outcome
  reconcile_coupon svc env = reconcile coupon_catalog svc env
