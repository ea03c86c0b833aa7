-- ===== src/Subscriber/Start.antt =====
-- Start and buildAdminClient of zitadelorgevent_subscriber.go. The ticker and the context are the
-- number of ticks that come before the context is done.
use invora_controller.Prelude.{
  ℕ, zero, suc, String, ◌<>◌, Bool, Option, none, some, ◌==◌, not, if◌then◌else◌,
}
use invora_controller.Go.{Error, wrap, Result, ok, err, M, ◌>>=◌, pure, ℤ, pos, negsuc, seconds}
use invora_controller.Subscriber.{SubscriberConfig, Server, Lib, validate_config}
use invora_controller.Subscriber.Poll.{poll}
use invora_controller.Subscriber.Token.{Crypto, SystemTokenSource, new_system_token_source}

abbrev pub default_subscriber_interval : ℤ
default_subscriber_interval = seconds 30

unfoldable pub poll_interval : SubscriberConfig → ℤ
poll_interval config = elim config.interval [
  | pos zero ↦ default_subscriber_interval
  | pos (suc n) ↦ pos (suc n)
  | negsuc n ↦ default_subscriber_interval
]

-- A source of tokens: the given token, or tokens that are signed for a System API user.
pub data TokenSource (K : Type 0) : Type 0 where
  static_token : String → TokenSource K
  system_token : SystemTokenSource K → TokenSource K

-- What admin.NewClient is called with: the issuer, the domain with its port, whether the connection
-- is insecure, and the source of tokens.
pub record AdminOptions (K : Type 0) : Type 0 where
  pub issuer : String
  pub domain : String
  pub insecure : Bool
  pub tokens : TokenSource K

abbrev pub admin_port : SubscriberConfig → String
admin_port c =
    if c.zitadel_port == "" then (if c.zitadel_insecure then "80" else "443") else c.zitadel_port

abbrev pub admin_issuer : SubscriberConfig → String
admin_issuer c =
    if c.zitadel_insecure then "http://" <> c.zitadel_domain else "https://" <> c.zitadel_domain

abbrev pub admin_with : {K : Type 0} → SubscriberConfig → TokenSource K → AdminOptions K
admin_with c tokens = record {
  issuer = admin_issuer c;
  domain = c.zitadel_domain <> ":" <> admin_port c;
  insecure = c.zitadel_insecure;
  tokens = tokens;
}

unfoldable pub admin_options : {K : Type 0} → Crypto K → SubscriberConfig → Result (AdminOptions K)
unfolding new_system_token_source
admin_options crypto c =
    if not (c.access_token == "")
    then ok (admin_with c (static_token c.access_token))
    else elim (new_system_token_source crypto c.system_api_private_key c.system_api_user
        (admin_issuer c)) [
          | err e ↦ err (wrap "creating system API token source" e)
          | ok tokens ↦ ok (admin_with c (system_token tokens))
        ]

module _ {S K : Type 0} (lib : Lib) (server : Server S) (config : SubscriberConfig)
    (crypto : Crypto K) (new_client : AdminOptions K → Option Error) where
  -- One poll for each tick that comes before the context is done; an error of one is logged.
  unfoldable pub run_ticks : ℕ → M S (Unit {0})
  run_ticks zero = pure tt
  run_ticks (suc n) = do _ ← poll lib server config; run_ticks n

  unfoldable pub build_admin_client : Option Error
  unfolding admin_options
  build_admin_client = elim (admin_options crypto config) [
    | err e ↦ some e
    | ok options ↦ new_client options
  ]

  -- The first poll comes before the first tick.
  unfoldable pub start : ℕ → M S (Option Error)
  unfolding build_admin_client
  start ticks = elim (validate_config config) [
    | some e ↦ pure (some (wrap "zitadel subscriber: invalid config" e))
    | none ↦ elim build_admin_client [
      | some e ↦ pure (some (wrap "zitadel subscriber: building admin client" e))
      | none ↦ do _ ← poll lib server config; _ ← run_ticks ticks; pure none
    ]
  ]
