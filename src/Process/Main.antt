-- ===== src/Process/Main.antt =====
-- main of cmd/main.go: the order in which the process sets itself up. The flags are arguments; the
-- manager of controller-runtime is a parameter.
use invora_controller.Prelude.{String, Bool, Option, none, some, List, [], ◌∷◌, if◌then◌else◌}
use invora_controller.Go.{Error, ok, err, M, ◌>>=◌, pure}
use invora_controller.Subscriber.{SubscriberConfig}
use invora_controller.Process.{Os, split_namespaces, subscriber_config, is_registered}

-- ctrl.Options, as far as it depends on the flags and the environment; with no namespaces the cache
-- holds all of them.
pub record Options : Type 0 where
  pub metrics_addr : String
  pub probe_addr : String
  pub leader_election : Bool
  pub leader_election_id : String
  pub default_namespaces : List String

pub record Flags : Type 0 where
  pub metrics_addr : String
  pub probe_addr : String
  pub enable_leader_election : Bool

-- The calls that main makes of the manager, each with a state S.
pub record Manager (S : Type 0) : Type 0 where
  pub new_manager : Options → M S (Option Error)
  pub set_up : String → M S (Option Error)
  pub add_subscriber : SubscriberConfig → M S (Option Error)
  pub add_healthz_check : String → M S (Option Error)
  pub add_readyz_check : String → M S (Option Error)
  pub start : M S (Option Error)

-- How the process ends.
pub data Exit : Type 0 where
  finished : Exit
  exited : String → Error → Exit

abbrev pub controllers : List String
controllers =
    "InvoraBillingInstance" ∷ "InvoraBillingOrganization" ∷ "InvoraBillingMetric"
    ∷ "InvoraBillingPlan" ∷ "InvoraBillingTax" ∷ "InvoraBillingAddon" ∷ "InvoraBillingCoupon"
    ∷ "InvoraBillingFeature" ∷ "InvoraBillingCustomer" ∷ "InvoraBillingSubscription"
    ∷ "InvoraBillingWebhookEndpoint" ∷ "InvoraBillingTapProvider" ∷ "InvoraInstance"
    ∷ "InvoraBranch" ∷ "InvoraConnectedBusiness" ∷ "InvoraInvoicingRegulation"
    ∷ "InvoraInvoicingSettings" ∷ []

unfoldable pub manager_options : Os → Flags → Options
unfolding split_namespaces
manager_options os flags = record {
  metrics_addr = flags.metrics_addr;
  probe_addr = flags.probe_addr;
  leader_election = flags.enable_leader_election;
  leader_election_id = "invora-billing-controller";
  default_namespaces = split_namespaces (os.getenv "WATCH_NAMESPACE");
}

module _ {S : Type 0} (os : Os) (manager : Manager S) where
  -- os.Exit(1) after a message, where a step fails.
  abbrev or_exit : String → Option Error → M S Exit → M S Exit
  or_exit message none rest = rest
  or_exit message (some e) rest = pure (exited message e)

  unfoldable pub set_up_controllers : List String → M S Exit → M S Exit
  set_up_controllers [] rest = rest
  set_up_controllers (name ∷ names) rest = do
    e ← manager.set_up name
    or_exit "unable to create controller" e (set_up_controllers names rest)

  unfoldable pub setup_zitadel_subscriber : M S (Option Error)
  unfolding subscriber_config
  setup_zitadel_subscriber = elim (subscriber_config os) [
    | err e ↦ pure (some e)
    | ok config ↦ if is_registered config then manager.add_subscriber config else pure none
  ]

  unfoldable pub main : Flags → M S Exit
  unfolding manager_options set_up_controllers setup_zitadel_subscriber
  main flags = do
    e ← manager.new_manager (manager_options os flags)
    or_exit "unable to start manager" e (
        set_up_controllers controllers (do
          e ← setup_zitadel_subscriber
          or_exit "unable to create zitadel event subscriber" e (do
            e ← manager.add_healthz_check "healthz"
            or_exit "unable to set up health check" e (do
              e ← manager.add_readyz_check "readyz"
              or_exit "unable to set up ready check" e
                  (do e ← manager.start; or_exit "problem running manager" e (pure finished))))))
