-- ===== src/Lib.antt =====
-- The invora controller: a Kubernetes operator that keeps billing resources of a gateway in step
-- with custom resources.
--
-- A reconciler is called with the name of an object. It reads the object, resolves the organization
-- and the instance that it refers to, dials the instance's gateway, and calls gRPC services with
-- the organization in the request metadata; the outcome is written to the object's status and a
-- delay to the next call is returned. Deletion waits on a finalizer.
--
-- Files, and the code of the repository that they model:
--   * Prelude: numbers, lists and texts; no code of the repository.
--   * Go: errors, controller results and the state monad; what the source uses of errors, fmt,
--     ctrl.Result and the error predicates of apimachinery and gRPC.
--   * Api: api/v1alpha1/, common_types.go, instance_types.go and organization_types.go.
--   * Cluster: the log of the calls that leave a reconciler and the answers to them. An answer is a
--     function of the log, so nothing is assumed of the API server, the gateway or other clients:
--     objects may change between two calls.
--   * Gateway: internal/gateway/dial.go and internal/billingclient/resolve.go; Gateway/Secrets has
--     the namespace guard.
--   * Tenant: guidRe, resolveTenantID, orgActingID, parentDualWriteEnabled and orgExternalID of
--     internal/controller/; Tenant/Guid relates the matcher to a description.
--   * Base: internal/controller/reconciler.go, and the contexts of orgresource_helpers.go.
--   * Resource: resolveOrgDependencies, handleGrpcDeletion, setSuccessStatus, EnsureFinalizer and
--     RemoveFinalizer; Resource/Quiet counts the calls of these.
--   * AdoptByCode: internal/controller/adopt_by_code.go; AdoptByCode/Walk lifts a predicate on logs
--     over the walk.
--   * Catalog: Reconcile of tax_controller.go, metric_controller.go, plan_controller.go,
--     coupon_controller.go, feature_controller.go, addon_controller.go, customer_controller.go and
--     webhookendpoint_controller.go. Catalog/Reconcile follows the source branch by branch;
--     Catalog/Creates counts Create calls, Catalog/Probed follows the look before a Create,
--     Catalog/Paging relates the page walk to the list of all records, Catalog/Duplicates joins
--     these two for the resources that are looked for page by page, Catalog/Deletes is about the
--     deletion path and Catalog/Finalizers about the finalizer. Catalog/Tenancy says for which
--     organization the gateway is called; Catalog/Stored describes an API server that stores the
--     status, by which Catalog/Accounts follows the steps of a reconcile, Catalog/Once a series of
--     reconciles and Catalog/Imports the import-id annotation. Catalog/Leaks is about the
--     connections that a reconcile opens.
--   * Convert: internal/convert/enums.go and the small conversions of internal/controller/, with
--     the enum tables of gen/invora/billing/ in Convert/Tables; Convert/Names has the two conversions
--     back.
--   * Resources: for each of the eight resources its spec type, its requests and its Catalog.
--   * Subscriber: internal/controller/zitadelorgevent_subscriber.go, with handleOrgAdded,
--     handleOrgChanged and handleOrgRemoved in Subscriber/Handlers; Subscriber/Poll has poll and
--     its cursor, Subscriber/Progress the relation between a batch and the cursor that a pass
--     leaves, Subscriber/Live a pass in which no event fails, Subscriber/Cursor the poll and the
--     stored cursor, and Subscriber/Start the start with its ticks. Subscriber/Token
--     is zitadel_system_token.go. Subscriber/Directory is an API server as a map of organizations;
--     Subscriber/Mirror takes the handlers as changes of that map, Subscriber/Replay a pass over a
--     batch, and Subscriber/Redelivery a batch that is delivered again. Subscriber/Follow adds the
--     ConfigMap of the cursor and Zitadel, Subscriber/Polls takes a series of polls as steps of a
--     cursor and a map, and Subscriber/CatchUp says where they end.
--   * Organizations: internal/controller/organization_controller.go; Organizations has the dual write
--     to the parent org, Organizations/Status the writes of the status, Organizations/Reconcile the
--     reconcile and the deletion, Organizations/Quiet, Organizations/Tenants and
--     Organizations/Guids the tenant ids that are sent, and Organizations/Parents the finalizer.
--   * Subscriptions: internal/controller/subscription_controller.go; Subscriptions has the types and
--     the references, Subscriptions/Features the entitlements, Subscriptions/Reconcile the reconcile;
--     Subscriptions/Entitlements is about the removals, Subscriptions/Managed about the codes that
--     are remembered, Subscriptions/Creates and Subscriptions/Missing about the Create calls.
--   * TapProviders: internal/controller/tapprovider_controller.go, with TapProviders/Reconcile;
--     TapProviders/Cleanup and TapProviders/Twins are about its Delete calls, TapProviders/Targets
--     about the provider that it writes.
--   * Core: what core_branch_controller.go, core_connectedbusiness_controller.go,
--     invoicing_regulation_controller.go and invoicing_settings_controller.go of
--     internal/controller/ share; Core/Resources has the call of each, and
--     Core/Connections follows a reconcile of any of them, by the law that a push makes one call.
--   * Connectivity: internal/controller/grpc_connectivity.go; Connectivity/Rounds is about the wait.
--   * Instances: instance_controller.go and core_instance_controller.go of internal/controller/;
--     Instances/Ready is about a check that ends well, Instances/Watches about changed Secrets.
--   * Resource/Connections: the connection that resolveOrgDependencies opens; Resource/Deletion: what
--     handleGrpcDeletion keeps; Resource/Maps: mapsEqual.
--   * ConnCache: internal/gateway/conn.go; ConnCache/Goroutines relates the steps of several
--     goroutines to a table in which Get is one step, ConnCache/Accounts says where the connections
--     are.
--   * Process: cmd/main.go, with main in Process/Main; Process/Namespaces is about splitNamespaces.
--   * Tests: concrete runs and the theorems at concrete inputs.
--
-- Bounds: the page walk has the source's own bound adoptMaxPages = 50 as its recursion. The wait for
-- a gateway runs on a number of rounds that is above the round in which the context expires; one that
-- is too low ends in an error as an expired context does, and Connectivity/Rounds says in which rounds
-- a wait ends with none. The
-- subscriber's loop runs once for each tick before its context is done. All other functions are
-- recursive on their data. Durations are nanoseconds. Numbers that the source holds in machine words
-- here (generations, counts, times) are only compared or passed on.
--
-- Parameters: the condition and finalizer helpers of apimachinery and controller-runtime,
-- url.Parse, time.ParseDuration, float64 arithmetic and strconv.ParseFloat, time.Parse, and the
-- JSON decoding of charge properties; for the subscriber, strings.ToLower and the two strconv
-- functions for its cursor; the rounds of a gRPC channel; the environment of the process, with
-- strings.EqualFold; encoding/pem, crypto/x509 and go-jose; the manager of controller-runtime. A
-- call on a nil connection panics in Go; here the service answers it, as it may answer any call.
--
-- Not modelled: logging, metrics, the parsing of flags and the wiring of each controller into the
-- manager; ReuseTokenSource; generated code, except the enum tables; the types of api/ that no
-- controller reconciles.
pub mod Prelude
pub mod Go
pub mod Api
pub mod Cluster
pub mod Gateway
pub mod Tenant
pub mod Base
pub mod Resource
pub mod AdoptByCode
pub mod Catalog
pub mod Convert
pub mod Resources
pub mod Subscriber
pub mod Organizations
pub mod Subscriptions
pub mod TapProviders
pub mod Core
pub mod Connectivity
pub mod Instances
pub mod ConnCache
pub mod Process
mod Tests
