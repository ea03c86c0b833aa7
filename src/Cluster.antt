-- ===== src/Cluster.antt =====
-- The world around a controller: the log of the calls that leave it, and the answers.
-- A controller is a function of an environment `Env` whose fields answer each kind of call; an
-- answer may depend on every call made before, so an environment is any API server, Zitadel or
-- gateway, however it behaves. `Platform` holds the functions of the libraries that the source
-- calls (apimachinery, controller-runtime, net/url, time).
use invora_controller.Prelude.{ℕ, suc, ◌-◌, String, Bool, Option, none, some, List, [], ◌∷◌}
use invora_controller.Go.{Error, Result, ok, err, M, ℤ}
use invora_controller.Api.{ObjectMeta, Condition, NamespacedName, Instance, Organization}

-- What url.Parse finds in a URL.
pub record Url : Type 0 where
  pub scheme : String
  pub host : String
  pub hostname : String
  pub port : String

pub record Platform : Type 0 where
  pub find_status_condition : List Condition → String → Option Condition
  pub set_status_condition : List Condition → Condition → List Condition
  pub contains_finalizer : ObjectMeta → String → Bool
  pub add_finalizer : ObjectMeta → String → ObjectMeta
  pub remove_finalizer : ObjectMeta → String → ObjectMeta
  pub parse_duration : String → Option ℤ
  pub url_parse : String → Result Url

-- A *grpc.ClientConn, by what grpc.NewClient was given.
pub record Conn : Type 0 where
  pub target : String
  pub tls : Bool

-- A corev1.Secret, by its data.
pub record Secret : Type 0 where
  pub entries : List (String × String)

pub data Kind : Type 0 where
  own_kind instance_kind organization_kind secret_kind customer_kind plan_kind core_instance_kind :
      Kind

-- The outgoing gRPC metadata of a call.
abbrev pub Headers : Type 0
Headers = List (String × String)

-- O is the controller's own resource, Q what it can ask of its gateway services. A nil connection
-- is `none`.
pub data Call (O Q : Type 0) : Type 0 where
  get : Kind → NamespacedName → Call O Q
  list : Kind → String → Call O Q
  update : O → Call O Q
  update_status : O → Call O Q
  new_client : String → Bool → Call O Q
  close : Conn → Call O Q
  rpc : Option Conn → Headers → Q → Call O Q

-- Newest call first.
abbrev pub Log : Type 0 → Type 0 → Type 0
Log O Q = List (Call O Q)

pub record Env (O Q : Type 0) : Type 0 where
  pub platform : Platform
  pub now : Log O Q → ℕ
  pub get_own : Log O Q → NamespacedName → Result O
  pub get_instance : Log O Q → NamespacedName → Result Instance
  pub get_organization : Log O Q → NamespacedName → Result Organization
  pub get_secret : Log O Q → NamespacedName → Result Secret
  pub update : Log O Q → O → Result O
  pub update_status : Log O Q → O → Result O
  pub new_client : Log O Q → String → Bool → Result Conn

-- The object that a caller holds after a write: the server's answer, or its own on an error.
abbrev pub after_write : {O : Type 0} → O → Result O → Option Error × O
after_write o (ok o') = (none, o')
after_write o (err e) = (some e, o)

module _ {O Q : Type 0} (env : Env O Q) where
  -- r.Get of each kind
  abbrev pub fetch_own : NamespacedName → M (Log O Q) (Result O)
  fetch_own n l = (env.get_own l n, Call.get Kind.own_kind n ∷ l)

  abbrev pub fetch_instance : NamespacedName → M (Log O Q) (Result Instance)
  fetch_instance n l = (env.get_instance l n, Call.get Kind.instance_kind n ∷ l)

  abbrev pub fetch_organization : NamespacedName → M (Log O Q) (Result Organization)
  fetch_organization n l = (env.get_organization l n, Call.get Kind.organization_kind n ∷ l)

  abbrev pub fetch_secret : NamespacedName → M (Log O Q) (Result Secret)
  fetch_secret n l = (env.get_secret l n, Call.get Kind.secret_kind n ∷ l)

  -- r.Update and r.Status().Update, which overwrite the caller's object with the answer
  abbrev pub write : O → M (Log O Q) (Option Error × O)
  write o l = (after_write o (env.update l o), Call.update o ∷ l)

  abbrev pub write_status : O → M (Log O Q) (Option Error × O)
  write_status o l = (after_write o (env.update_status l o), Call.update_status o ∷ l)

  -- grpc.NewClient
  abbrev pub connect : String → Bool → M (Log O Q) (Result Conn)
  connect target tls l = (env.new_client l target tls, Call.new_client target tls ∷ l)

  -- conn.Close
  abbrev pub close_conn : Conn → M (Log O Q) (Unit {0})
  close_conn c l = (tt, Call.close c ∷ l)

  -- metav1.Now
  abbrev pub clock : M (Log O Q) ℕ
  clock l = (env.now l, l)

-- The parts of a log: the calls of the gateway, the writes of the object, and of its status.
abbrev pub rpcs : {O Q : Type 0} → Log O Q → List (Option Conn × Headers × Q)
rpcs [] = []
rpcs (Call.rpc conn headers q ∷ l) = (conn, headers, q) ∷ rpcs l
rpcs (_ ∷ l) = rpcs l

abbrev pub updates : {O Q : Type 0} → Log O Q → List O
updates [] = []
updates (Call.update o ∷ l) = o ∷ updates l
updates (_ ∷ l) = updates l

abbrev pub status_updates : {O Q : Type 0} → Log O Q → List O
status_updates [] = []
status_updates (Call.update_status o ∷ l) = o ∷ status_updates l
status_updates (_ ∷ l) = status_updates l

-- How many of the connections that grpc.NewClient has answered in a log are not closed in it.
abbrev pub open_conns : {O Q : Type 0} → Env O Q → Log O Q → ℕ
open_conns env [] = 0
open_conns env (Call.new_client target tls ∷ l) =
    let n = open_conns env l in elim (env.new_client l target tls) [ ok _ ↦ suc n | err _ ↦ n ]
open_conns env (Call.close _ ∷ l) = open_conns env l - 1
open_conns env (_ ∷ l) = open_conns env l
