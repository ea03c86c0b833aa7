-- ===== src/Gateway.antt =====
-- internal/gateway/dial.go, and internal/billingclient/resolve.go.
pub mod Secrets
use invora_controller.Prelude.{
  ℕ, String, ◌<>◌, Bool, true, false, none, some, List, [], ◌∷◌, ◌==◌, ◌&&◌, ◌||◌, not, codes, eqb,
  if◌then◌else◌, lookup,
}
use invora_controller.Go.{errorf, wrap, quoted, Result, ok, err, M, ◌>>=◌, pure}
use invora_controller.Cluster.{Url, Platform, Conn, Log, Env, fetch_secret, connect}

-- Whether one list of code points begins another.
unfoldable pub begins : List ℕ → List ℕ → Bool
begins [] s = true
begins (c ∷ p) [] = false
begins (c ∷ p) (d ∷ s) = eqb c d && begins p s

-- strings.Contains
unfoldable pub has_text : List ℕ → List ℕ → Bool
unfolding begins
has_text p [] = begins p []
has_text p (c ∷ s) = begins p (c ∷ s) || has_text p s

-- net.JoinHostPort: a host with a colon (an IPv6 address) is bracketed.
unfoldable pub join_host_port : String → String → String
unfolding has_text
join_host_port host port =
    if has_text (codes ":") (codes host) then "[" <> host <> "]:" <> port else host <> ":" <> port

abbrev with_default_port : Url → String → String
with_default_port u port = if u.port == "" then join_host_port u.hostname port else u.host

-- The dial target, and whether the transport credentials are TLS.
unfoldable pub target : Platform → String → Result (String × Bool)
unfolding has_text join_host_port
target p gateway_url =
    if not (has_text (codes "://") (codes gateway_url))
    then ok (gateway_url, false)
    else elim (p.url_parse gateway_url) [
      | err e ↦ err (wrap ("invalid gateway URL " <> quoted gateway_url) e)
      | ok u ↦
          if u.scheme == "https"
          then ok (with_default_port u "443", true)
          else if u.scheme == "http"
          then ok (with_default_port u "80", false)
          else err (
              errorf (
                "unsupported gateway URL scheme "
                <> quoted u.scheme
                <> " in "
                <> quoted gateway_url
                <> " (want http or https)"))
    ]

module _ {O Q : Type 0} (env : Env O Q) where
  unfoldable pub dial : String → M (Log O Q) (Result Conn)
  unfolding target
  dial gateway_url = elim (target env.platform gateway_url) [
    | err e ↦ pure (err e)
    | ok (t, tls) ↦ connect env t tls
  ]

  unfoldable pub resolve_secret_value :
      String → String → String → String → M (Log O Q) (Result String)
  resolve_secret_value secret_name secret_namespace secret_key owner_namespace =
      if not (owner_namespace == "") && not (secret_namespace == owner_namespace)
      then pure (
          err (
            errorf (
              "cross-namespace Secret reference rejected: owner is in "
              <> quoted owner_namespace
              <> " but referenced Secret is in "
              <> quoted secret_namespace
              <> " (set ownerNamespace='' on a trusted caller to opt out)")))
      else do
        got ← fetch_secret env (record { namespace = secret_namespace; name = secret_name })
        elim got [
          | err e ↦
              pure (err (wrap ("getting Secret " <> secret_namespace <> "/" <> secret_name) e))
          | ok secret ↦ elim (lookup secret_key secret.entries) [
            | none ↦ pure (
                err (
                  errorf (
                    "key "
                    <> quoted secret_key
                    <> " not found in Secret "
                    <> secret_namespace
                    <> "/"
                    <> secret_name)))
            | some value ↦ pure (ok value)
          ]
        ]
