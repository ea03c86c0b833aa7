-- ===== src/ConnCache.antt =====
-- internal/gateway/conn.go: the cache of connections by gateway URL, and AuthContext.
-- A connection is the number of successful dials before its own. Each function is one critical
-- section of the mutex, which runs as one step.
pub mod Accounts
pub mod Goroutines
use invora_controller.Prelude.{
  ℕ, suc, String, ◌<>◌, Option, none, some, List, [], ◌∷◌, ◌==◌, not, if◌then◌else◌, lookup, delete,
}
use invora_controller.Go.{Error, wrap, Result, ok, err}
use invora_controller.Cluster.{Headers}
use invora_controller.Base.{bearer}

-- `dials` counts the connections that gateway.Dial has returned, and `closed` has those on which
-- Close was called.
pub record ConnCache : Type 0 where
  pub conns : List (String × ℕ)
  pub dials : ℕ
  pub closed : List ℕ

abbrev pub new_conn_cache : ConnCache
new_conn_cache = record { conns = []; dials = 0; closed = [] }

-- The part of Get under the read lock.
unfoldable pub read_cached : String → ConnCache → Option ℕ
read_cached url c = lookup url c.conns

-- The dial, whose error is given where it fails.
unfoldable pub dial_into : String → Option Error → ConnCache → Result ℕ × ConnCache
dial_into url (some e) c = (err (wrap ("dialing gateway " <> url) e), c)
dial_into url none c =
    (ok c.dials, record c { conns = (url, c.dials) ∷ c.conns; dials = suc c.dials })

-- The part of Get under the write lock.
unfoldable pub get_or_dial : String → Option Error → ConnCache → Result ℕ × ConnCache
unfolding dial_into
get_or_dial url failure c = elim (lookup url c.conns) [
  | some conn ↦ (ok conn, c)
  | none ↦ dial_into url failure c
]

unfoldable pub invalidate : String → ConnCache → ConnCache
invalidate url c = elim (lookup url c.conns) [
  | some conn ↦ record c { conns = delete url c.conns; closed = conn ∷ c.closed }
  | none ↦ c
]

-- AuthContext: the metadata that it appends.
unfoldable pub auth_context : String → String → Headers
auth_context token org_id =
    if not (org_id == "")
    then bearer token ∷ ("x-zitadel-orgid", org_id) ∷ []
    else bearer token ∷ []
