-- ===== src/ConnCache/Accounts.antt =====
-- Where the connections of the cache are: in its map, or closed.
use invora_controller.Prelude.{
  ℕ, suc, ◌+◌, ◌≤◌, String, ◌≡◌, refl, inl, inr, arith, Option, none, some, List, [], ◌∷◌, ◌==◌,
  eq_iff, eqb, ltb, if◌then◌else◌, lookup, delete, Option-cases,
}
use invora_controller.Go.{Error, ok}
use invora_controller.ConnCache.{ConnCache, new_conn_cache, get_or_dial, dial_into, invalidate}
use invora_controller.ConnCache.Goroutines.{
  System, Step, hit, miss, locked, invalidated, Steps, here, next,
}

-- How often a connection stands in the map, in a list, and a URL in the map.
abbrev pub cached : ℕ → List (String × ℕ) → ℕ
cached id [] = 0
cached id ((_, conn) ∷ m) = let n = cached id m in if eqb id conn then suc n else n

abbrev pub times : ℕ → List ℕ → ℕ
times id [] = 0
times id (conn ∷ l) = let n = times id l in if eqb id conn then suc n else n

abbrev pub keyed : String → List (String × ℕ) → ℕ
keyed url [] = 0
keyed url ((u, _) ∷ m) = let n = keyed url m in if u == url then suc n else n

-- Each connection that was dialled is once in the map or once closed, a number that was not dialled
-- is neither, and a URL has at most one connection.
pub record Accounted (c : ConnCache) : Type 0 where
  pub balance : (id : ℕ) → cached id c.conns + times id c.closed ≡ (if ltb id c.dials then 1 else 0)
  pub unique : (url : String) → keyed url c.conns ≤ 1

keyed-missing : (url : String) (m : List (String × ℕ)) → lookup url m ≡ none → keyed url m ≡ 0
keyed-missing url [] h = refl
keyed-missing url ((u, conn) ∷ m) h = ground (arith, h, keyed-missing url m)

keyed-delete : (url u : String) (m : List (String × ℕ)) → keyed u (delete url m) ≤ keyed u m
keyed-delete url u [] = omega arith
keyed-delete url u ((v, conn) ∷ m) = ground (arith, keyed-delete url u m)

cached-delete_missing :
    (id : ℕ) (url : String) (m : List (String × ℕ))
    → keyed url m ≡ 0
    → cached id (delete url m) ≡ cached id m
cached-delete_missing id url [] h = refl
cached-delete_missing id url ((u, conn) ∷ m) h = ground (arith, h, cached-delete_missing id url m)

cached-delete :
    (id : ℕ) (url : String) (conn : ℕ) (m : List (String × ℕ))
    → keyed url m ≤ 1
    → lookup url m ≡ some conn
    → (if eqb id conn then 1 else 0) + cached id (delete url m) ≡ cached id m
cached-delete id url conn [] once h = absurd (ground (arith, h))
cached-delete id url conn ((u, c) ∷ m) once h =
    ground (arith, once, h, cached-delete id url conn m, cached-delete_missing id url m)

dial_into-Accounted :
    (url : String) (failure : Option Error) (c : ConnCache)
    → lookup url c.conns ≡ none
    → Accounted c
    → Accounted (dial_into url failure c).1
unfolding dial_into
dial_into-Accounted url (some e) c missing a = a
dial_into-Accounted url none c missing a = record {
  balance = λ id. ground (arith, a.balance id);
  unique = λ u. ground (arith, a.unique u, keyed-missing url c.conns missing, eq_iff url u);
}

get_or_dial-Accounted :
    (url : String) (failure : Option Error) (c : ConnCache)
    → Accounted c
    → Accounted (get_or_dial url failure c).1
unfolding get_or_dial
get_or_dial-Accounted url failure c a = elim (Option-cases (lookup url c.conns)) [
  | inl missing ↦
      let same : get_or_dial url failure c ≡ dial_into url failure c = ground (arith, missing) in
      rw same (dial_into-Accounted url failure c missing a)
  | inr (conn, there) ↦
      let same : get_or_dial url failure c ≡ (ok conn, c) = ground (arith, there) in rw same a
]

invalidate-Accounted : (url : String) (c : ConnCache) → Accounted c → Accounted (invalidate url c)
unfolding invalidate
invalidate-Accounted url c a = elim (Option-cases (lookup url c.conns)) [
  | inl missing ↦ let same : invalidate url c ≡ c = ground (arith, missing) in rw same a
  | inr (conn, there) ↦ record {
    balance = λ id.
        ground (arith, a.balance id, there, cached-delete id url conn c.conns (a.unique url) there);
    unique = λ u. ground (arith, there, a.unique u, keyed-delete url u c.conns);
  }
]

Step-Accounted : {s t : System} → Step s t → Accounted s.cache → Accounted t.cache
Step-Accounted (hit s url conn h) a = a
Step-Accounted (miss s url h) a = a
Step-Accounted (locked s before after url failure w) a = get_or_dial-Accounted url failure s.cache a
Step-Accounted (invalidated s url) a = invalidate-Accounted url s.cache a

Steps-Accounted : {s t : System} → Steps s t → Accounted s.cache → Accounted t.cache
Steps-Accounted here a = a
Steps-Accounted (next steps step) a = Step-Accounted step (Steps-Accounted steps a)

abbrev pub idle : System
idle = record { cache = new_conn_cache; waiting = []; returned = [] }

-- However the steps of any number of goroutines interleave from an empty cache: every connection
-- that was dialled is either in the map, once, or was closed, once, and no URL has two.
pub Steps-from_idle : {t : System} → Steps idle t → Accounted t.cache
Steps-from_idle steps =
    Steps-Accounted steps (record { balance = λ id. ground arith; unique = λ u. omega arith })
