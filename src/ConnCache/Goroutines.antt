-- ===== src/ConnCache/Goroutines.antt =====
-- Any number of goroutines at the cache, and the cache in which Get is one step.
use invora_controller.Prelude.{
  ℕ, String, ◌≡◌, ◌⊎◌, inl, inr, refl, arith, ◌<>◌, ◌==◌, eq_iff, if◌then◌else◌, Option-cases,
  lookup-delete, Option, none, some, List, ◌∷◌, ◌++◌, lookup,
}
use invora_controller.Go.{Error, wrap, Result, ok, err}
use invora_controller.ConnCache.{ConnCache, read_cached, get_or_dial, dial_into, invalidate}

-- The cache, the goroutines that have seen no connection under the read lock and wait for the write
-- lock, by their URLs, and what each finished Get has returned, newest first.
pub record System : Type 0 where
  pub cache : ConnCache
  pub waiting : List String
  pub returned : List (String × Result ℕ)

-- A step of some goroutine.
pub data Step : System → System → Type 0 where
  hit :
      (s : System) (url : String) (conn : ℕ)
      → read_cached url s.cache ≡ some conn
      → Step s (record s { returned = (url, ok conn) ∷ s.returned })
  miss :
      (s : System) (url : String)
      → read_cached url s.cache ≡ none
      → Step s (record s { waiting = url ∷ s.waiting })
  locked :
      (s : System) (before after : List String) (url : String) (failure : Option Error)
      → s.waiting ≡ before ++ url ∷ after
      → Step s (record {
        cache = (get_or_dial url failure s.cache).1;
        waiting = before ++ after;
        returned = (url, (get_or_dial url failure s.cache).0) ∷ s.returned;
      })
  invalidated : (s : System) (url : String) → Step s (record s { cache = invalidate url s.cache })

pub data Steps : System → System → Type 0 where
  here : {s : System} → Steps s s
  next : {s t u : System} → Steps s t → Step t u → Steps s u

-- What a caller sees: the connection of each URL, and what the finished Gets have returned.
pub record Seen : Type 0 where
  pub table : String → Option ℕ
  pub returned : List (String × Result ℕ)

abbrev pub seen : System → Seen
seen s = record { table = λ url. lookup url s.cache.conns; returned = s.returned }

-- A table in which a Get is one step: it returns the connection that stands there, or puts a new
-- one there, or fails and leaves the table.
pub data AtomicStep (v w : Seen) : Type 0 where
  found :
      (url : String) (conn : ℕ)
      → v.table url ≡ some conn
      → ((u : String) → w.table u ≡ v.table u)
      → w.returned ≡ (url, ok conn) ∷ v.returned
      → AtomicStep v w
  opened :
      (url : String) (conn : ℕ)
      → v.table url ≡ none
      → ((u : String) → w.table u ≡ (if url == u then some conn else v.table u))
      → w.returned ≡ (url, ok conn) ∷ v.returned
      → AtomicStep v w
  failed :
      (url : String) (e : Error)
      → v.table url ≡ none
      → ((u : String) → w.table u ≡ v.table u)
      → w.returned ≡ (url, err e) ∷ v.returned
      → AtomicStep v w
  dropped :
      (url : String)
      → ((u : String) → w.table u ≡ (if url == u then none else v.table u))
      → w.returned ≡ v.returned
      → AtomicStep v w

pub data AtomicSteps (v : Seen) : Seen → Type 0 where
  start : AtomicSteps v v
  more : {w x : Seen} → AtomicSteps v w → AtomicStep w x → AtomicSteps v x

-- The system after the critical section under the write lock.
abbrev after_lock : System → List String → String → Option Error → System
after_lock s waiting url failure = record {
  cache = (get_or_dial url failure s.cache).1;
  waiting = waiting;
  returned = (url, (get_or_dial url failure s.cache).0) ∷ s.returned;
}

opened_or_failed :
    (s : System) (waiting : List String) (url : String) (failure : Option Error)
    → lookup url s.cache.conns ≡ none
    → AtomicStep (seen s) (seen (after_lock s waiting url failure))
unfolding get_or_dial dial_into
opened_or_failed s waiting url none missing =
    opened url s.cache.dials missing (λ u. ground (arith, missing)) (ground (arith, missing))
opened_or_failed s waiting url (some e) missing =
    failed url (wrap ("dialing gateway " <> url) e) missing (λ u. ground (arith, missing))
      (ground (arith, missing))

after_lock-AtomicStep :
    (s : System) (waiting : List String) (url : String) (failure : Option Error)
    → AtomicStep (seen s) (seen (after_lock s waiting url failure))
unfolding get_or_dial
after_lock-AtomicStep s waiting url failure = elim (Option-cases (lookup url s.cache.conns)) [
  | inr (conn, there) ↦ found url conn there (λ u. ground (arith, there)) (ground (arith, there))
  | inl missing ↦ opened_or_failed s waiting url failure missing
]

invalidated-AtomicStep :
    (s : System) (url : String)
    → AtomicStep (seen s) (seen (record s { cache = invalidate url s.cache }))
unfolding invalidate
invalidated-AtomicStep s url = elim (Option-cases (lookup url s.cache.conns)) [
  | inr (conn, there) ↦
      dropped url (λ u. ground (arith, there, lookup-delete url u s.cache.conns)) refl
  | inl missing ↦ dropped url (λ u. ground (arith, missing, eq_iff url u)) refl
]

Step-AtomicStep : {s t : System} → Step s t → (seen t ≡ seen s) ⊎ AtomicStep (seen s) (seen t)
unfolding read_cached
Step-AtomicStep (hit s url conn there) = inr (found url conn there (λ u. refl) refl)
Step-AtomicStep (miss s url missing) = inl refl
Step-AtomicStep (locked s before after url failure w) =
    inr (after_lock-AtomicStep s (before ++ after) url failure)
Step-AtomicStep (invalidated s url) = inr (invalidated-AtomicStep s url)

-- However the steps of any number of goroutines interleave, what their callers see is what a table
-- shows in which each Get is one step.
pub Steps-AtomicSteps : {s t : System} → Steps s t → AtomicSteps (seen s) (seen t)
Steps-AtomicSteps here = start
Steps-AtomicSteps (next steps step) = elim (Step-AtomicStep step) [
  | inl same ↦ rw same (Steps-AtomicSteps steps)
  | inr moved ↦ more (Steps-AtomicSteps steps) moved
]
