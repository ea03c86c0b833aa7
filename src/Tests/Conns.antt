-- ===== src/Tests/Conns.antt =====
-- The theorems on the cache of connections, at two goroutines that both miss the same URL.
use invora_controller.Prelude.{String, refl, none, [], ◌∷◌}
use invora_controller.ConnCache.{get_or_dial, read_cached, invalidate}
use invora_controller.ConnCache.Goroutines.{
  System, miss, locked, invalidated, Steps, here, next, AtomicSteps, seen, Steps-AtomicSteps,
}
use invora_controller.ConnCache.Accounts.{Accounted, idle, Steps-from_idle}

abbrev url : String
url = "https://gateway.example.org"

abbrev both_missed : System
both_missed = record { cache = idle.cache; waiting = url ∷ url ∷ []; returned = [] }

abbrev one_dialled : System
one_dialled = record {
  cache = (get_or_dial url none both_missed.cache).1;
  waiting = url ∷ [];
  returned = (url, (get_or_dial url none both_missed.cache).0) ∷ [];
}

abbrev both_returned : System
both_returned = record {
  cache = (get_or_dial url none one_dialled.cache).1;
  waiting = [];
  returned = (url, (get_or_dial url none one_dialled.cache).0) ∷ one_dialled.returned;
}

abbrev dropped_again : System
dropped_again = record both_returned { cache = invalidate url both_returned.cache }

race : Steps idle dropped_again
unfolding read_cached
race =
    next
      (next
        (next
          (next (next here (miss idle url refl))
            (miss (record idle { waiting = url ∷ [] }) url refl))
          (locked both_missed [] (url ∷ []) url none refl))
        (locked one_dialled [] [] url none refl))
      (invalidated both_returned url)

Steps-AtomicSteps_example : AtomicSteps (seen idle) (seen dropped_again)
Steps-AtomicSteps_example = Steps-AtomicSteps race

Steps-from_idle_example : Accounted dropped_again.cache
Steps-from_idle_example = Steps-from_idle race
