-- ===== src/Tests/Processes.antt =====
-- The theorems on the process, for two namespaces.
use invora_controller.Prelude.{
  ℕ, suc, String, ◌==◌, ◌≡◌, refl, false, none, some, if◌then◌else◌, List, [], ◌∷◌, map, is_space,
}
use invora_controller.Go.{ok, errorf}
use invora_controller.Process.{Os, split_namespaces}
use invora_controller.Process.Main.{Manager, Flags, main, finished, exited}
use invora_controller.Process.Namespaces.{
  Entry, entry_text, join_commas, split_namespaces-join_commas,
}

-- A name with a space before it, an entry that is blank, and a name with a space after it.
abbrev watched : List Entry
watched =
    record { before = " "; name = "invora-dev"; after = "" }
    ∷ record { before = ""; name = ""; after = "  " }
    ∷ record { before = ""; name = "billing"; after = " " }
    ∷ []

split_namespaces-join_commas_example :
    split_namespaces (join_commas (map entry_text watched)) ≡ "invora-dev" ∷ "billing" ∷ []
unfolding is_space
split_namespaces-join_commas_example = split_namespaces-join_commas watched (
  (refl, refl, refl, refl, refl),
  ((refl, refl, refl, refl, refl), ((refl, refl, refl, refl, refl), tt)),
)

-- No environment variable is set.
abbrev bare : Os
bare = record {
  getenv = λ name. "";
  read_file = λ path. ok [];
  parse_duration = λ v. none;
  equal_fold = λ s t. s == t;
}

-- A manager that counts its calls, and of which one controller cannot be set up.
abbrev counting : String → Manager ℕ
counting bad = record {
  new_manager = λ options n. (none, suc n);
  set_up = λ name n. (if name == bad then some (errorf "no kind") else none, suc n);
  add_subscriber = λ config n. (none, suc n);
  add_healthz_check = λ name n. (none, suc n);
  add_readyz_check = λ name n. (none, suc n);
  start = λ n. (none, suc n);
}

abbrev defaults : Flags
defaults = record { metrics_addr = ":8080"; probe_addr = ":8081"; enable_leader_election = false }

-- The 17 controllers, the two checks and the start come after the manager; with no Zitadel domain
-- there is no subscriber. A controller that cannot be set up ends the process at once.
main_run :
    (main bare (counting "") defaults 0 ≡ (finished, 21))
    × (main bare (counting "InvoraBillingPlan") defaults 0
        ≡ (exited "unable to create controller" (errorf "no kind"), 5))
unfolding main
main_run = (refl, refl)
