-- ===== src/Instances/Watches.antt =====
-- Which instances a change of a Secret reconciles.
use mathlib.Core.List.{Memᴰ}
use mathlib.Core.List.Memᴰ.{head, tail, not-nil, cases_cons}
use invora_controller.Prelude.{
  inl, inr, ◌≡◌, ◌↔◌, refl, ap, ◌∙◌, arith, true, false, some, List, [], ◌∷◌, Bool-cases, eq_iff,
}
use invora_controller.Go.{ok}
use invora_controller.Api.{NamespacedName, Instance}
use invora_controller.Base.{or_namespace}
use invora_controller.Instances.{names_secret, name_of, instances_naming, find_instances_for_secret}

-- The token of an instance is read from a Secret: the Secret has the name of the reference, and its
-- namespace or, where that is empty, the instance's.
abbrev pub ReadsToken : NamespacedName → Instance → Type 0
ReadsToken secret inst =
    (or_namespace inst.spec.token_ref.namespace inst.meta.namespace ≡ secret.namespace)
    × (inst.spec.token_ref.name ≡ secret.name)

names_secret-ReadsToken :
    (secret : NamespacedName) (inst : Instance)
    → (names_secret secret inst.spec.token_ref inst.meta.namespace ≡ true) ↔ ReadsToken secret inst
unfolding names_secret
names_secret-ReadsToken secret inst =
    let ref = inst.spec.token_ref in
    let ns = or_namespace ref.namespace inst.meta.namespace in
    (
      (λ h. (
        ground (arith, h, eq_iff ns secret.namespace),
        ground (arith, h, eq_iff ref.name secret.name, eq_iff ns secret.namespace),
      )),
      λ (p, q). ground (arith, p, q, eq_iff ns secret.namespace, eq_iff ref.name secret.name),
    )

-- An instance of a list, by its name, that reads its token from the Secret.
abbrev pub Reader : NamespacedName → NamespacedName → List Instance → Type 0
Reader secret name instances =
    (inst : Instance) × (Memᴰ inst instances) × (name ≡ name_of inst.meta) × ReadsToken secret inst

named_first :
    (secret : NamespacedName) (inst : Instance) (instances : List Instance)
    → names_secret secret inst.spec.token_ref inst.meta.namespace ≡ true
    → instances_naming secret (inst ∷ instances)
      ≡ name_of inst.meta ∷ instances_naming secret instances
unfolding instances_naming
named_first secret inst instances h = rw h refl

passed_over :
    (secret : NamespacedName) (inst : Instance) (instances : List Instance)
    → names_secret secret inst.spec.token_ref inst.meta.namespace ≡ false
    → instances_naming secret (inst ∷ instances) ≡ instances_naming secret instances
unfolding instances_naming
passed_over secret inst instances h = rw h refl

Reader-later :
    (secret name : NamespacedName) (inst : Instance) (instances : List Instance)
    → Reader secret name instances
    → Reader secret name (inst ∷ instances)
Reader-later secret name inst instances (found, m, same, reads) = (found, tail m, same, reads)

instances_naming-Reader :
    (secret name : NamespacedName) (instances : List Instance)
    → Memᴰ name (instances_naming secret instances)
    → Reader secret name instances
unfolding instances_naming
instances_naming-Reader secret name [] m = absurd (not-nil m)
instances_naming-Reader secret name (inst ∷ instances) m =
    let reads = names_secret-ReadsToken secret inst in
    elim (Bool-cases (names_secret secret inst.spec.token_ref inst.meta.namespace)) [
      | inl h ↦ elim (cases_cons (rw (named_first secret inst instances h) at m)) [
        | inl same ↦ (inst, head refl, same, reads.0 h)
        | inr m' ↦
            Reader-later secret name inst instances
              (instances_naming-Reader secret name instances m')
      ]
      | inr h ↦ Reader-later secret name inst instances (
          instances_naming-Reader secret name instances
            (rw (passed_over secret inst instances h) at m))
    ]

Reader-named :
    (secret name : NamespacedName) (instances : List Instance) (inst : Instance)
    → Memᴰ inst instances
    → name ≡ name_of inst.meta
    → ReadsToken secret inst
    → Memᴰ name (instances_naming secret instances)
Reader-named secret name [] inst m same reads = absurd (not-nil m)
Reader-named secret name (i ∷ instances) inst (head e) same reads =
    let named = (names_secret-ReadsToken secret i).1 (rw (← e) reads) in
    rw (named_first secret i instances named) (head (same ∙ ap (λ j. name_of j.meta) e))
Reader-named secret name (i ∷ instances) inst (tail m) same reads =
    let m' = Reader-named secret name instances inst m same reads in
    elim (Bool-cases (names_secret secret i.spec.token_ref i.meta.namespace)) [
      | inl h ↦ rw (named_first secret i instances h) (tail m')
      | inr h ↦ rw (passed_over secret i instances h) m'
    ]

-- A change of a Secret, where the instances are listed, reconciles just the names of the instances
-- that read their token from it, and of no others.
pub find_instances_for_secret-Reader :
    (secret name : NamespacedName) (instances : List Instance)
    → Memᴰ name (find_instances_for_secret (some secret) (ok instances))
      ↔ Reader secret name instances
unfolding find_instances_for_secret
find_instances_for_secret-Reader secret name instances = (
  instances_naming-Reader secret name instances,
  λ (inst, m, same, reads). Reader-named secret name instances inst m same reads,
)
