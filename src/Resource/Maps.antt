-- ===== src/Resource/Maps.antt =====
-- mapsEqual of orgresource_helpers.go, which nothing calls. A map is its entries.
use invora_controller.Prelude.{
  inl, inr, Bool-cases, Option-cases, String, Bool, true, false, none, some, List, [], ◌∷◌, ◌==◌,
  ◌&&◌, ◌≡◌, arith, eq_iff, eqb, length, lookup,
}

-- The loop over the first map.
included : List (String × String) → List (String × String) → Bool
included [] b = true
included ((k, v) ∷ a) b = (elim (lookup k b) [ none ↦ false | some w ↦ w == v ]) && included a b

maps_equal : List (String × String) → List (String × String) → Bool
unfolding included
maps_equal a b = eqb (length a) (length b) && included a b

-- What the first of two equal maps has under a key, the second has.
included-lookup :
    (a b : List (String × String)) (k v : String)
    → included a b ≡ true
    → lookup k a ≡ some v
    → lookup k b ≡ some v
unfolding included
included-lookup [] b k v h has = absurd (ground arith)
included-lookup ((j, w) ∷ a) b k v h has = elim (Option-cases (lookup j b)) [
  | inl missing ↦ absurd (ground (arith, missing))
  | inr (x, held) ↦ elim (Bool-cases (j == k)) [
    | inl same ↦ rw (← (eq_iff j k).0 same, held) (ground (arith, held, same, eq_iff x w))
    | inr other ↦ included-lookup a b k v (ground arith) (ground (arith, other))
  ]
]

maps_equal-lookup :
    (a b : List (String × String)) (k v : String)
    → maps_equal a b ≡ true
    → lookup k a ≡ some v
    → lookup k b ≡ some v
unfolding maps_equal
maps_equal-lookup a b k v h has = included-lookup a b k v (ground arith) has
