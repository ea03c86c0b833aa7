-- ===== src/Process/Namespaces.antt =====
-- splitNamespaces, and the texts that it reads back.
use invora_controller.Prelude.{
  ℕ, String, ◌<>◌, ◌≡◌, refl, ap, ◌∙◌, arith, Bool, true, false, List, [], ◌∷◌, ◌==◌, eqb, eq_iff,
  if◌then◌else◌, ◌&&◌, not, map, trim_space, trim_left, trim_right, is_space, All, inl, inr,
  Bool-cases,
}
use Prim.Native.Char.{Char, code}
use text.Mathlib.TextLemmas.{append-nil, nil-append, cons-append}
use invora_controller.Process.{split_commas, trimmed_parts, split_namespaces}

-- Names with commas between them.
abbrev pub join_commas : List String → String
join_commas [] = ""
join_commas (name ∷ []) = name
join_commas (name ∷ (next ∷ names)) = name <> "," <> join_commas (next ∷ names)

abbrev pub has_comma : String → Bool
has_comma String.[] = false
has_comma (String.◌∷◌ c s) = let rest = has_comma s in if eqb (code c) b',' then true else rest

abbrev pub all_space : String → Bool
all_space String.[] = true
all_space (String.◌∷◌ c s) = is_space (code c) && all_space s

-- A name has no comma, and no white space at its ends. It may be empty.
abbrev starts_plain : String → Bool
starts_plain String.[] = true
starts_plain (String.◌∷◌ c s) = not (is_space (code c))

abbrev ends_plain : String → Bool
ends_plain String.[] = true
ends_plain (String.◌∷◌ c s) =
    let rest = ends_plain s in if s == "" then not (is_space (code c)) else rest

-- A name with what stands before and after it, up to the commas.
pub record Entry : Type 0 where
  pub before : String
  pub name : String
  pub after : String

abbrev pub entry_text : Entry → String
entry_text e = e.before <> e.name <> e.after

abbrev pub IsPadded : Entry → Type 0
IsPadded e =
    (all_space e.before ≡ true)
    × (all_space e.after ≡ true)
    × (has_comma e.name ≡ false)
    × (starts_plain e.name ≡ true)
    × (ends_plain e.name ≡ true)

-- The texts of a list that are not empty, in their order.
abbrev pub non_empty : List String → List String
non_empty [] = []
non_empty (name ∷ names) = let rest = non_empty names in if name == "" then rest else name ∷ rest

-- One step of each trim, with the test on the character kept shut.
trim_left-step :
    (c : Char) (s : String)
    → trim_left (String.◌∷◌ c s) ≡ (if is_space (code c) then trim_left s else String.◌∷◌ c s)
unfolding trim_left
trim_left-step c s = refl

trim_right-step :
    (c : Char) (s : String)
    → trim_right (String.◌∷◌ c s)
      ≡ (if trim_right s == "" && is_space (code c) then "" else String.◌∷◌ c (trim_right s))
unfolding trim_right
trim_right-step c s = refl

comma_is_no_space : (c : ℕ) → eqb c b',' ≡ true → is_space c ≡ false
unfolding is_space
comma_is_no_space c h = let same : c ≡ b',' = ground (arith, h) in rw same refl

has_comma-all_space : (s : String) → all_space s ≡ true → has_comma s ≡ false
has_comma-all_space String.[] h = refl
has_comma-all_space (String.◌∷◌ c s) h =
    ground (arith, h, comma_is_no_space (code c), has_comma-all_space s)

has_comma-append :
    (s t : String) → has_comma s ≡ false → has_comma t ≡ false → has_comma (s <> t) ≡ false
has_comma-append String.[] t h h' = rw (nil-append t) h'
has_comma-append (String.◌∷◌ c s) t h h' =
    rw (cons-append c s t) (ground (arith, h, has_comma-append s t, h'))

trim_left-append : (s t : String) → all_space s ≡ true → trim_left (s <> t) ≡ trim_left t
trim_left-append String.[] t h = rw (nil-append t) refl
trim_left-append (String.◌∷◌ c s) t h =
    let here : is_space (code c) ≡ true = ground (arith, h) in
    let rest : all_space s ≡ true = ground (arith, h) in
    rw (cons-append c s t, trim_left-step c (s <> t), here) (trim_left-append s t rest)

trim_right-all_space : (s : String) → all_space s ≡ true → trim_right s ≡ ""
unfolding trim_right
trim_right-all_space String.[] h = refl
trim_right-all_space (String.◌∷◌ c s) h =
    let here : is_space (code c) ≡ true = ground (arith, h) in
    let rest : all_space s ≡ true = ground (arith, h) in
    rw (trim_right-step c s, trim_right-all_space s rest, here) refl

trim_right-append : (s t : String) → all_space t ≡ true → trim_right (s <> t) ≡ trim_right s
unfolding trim_right
trim_right-append String.[] t h = rw (nil-append t) (trim_right-all_space t h)
trim_right-append (String.◌∷◌ c s) t h =
    rw (cons-append c s t, trim_right-step c (s <> t), trim_right-step c s, trim_right-append s t h)
      refl

trim_right-ends_plain : (s : String) → ends_plain s ≡ true → trim_right s ≡ s
unfolding trim_right
trim_right-ends_plain String.[] h = refl
trim_right-ends_plain (String.◌∷◌ c s) h = elim (Bool-cases (s == "")) [
  | inl empty ↦
      let blank = (eq_iff s "").0 empty in
      let trimmed : trim_right s ≡ s = rw blank refl in
      let last : is_space (code c) ≡ false = ground (arith, h, empty) in
      rw (trim_right-step c s, trimmed, last, empty) refl
  | inr full ↦
      let trimmed = trim_right-ends_plain s (ground (arith, h, full)) in
      rw (trim_right-step c s, trimmed, full) refl
]

trim_left-starts_plain :
    (name after : String)
    → starts_plain name ≡ true
    → ends_plain name ≡ true
    → all_space after ≡ true
    → trim_right (trim_left (name <> after)) ≡ name
unfolding trim_left trim_right
trim_left-starts_plain String.[] after starts ends blank =
    let none_left : trim_left after ≡ "" =
      rw (← append-nil after) (trim_left-append after "" blank) in
    rw (nil-append after, none_left) refl
trim_left-starts_plain (String.◌∷◌ c s) after starts ends blank =
    let first : is_space (code c) ≡ false = ground (arith, starts) in
    let kept : trim_left (String.◌∷◌ c s <> after) ≡ String.◌∷◌ c s <> after =
      rw (cons-append c s after, trim_left-step c (s <> after), first) refl in
    ap (λ t. trim_right t) kept
    ∙ trim_right-append (String.◌∷◌ c s) after blank
    ∙ trim_right-ends_plain (String.◌∷◌ c s) ends

trim_space-entry : (e : Entry) → IsPadded e → trim_space (entry_text e) ≡ e.name
unfolding trim_space
trim_space-entry e p =
    rw (trim_left-append e.before (e.name <> e.after) p.0)
      (trim_left-starts_plain e.name e.after p.3 p.4 p.1)

has_comma-entry : (e : Entry) → IsPadded e → has_comma (entry_text e) ≡ false
has_comma-entry e (b, a, plain, starts, ends) =
    has_comma-append e.before (e.name <> e.after) (has_comma-all_space e.before b)
      (has_comma-append e.name e.after plain (has_comma-all_space e.after a))

split_commas-plain : (name : String) → has_comma name ≡ false → split_commas name ≡ name ∷ []
unfolding split_commas
split_commas-plain String.[] h = refl
split_commas-plain (String.◌∷◌ c s) h =
    let plain : eqb (code c) b',' ≡ false = ground (arith, h) in
    let rest : has_comma s ≡ false = ground (arith, h) in rw (plain, split_commas-plain s rest) refl

split_commas-append :
    (name rest : String)
    → has_comma name ≡ false
    → split_commas (name <> "," <> rest) ≡ name ∷ split_commas rest
unfolding split_commas
split_commas-append String.[] rest h =
    let front : "," <> rest ≡ String.◌∷◌ "," rest =
      cons-append "," "" rest ∙ ap (λ t. String.◌∷◌ "," t) (nil-append rest) in
    rw (nil-append ("," <> rest), front) refl
split_commas-append (String.◌∷◌ c s) rest h =
    let plain : eqb (code c) b',' ≡ false = ground (arith, h) in
    let others : has_comma s ≡ false = ground (arith, h) in
    rw (cons-append c s ("," <> rest), plain, split_commas-append s rest others) refl

trimmed_parts-entry :
    (e : Entry) (parts : List String) (names : List String)
    → IsPadded e
    → trimmed_parts parts ≡ non_empty names
    → trimmed_parts (entry_text e ∷ parts) ≡ non_empty (e.name ∷ names)
unfolding trimmed_parts
trimmed_parts-entry e parts names padded h = rw (trim_space-entry e padded, h) (ground arith)

parts-joined :
    (e : Entry) (entries : List Entry)
    → All IsPadded (e ∷ entries)
    → trimmed_parts (split_commas (join_commas (map entry_text (e ∷ entries))))
      ≡ non_empty (map (λ x. x.name) (e ∷ entries))
unfolding trimmed_parts
parts-joined e [] (padded, rest) =
    rw (split_commas-plain (entry_text e) (has_comma-entry e padded))
      (trimmed_parts-entry e [] [] padded refl)
parts-joined e (other ∷ entries) (padded, rest) =
    rw
      (split_commas-append (entry_text e) (join_commas (map entry_text (other ∷ entries)))
        (has_comma-entry e padded))
      (trimmed_parts-entry e (split_commas (join_commas (map entry_text (other ∷ entries))))
        (map (λ x. x.name) (other ∷ entries)) padded (parts-joined other entries rest))

split_namespaces-parts : (v : String) → split_namespaces v ≡ trimmed_parts (split_commas v)
unfolding split_namespaces trim_space
split_namespaces-parts v = elim (Bool-cases (v == "")) [
  | inr full ↦ rw full refl
  | inl empty ↦ let blank = (eq_iff v "").0 empty in rw blank refl
]

-- Of entries with commas between them, each a name with white space before and after it, where a
-- name has no comma and no white space at its ends and may be empty: splitNamespaces answers the
-- names that are not empty, in their order and without the white space.
pub split_namespaces-join_commas :
    (entries : List Entry)
    → All IsPadded entries
    → split_namespaces (join_commas (map entry_text entries))
      ≡ non_empty (map (λ e. e.name) entries)
unfolding split_namespaces
split_namespaces-join_commas [] padded = refl
split_namespaces-join_commas (e ∷ entries) padded =
    split_namespaces-parts (join_commas (map entry_text (e ∷ entries)))
    ∙ parts-joined e entries padded
