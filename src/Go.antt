-- ===== src/Go.antt =====
-- Go idioms of internal/: errors as values, durations, and the state-passing monad in which a
-- method runs against a log of its external calls.
use invora_controller.Prelude.{
  ℕ, ◌*◌, String, ◌<>◌, ◌≡◌, refl, ◌⊎◌, inl, inr, Bool, true, false, Option, none, some,
}

-- What the controllers ask of an error: its text, the code that grpc's status.FromError finds
-- (none when the error carries no status), and the reason that apierrors reports.
pub data ApiReason : Type 0 where
  not_found already_exists other : ApiReason

pub record Error : Type 0 where
  pub text : String
  pub grpc_code : Option ℕ
  pub reason : ApiReason

-- errors.New, and fmt.Errorf with no %w
abbrev pub errorf : String → Error
errorf s = record { text = s; grpc_code = none; reason = other }

-- fmt.Errorf("s: %w", e): errors.As still finds the wrapped error.
abbrev pub wrap : String → Error → Error
wrap s e = record e { text = s <> ": " <> e.text }

-- The verb %q of fmt, for text that needs no escape.
abbrev pub quoted : String → String
quoted s = "\"" <> s <> "\""

-- apierrors.IsNotFound and apierrors.IsAlreadyExists
abbrev pub is_api_not_found : Error → Bool
is_api_not_found e = elim e.reason [ not_found ↦ true | _ ↦ false ]

abbrev pub is_api_already_exists : Error → Bool
is_api_already_exists e = elim e.reason [ already_exists ↦ true | _ ↦ false ]

-- codes.NotFound and codes.AlreadyExists of google.golang.org/grpc/codes
abbrev pub code_unknown : ℕ
code_unknown = 2

abbrev pub code_not_found : ℕ
code_not_found = 5

abbrev pub code_already_exists : ℕ
code_already_exists = 6

-- status.Code
abbrev pub status_code : Error → ℕ
status_code e = elim e.grpc_code [ none ↦ code_unknown | some c ↦ c ]

-- client.IgnoreNotFound
abbrev pub ignore_not_found : Error → Option Error
ignore_not_found e = elim e.reason [ not_found ↦ none | _ ↦ some e ]

-- A call that returns a value and an error.
pub data Result {ℓ} (A : Type ℓ) : Type ℓ where
  ok : A → Result A
  err : Error → Result A

-- A computation over a state of type L.
abbrev pub M {ℓ κ} : Type ℓ → Type κ → Type (ℓ ⊔ κ)
M L A = L → A × L

infixl 5 ◌>>=◌ ◌>>◌
abbrev pub ◌>>=◌ {ℓ κ μ} : {L : Type ℓ} {A : Type κ} {B : Type μ} → M L A → (A → M L B) → M L B
◌>>=◌ m f l = let (a, l') = m l in f a l'

abbrev pub ◌>>◌ {ℓ κ μ} : {L : Type ℓ} {A : Type κ} {B : Type μ} → M L A → M L B → M L B
m >> k = m >>= λ _. k

abbrev pub pure {ℓ κ} : {L : Type ℓ} {A : Type κ} → A → M L A
pure a l = (a, l)

-- time.Duration in nanoseconds; `negsuc n` is -(n + 1).
pub data ℤ : Type 0 where
  pos : ℕ → ℤ
  negsuc : ℕ → ℤ

abbrev pub seconds : ℕ → ℤ
seconds n = pos (n * 1_000_000_000)

-- ctrl.Result, and what Reconcile returns.
pub record CtrlResult : Type 0 where
  pub requeue : Bool
  pub requeue_after : ℤ

abbrev pub Outcome : Type 0
Outcome = CtrlResult × Option Error

abbrev pub no_requeue : CtrlResult
no_requeue = record { requeue = false; requeue_after = pos 0 }

abbrev pub requeue_now : CtrlResult
requeue_now = record { requeue = true; requeue_after = pos 0 }

abbrev pub requeue_after : ℤ → CtrlResult
requeue_after d = record { requeue = false; requeue_after = d }

-- To split on the result of a call and keep the equation.
pub Result-cases {ℓ} :
    {A : Type ℓ} (r : Result A) → ((e : Error) × (r ≡ err e)) ⊎ ((a : A) × (r ≡ ok a))
Result-cases (err e) = inl (e, refl)
Result-cases (ok a) = inr (a, refl)
