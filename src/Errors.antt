-- ===== src/Errors.antt =====
-- Application errors (src/lib/app-error.ts) and the result of a call that may throw one.
use my_detail_os_backend.Prelude.{◌⊎◌, inl, inr, ℕ, String, Bool, true, false, ◌≡◌, refl}

-- `ApiErrorCode`
pub data ApiErrorCode : Type 0 where
  validation unauthorized forbidden not_found conflict payload_too_large internal : ApiErrorCode

-- `class AppError`; a plain `Error` is one with code `internal`.
pub record AppError : Type 0 where
  pub status : ℕ
  pub code : ApiErrorCode
  pub message : String

abbrev pub app_error : ApiErrorCode → ℕ → String → AppError
app_error c n m = record { status = n; code = c; message = m }

-- The error classes that the services throw.
abbrev pub validation_error : String → AppError
validation_error = app_error validation 400

abbrev pub forbidden_error : String → AppError
forbidden_error = app_error forbidden 403

abbrev pub not_found_error : String → AppError
not_found_error = app_error not_found 404

abbrev pub conflict_error : String → AppError
conflict_error = app_error conflict 409

-- `throw new Error(message)`: the error handler answers with 500.
abbrev pub plain_error : String → AppError
plain_error = app_error internal 500

-- What a call gives: its value, or the error that it throws.
pub data Result {ℓ} (Value : Type ℓ) : Type ℓ where
  err : AppError → Result Value
  ok : Value → Result Value

-- `if (bad) throw e;`
abbrev pub throw_if : Bool → AppError → Result (Unit {0})
throw_if bad e = elim bad [ false ↦ ok tt | true ↦ err e ]

pub throw_if-eq-ok : (b : Bool) (e : AppError) {u : Unit {0}} → throw_if b e ≡ ok u → b ≡ false
throw_if-eq-ok true e h = cc
throw_if-eq-ok false e h = refl

pub ok_inj {ℓ} : {A : Type ℓ} {a b : A} → ok a ≡ ok b → a ≡ b
ok_inj h = cc

pub absurd_err {ℓ κ} : {A : Type ℓ} {P : Type κ} {e : AppError} {a : A} → err e ≡ ok a → P
absurd_err h = cc

pub Result-cases {ℓ} :
    {A : Type ℓ} (m : Result A) → ((e : AppError) × (m ≡ err e)) ⊎ ((a : A) × (m ≡ ok a))
Result-cases (err e) = inl (e, refl)
Result-cases (ok a) = inr (a, refl)

module _ {ℓ κ} {Value : Type ℓ} {Next : Type κ} where
  infixl 5 ◌>>=◌
  -- An error leaves the function, and a value goes on to the next statement.
  abbrev pub ◌>>=◌ : Result Value → (Value → Result Next) → Result Next
  err thrown >>= next = err thrown
  ok value >>= next = next value

  -- A chain that succeeds has a first call that does.
  pub >>=-eq-ok :
      (call : Result Value) (next : Value → Result Next) {last : Next}
      → (call >>= next) ≡ ok last
      → (value : Value) × (call ≡ ok value) × (next value ≡ ok last)
  >>=-eq-ok (err thrown) next chain = cc
  >>=-eq-ok (ok value) next chain = (value, refl, chain)

infixl 5 ◌>>◌
abbrev pub ◌>>◌ {κ} : {Next : Type κ} → Result (Unit {0}) → Result Next → Result Next
check >> rest = check >>= (λ done. rest)

-- What is known behind a guard that let a call pass.
pub guard-eq-ok {κ} :
    {Next : Type κ} (bad : Bool) (e : AppError) (rest : Result Next) {value : Next}
    → (throw_if bad e >> rest) ≡ ok value
    → (bad ≡ false) × (rest ≡ ok value)
guard-eq-ok true e rest h = cc
guard-eq-ok false e rest h = (refl, h)
