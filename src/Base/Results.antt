-- ===== src/Base/Results.antt =====
-- Code that may raise, and transactions on a state. A transaction that raises is rolled back, so
-- its error carries no state.
use Prim.Native.String.{String}
use mathlib.Core.Path.{◌≡◌, refl}
use mathlib.Core.Logic.{◌⊎◌, inl, inr}
use mathlib.Core.Bool.{Bool}
use spacerocks_coa.Base.Tests.{if◌then◌else◌}
use mathlib.Core.Option.{Option, none, some}

-- The exceptions of the program by class, with their message or code.
pub data Exn : Type 0 where
  value_error : String → Exn
  integrity_error : Exn
  manual_review_error retryable_fulfillment_error confirmation_pending : String → Exn
  specific_job_retryable task_dispatch_unavailable : String → Exn
  checkout_unavailable idempotency_conflict checkout_in_progress : String → Exn
  bitcoin_verifier_unavailable bitcoin_evidence_invalid runtime_error : String → Exn
  payment_provider_error payment_signature_error proof_validation_error : String → Exn
  assertion_error cancelled_error unexpected_error : Exn

pub data Result {ℓ} (Value : Type ℓ) : Type ℓ where
  ok : Value → Result Value
  err : Exn → Result Value

-- `if c: raise e`
abbrev pub raise_if : Bool → Exn → Result (Unit {0})
raise_if test e = if test then err e else ok tt

-- `if o is None: raise e`
abbrev pub or_raise {ℓ} : {Value : Type ℓ} → Option Value → Exn → Result Value
or_raise none e = err e
or_raise (some v) e = ok v

module _ {ℓ₁ ℓ₂} {V : Type ℓ₁} {W : Type ℓ₂} where
  infixl 5 ◌>>=◌ ◌>>◌
  -- the next statement reads what this one returns, unless this one raised
  abbrev pub ◌>>=◌ : Result V → (V → Result W) → Result W
  err e >>= next = err e
  ok v >>= next = next v

  abbrev pub ◌>>◌ : Result V → Result W → Result W
  err e >> next = err e
  ok _ >> next = next

  pub >>=-eq-ok :
      (m : Result V) (next : V → Result W) {w : W}
      → (m >>= next) ≡ ok w
      → (v : V) × (m ≡ ok v) × (next v ≡ ok w)
  >>=-eq-ok (err e) next h = cc
  >>=-eq-ok (ok v) next h = (v, refl, h)

pub Result-cases {ℓ} :
    {A : Type ℓ} (r : Result A) → ((a : A) × (r ≡ ok a)) ⊎ ((e : Exn) × (r ≡ err e))
Result-cases (ok a) = inl (a, refl)
Result-cases (err e) = inr (e, refl)

-- a result that is no error is a value
pub ok_of_no_error {ℓ} :
    {A : Type ℓ} (r : Result A) → ((e : Exn) → r ≡ err e → ⊥) → (a : A) × (r ≡ ok a)
ok_of_no_error (ok a) h = (a, refl)
ok_of_no_error (err e) h = absurd (h e refl)
