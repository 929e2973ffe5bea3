-- ===== src/Proofs/Equality.antt =====
-- `==` on the values of app/ports: equal fields, as `dataclass` compares them.
use spacerocks_coa.Base.{
  ℕ, ◌≡◌, refl, ap, String, Bool, true, false, ◌&&◌, ◌==◌, Option, none, some, List, [], ◌∷◌, arith,
  str_eq, eq_refl, eq_iff, ==_refl,
}
use spacerocks_coa.Db.Evidence.{ProofState, calendar_pending, bitcoin_verified}
use spacerocks_coa.Proofs.Models.{BitcoinVerification, StoredProof}

unfoldable pub bytes_eq : List ℕ → List ℕ → Bool
bytes_eq [] [] = true
bytes_eq [] (y ∷ ys) = false
bytes_eq (x ∷ xs) [] = false
bytes_eq (x ∷ xs) (y ∷ ys) = x == y && bytes_eq xs ys

abbrev pub bool_eq : Bool → Bool → Bool
bool_eq true b = b
bool_eq false true = false
bool_eq false false = true

abbrev pub proof_state_eq : ProofState → ProofState → Bool
proof_state_eq calendar_pending calendar_pending = true
proof_state_eq bitcoin_verified bitcoin_verified = true
proof_state_eq _ _ = false

-- `a == b`, where `None` equals itself only
abbrev pub option_eq : {A : Type 0} → (A → A → Bool) → Option A → Option A → Bool
option_eq eq none none = true
option_eq eq none (some b) = false
option_eq eq (some a) none = false
option_eq eq (some a) (some b) = eq a b

unfoldable pub verification_eq : BitcoinVerification → BitcoinVerification → Bool
verification_eq a b =
    bool_eq a.verified b.verified
    && (str_eq a.method b.method
        && (option_eq (λ x y. x == y) a.verified_at b.verified_at
            && (option_eq (λ x y. x == y) a.block_height b.block_height
                && (option_eq str_eq a.block_hash b.block_hash
                    && (option_eq (λ x y. x == y) a.block_time b.block_time
                        && (option_eq str_eq a.confirmation_policy b.confirmation_policy
                            && option_eq (λ x y. x == y) a.confirmations b.confirmations))))))

unfoldable pub proof_eq : StoredProof → StoredProof → Bool
proof_eq a b =
    str_eq a.order_reference b.order_reference
    && (a.version == b.version
        && (a.target_digest == b.target_digest
            && (bytes_eq a.proof_bytes b.proof_bytes
                && (a.proof_sha256 == b.proof_sha256
                    && (proof_state_eq a.proof_state b.proof_state
                        && (a.calendar_submitted_at == b.calendar_submitted_at
                            && option_eq verification_eq a.verification b.verification))))))

pub bytes_eq_refl : (xs : List ℕ) → bytes_eq xs xs ≡ true
unfolding bytes_eq
bytes_eq_refl [] = refl
bytes_eq_refl (x ∷ xs) = ground (arith, bytes_eq_refl xs)

pub bytes_eq→≡ : (xs ys : List ℕ) → bytes_eq xs ys ≡ true → xs ≡ ys
unfolding bytes_eq
bytes_eq→≡ [] [] h = refl
bytes_eq→≡ [] (y ∷ ys) h = cc
bytes_eq→≡ (x ∷ xs) [] h = cc
bytes_eq→≡ (x ∷ xs) (y ∷ ys) h = ground (arith, bytes_eq→≡ xs ys)

option_eq_refl :
    {A : Type 0} (eq : A → A → Bool)
    → ((a : A) → eq a a ≡ true)
    → (o : Option A) → option_eq eq o o ≡ true
option_eq_refl eq same none = refl
option_eq_refl eq same (some a) = same a

bool_eq_refl : (b : Bool) → bool_eq b b ≡ true
bool_eq_refl true = refl
bool_eq_refl false = refl

proof_state_eq_refl : (s : ProofState) → proof_state_eq s s ≡ true
proof_state_eq_refl calendar_pending = refl
proof_state_eq_refl bitcoin_verified = refl

verification_eq_refl : (v : BitcoinVerification) → verification_eq v v ≡ true
unfolding verification_eq
verification_eq_refl v = ground (
  arith,
  bool_eq_refl v.verified,
  eq_refl v.method,
  option_eq_refl (λ x y. x == y) ==_refl v.verified_at,
  option_eq_refl (λ x y. x == y) ==_refl v.block_height,
  option_eq_refl str_eq eq_refl v.block_hash,
  option_eq_refl (λ x y. x == y) ==_refl v.block_time,
  option_eq_refl str_eq eq_refl v.confirmation_policy,
  option_eq_refl (λ x y. x == y) ==_refl v.confirmations,
)

pub proof_eq_refl : (p : StoredProof) → proof_eq p p ≡ true
unfolding proof_eq
proof_eq_refl p = ground (
  arith,
  eq_refl p.order_reference,
  ==_refl p.version,
  ==_refl p.target_digest,
  bytes_eq_refl p.proof_bytes,
  ==_refl p.proof_sha256,
  proof_state_eq_refl p.proof_state,
  ==_refl p.calendar_submitted_at,
  option_eq_refl verification_eq verification_eq_refl p.verification,
)

option_eq→≡ :
    {A : Type 0} (eq : A → A → Bool)
    → ((a b : A) → eq a b ≡ true → a ≡ b)
    → (o p : Option A) → option_eq eq o p ≡ true
    → o ≡ p
option_eq→≡ eq same none none h = refl
option_eq→≡ eq same none (some b) h = cc
option_eq→≡ eq same (some a) none h = cc
option_eq→≡ eq same (some a) (some b) h = ap some (same a b h)

number_eq→≡ : (a b : ℕ) → (a == b) ≡ true → a ≡ b
number_eq→≡ a b h = ground arith

text_eq→≡ : (s t : String) → str_eq s t ≡ true → s ≡ t
text_eq→≡ s t h = (eq_iff s t).0 h

bool_eq→≡ : (a b : Bool) → bool_eq a b ≡ true → a ≡ b
bool_eq→≡ true true h = refl
bool_eq→≡ true false h = cc
bool_eq→≡ false true h = cc
bool_eq→≡ false false h = refl

proof_state_eq→≡ : (a b : ProofState) → proof_state_eq a b ≡ true → a ≡ b
proof_state_eq→≡ calendar_pending calendar_pending h = refl
proof_state_eq→≡ calendar_pending bitcoin_verified h = cc
proof_state_eq→≡ bitcoin_verified calendar_pending h = cc
proof_state_eq→≡ bitcoin_verified bitcoin_verified h = refl

both : (a b : Bool) → (a && b) ≡ true → (a ≡ true) × (b ≡ true)
both true b h = (refl, h)
both false b h = cc

-- verifications with equal fields are equal
same_fields :
    (a b : BitcoinVerification)
    → a.verified ≡ b.verified
    → a.method ≡ b.method
    → a.verified_at ≡ b.verified_at
    → a.block_height ≡ b.block_height
    → a.block_hash ≡ b.block_hash
    → a.block_time ≡ b.block_time
    → a.confirmation_policy ≡ b.confirmation_policy
    → a.confirmations ≡ b.confirmations
    → a ≡ b
same_fields a b e₁ e₂ e₃ e₄ e₅ e₆ e₇ e₈ = cc

verification_eq→≡ : (a b : BitcoinVerification) → verification_eq a b ≡ true → a ≡ b
unfolding verification_eq
verification_eq→≡ a b h₀ =
    let (e₁, h₁) = both _ _ h₀ in
    let (e₂, h₂) = both _ _ h₁ in
    let (e₃, h₃) = both _ _ h₂ in
    let (e₄, h₄) = both _ _ h₃ in
    let (e₅, h₅) = both _ _ h₄ in
    let (e₆, h₆) = both _ _ h₅ in
    let (e₇, e₈) = both _ _ h₆ in
    let number = λ (x y : ℕ). x == y in
    same_fields a b (bool_eq→≡ a.verified b.verified e₁) (text_eq→≡ a.method b.method e₂)
      (option_eq→≡ number number_eq→≡ a.verified_at b.verified_at e₃)
      (option_eq→≡ number number_eq→≡ a.block_height b.block_height e₄)
      (option_eq→≡ str_eq text_eq→≡ a.block_hash b.block_hash e₅)
      (option_eq→≡ number number_eq→≡ a.block_time b.block_time e₆)
      (option_eq→≡ str_eq text_eq→≡ a.confirmation_policy b.confirmation_policy e₇)
      (option_eq→≡ number number_eq→≡ a.confirmations b.confirmations e₈)

pub proof_eq→≡ : (p q : StoredProof) → proof_eq p q ≡ true → p ≡ q
unfolding proof_eq
proof_eq→≡ p q h = ground (
  arith,
  text_eq→≡ p.order_reference q.order_reference,
  number_eq→≡ p.version q.version,
  number_eq→≡ p.target_digest q.target_digest,
  bytes_eq→≡ p.proof_bytes q.proof_bytes,
  number_eq→≡ p.proof_sha256 q.proof_sha256,
  proof_state_eq→≡ p.proof_state q.proof_state,
  number_eq→≡ p.calendar_submitted_at q.calendar_submitted_at,
  option_eq→≡ verification_eq verification_eq→≡ p.verification q.verification,
)
