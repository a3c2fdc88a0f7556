-- ===== src/Common/Tests.antt =====
-- Boolean tests on the native numbers, the conditional, and equality tests as an interface.
use Prim.Native.Nat.{ℕ, compare, Ordering}
use Prim.Native.String.{String}
use mathlib.Core.Path.{◌≡◌, refl, ap, ◌∙◌, sym}
use mathlib.Core.Logic.{◌≢◌, ◌↔◌, ◌⊎◌, inl, inr}
use mathlib.Core.Bool.{Bool, true, false}
use mathlib.Core.Option.{Option, none, some}
use native.Mathlib.Omega.{arith}
use text.Mathlib.Text.{◌==◌ as str_eq}
use text.Mathlib.TextEquality.{eq_iff}

abbrev pub ltb : ℕ → ℕ → Bool
ltb a b = elim (compare a b) [ Ordering.lt ↦ true | _ ↦ false ]

abbrev pub leb : ℕ → ℕ → Bool
leb a b = elim (compare a b) [ Ordering.gt ↦ false | _ ↦ true ]

abbrev pub nat_beq : ℕ → ℕ → Bool
nat_beq a b = elim (compare a b) [ Ordering.eq ↦ true | _ ↦ false ]

infix 1 if◌then◌else◌
abbrev pub if◌then◌else◌ {ℓ} : {A : Type ℓ} → Bool → A → A → A
if true then x else y = x
if false then x else y = y

pub nat_beq_iff : (a b : ℕ) → (nat_beq a b ≡ true) ↔ (a ≡ b)
nat_beq_iff a b = ground arith

-- Python's `==` on a type of identifiers or enumeration members.
pub record Eq {κ} (E : Type κ) : Type κ where
  pub beq : E → E → Bool
  -- it decides the paths of `E`
  pub beq_iff : (x y : E) → (beq x y ≡ true) ↔ (x ≡ y)

instance abbrev pub string_eq : Eq String
string_eq = record { beq = str_eq; beq_iff = eq_iff }

infix 50 ◌==◌
abbrev pub ◌==◌ {ℓ} : {A : Type ℓ} ⦃decided : Eq A⦄ → A → A → Bool
◌==◌ ⦃decided⦄ x y = decided.beq x y

instance abbrev pub nat_eq : Eq ℕ
nat_eq = record { beq = nat_beq; beq_iff = nat_beq_iff }

pub ==_refl {ℓ} : {A : Type ℓ} ⦃e : Eq A⦄ (a : A) → (a == a) ≡ true
==_refl ⦃e⦄ a = (e.beq_iff a a).1 refl

-- To split on a computed value and keep the equation.
pub Bool-cases : (b : Bool) → (b ≡ true) ⊎ (b ≡ false)
Bool-cases true = inl refl
Bool-cases false = inr refl

pub Option-cases {ℓ} : {A : Type ℓ} (o : Option A) → (o ≡ none) ⊎ ((a : A) × (o ≡ some a))
Option-cases none = inl refl
Option-cases (some a) = inr (a, refl)

pub ==_ne {ℓ} : {A : Type ℓ} ⦃e : Eq A⦄ (a b : A) → a ≢ b → (a == b) ≡ false
==_ne ⦃e⦄ a b differ = elim (Bool-cases (e.beq a b)) [
  | inl same ↦ absurd (differ ((e.beq_iff a b).0 same))
  | inr other ↦ other
]

-- A type that is coded by numbers has an equality test.
pub code_beq_iff {ℓ} :
    {A : Type ℓ} (rank : A → ℕ) (of_rank : ℕ → A)
    → ((a : A) → of_rank (rank a) ≡ a)
    → (a b : A) → (nat_beq (rank a) (rank b) ≡ true) ↔ (a ≡ b)
code_beq_iff rank of_rank back a b = (
  λ h. sym (back a) ∙ ap of_rank ((nat_beq_iff (rank a) (rank b)).0 h) ∙ back b,
  λ p. (nat_beq_iff (rank a) (rank b)).1 (ap rank p),
)

abbrev pub option_beq {ℓ} : {A : Type ℓ} → (A → A → Bool) → Option A → Option A → Bool
option_beq f none none = true
option_beq f (some a) (some b) = f a b
option_beq f _ _ = false

pub option_beq_iff {ℓ} :
    {A : Type ℓ} ⦃e : Eq A⦄ (a b : Option A) → (option_beq e.beq a b ≡ true) ↔ (a ≡ b)
option_beq_iff ⦃e⦄ none none = (λ _. refl, λ _. refl)
option_beq_iff ⦃e⦄ (some a) (some b) =
    (λ h. ap some ((e.beq_iff a b).0 h), λ p. (e.beq_iff a b).1 (cc))
option_beq_iff ⦃e⦄ none (some b) = (λ h. cc, λ h. cc)
option_beq_iff ⦃e⦄ (some a) none = (λ h. cc, λ h. cc)

instance abbrev pub option_eq {ℓ} : {A : Type ℓ} ⦃e : Eq A⦄ → Eq (Option A)
option_eq ⦃e⦄ = record { beq = option_beq e.beq; beq_iff = option_beq_iff }

pub ==_false {ℓ} : {A : Type ℓ} ⦃e : Eq A⦄ (a b : A) → (a == b) ≡ false → a ≢ b
==_false ⦃e⦄ a b other same = ground (arith, other, (e.beq_iff a b).1 same)

pub ==_sym {ℓ} : {A : Type ℓ} ⦃e : Eq A⦄ (a b : A) → (a == b) ≡ (b == a)
==_sym ⦃e⦄ a b = ground (arith, e.beq_iff a b, e.beq_iff b a)

abbrev pub is_none {ℓ} : {A : Type ℓ} → Option A → Bool
is_none none = true
is_none (some a) = false

abbrev pub is_some {ℓ} : {A : Type ℓ} → Option A → Bool
is_some none = false
is_some (some a) = true
