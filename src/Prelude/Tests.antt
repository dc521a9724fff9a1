-- ===== src/Prelude/Tests.antt =====
-- Boolean tests on numbers and texts, the conditional, and case splits that keep an equation.
use Prim.Native.Nat.{ℕ, compare, Ordering}
use Prim.Native.String
use Prim.Native.String.{String}
use mathlib.Core.Path.{◌≡◌, refl}
use mathlib.Core.Logic.{◌↔◌, ◌⊎◌, inl, inr}
use mathlib.Core.Bool.{Bool, true, false}
use mathlib.Core.Option.{Option, none, some}
use native.Mathlib.Omega.{arith}
use text.Mathlib.Text.{◌==◌ as str_eq}
use text.Mathlib.TextEquality.{eq_iff}

abbrev pub ltb : ℕ → ℕ → Bool
ltb a b = elim (compare a b) [ Ordering.lt ↦ true | _ ↦ false ]

abbrev pub leb : ℕ → ℕ → Bool
leb a b = elim (compare a b) [ Ordering.gt ↦ false | _ ↦ true ]

abbrev nat_beq : ℕ → ℕ → Bool
nat_beq a b = elim (compare a b) [ Ordering.eq ↦ true | _ ↦ false ]

infix 1 if◌then◌else◌
abbrev pub if◌then◌else◌ {ℓ} : {A : Type ℓ} → Bool → A → A → A
if true then x else y = x
if false then x else y = y

pub nat_beq_iff : (a b : ℕ) → (nat_beq a b ≡ true) ↔ (a ≡ b)
nat_beq_iff a b = ground arith

-- JavaScript's `===` on the values of a type, and that it is the equality of the type.
pub record StrictEquality {ℓ} (T : Type ℓ) : Type ℓ where
  pub test : T → T → Bool
  pub is_equality : (x y : T) → (test x y ≡ true) ↔ (x ≡ y)

instance abbrev pub string_eq : StrictEquality String
string_eq = record { test = str_eq; is_equality = eq_iff }

instance abbrev pub nat_eq : StrictEquality ℕ
nat_eq = record { test = nat_beq; is_equality = nat_beq_iff }

infix 50 ◌==◌
abbrev pub ◌==◌ {ℓ} : {T : Type ℓ} ⦃s : StrictEquality T⦄ → T → T → Bool
◌==◌ ⦃s⦄ x y = s.test x y

pub Bool-cases : (b : Bool) → (b ≡ true) ⊎ (b ≡ false)
Bool-cases true = inl refl
Bool-cases false = inr refl

pub Option-cases {ℓ} : {A : Type ℓ} (o : Option A) → (o ≡ none) ⊎ ((a : A) × (o ≡ some a))
Option-cases none = inl refl
Option-cases (some a) = inr (a, refl)

-- `o ?? d`
abbrev pub nullish {ℓ} : {A : Type ℓ} → Option A → A → A
nullish none d = d
nullish (some a) d = a

-- `a ?? b` where `b` may be null too
abbrev pub nullish_or {ℓ} : {A : Type ℓ} → Option A → Option A → Option A
nullish_or none b = b
nullish_or (some a) b = some a

-- The value of a text in a condition: null, undefined and "" count as false.
abbrev pub truthy : Option String → Option String
truthy none = none
truthy (some s) = if str_eq s "" then none else some s

-- A template text, `${a}${b}`.
abbrev pub append : String → String → String
append a b = String.◌++◌ a b

abbrev pub is_some {ℓ} : {A : Type ℓ} → Option A → Bool
is_some none = false
is_some (some a) = true

-- What holds of both branches holds of a conditional.
pub if_elim {ℓ κ} :
    {A : Type ℓ} (Q : A → Type κ) (b : Bool) {x y : A}
    → (b ≡ true → Q x)
    → (b ≡ false → Q y)
    → Q (if b then x else y)
if_elim Q true hx hy = hx refl
if_elim Q false hx hy = hy refl
