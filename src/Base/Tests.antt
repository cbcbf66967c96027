-- ===== src/Base/Tests.antt =====
-- Boolean tests on the native numbers, the conditional, and the text type of the models.
use Prim.Native.Nat.{ℕ, compare, Ordering}
use Prim.Native.Char.{code}
use Prim.Native.String.{String}
use mathlib.Core.Path.{◌≡◌, refl, ap₂}
use mathlib.Core.Logic.{◌≢◌, ◌⊎◌, inl, inr, ite}
use mathlib.Core.Bool.{Bool, true, false}
use mathlib.Core.List.{List, [], ◌∷◌}
use mathlib.Core.Option.{Option, none, some, some-injective}
use native.Mathlib.Decide.{ℕ_discrete}

abbrev pub ltb : ℕ → ℕ → Bool
ltb a b = elim (compare a b) [ Ordering.lt ↦ true | _ ↦ false ]

abbrev pub leb : ℕ → ℕ → Bool
leb a b = elim (compare a b) [ Ordering.gt ↦ false | _ ↦ true ]

infix 50 ◌==◌
abbrev pub ◌==◌ : ℕ → ℕ → Bool
a == b = elim (compare a b) [ Ordering.eq ↦ true | _ ↦ false ]

infix 1 if◌then◌else◌
abbrev pub if◌then◌else◌ {ℓ} : {A : Type ℓ} → Bool → A → A → A
if true then x else y = x
if false then x else y = y

pub Bool-cases : (b : Bool) → (b ≡ true) ⊎ (b ≡ false)
Bool-cases true = inl refl
Bool-cases false = inr refl

pub Option-cases {ℓ} : {A : Type ℓ} (o : Option A) → (o ≡ none) ⊎ ((a : A) × (o ≡ some a))
Option-cases none = inl refl
Option-cases (some a) = inr (a, refl)

-- Where a table with one new entry has its value from.
pub ite-eq-some {ℓ κ} :
    {P : Type κ} {A : Type ℓ} (d : Dec P) (x : A) (o : Option A) {y : A}
    → ite d (some x) o ≡ some y
    → (P × (x ≡ y)) ⊎ (o ≡ some y)
ite-eq-some (yes p) x o e = inl (p, some-injective _ _ e)
ite-eq-some (no n) x o e = inr e

pub ite-none-eq-some {ℓ κ} :
    {P : Type κ} {A : Type ℓ} (d : Dec P) (o : Option A) {y : A}
    → ite d none o ≡ some y
    → o ≡ some y
ite-none-eq-some (yes p) o e = absurd (cc)
ite-none-eq-some (no n) o e = e

-- `std::string`: the codes of its characters.
abbrev pub Text : Type 0
Text = List ℕ

abbrev pub codes : String → Text
codes String.[] = []
codes (String.◌∷◌ c s) = code c ∷ codes s

pub cons-ne_head : (a b : ℕ) (s t : Text) → a ≢ b → a ∷ s ≢ b ∷ t
cons-ne_head a b s t h e = h (cc)

pub cons-ne_tail : (a b : ℕ) (s t : Text) → s ≢ t → a ∷ s ≢ b ∷ t
cons-ne_tail a b s t h e = h (cc)

-- `operator==` on strings, as a decision.
unfoldable pub text_discrete : Discrete Text
text_discrete [] [] = yes refl
text_discrete [] (b ∷ t) = no (λ e. cc)
text_discrete (a ∷ s) [] = no (λ e. cc)
text_discrete (a ∷ s) (b ∷ t) = elim (ℕ_discrete a b) [
  | no h ↦ no (cons-ne_head a b s t h)
  | yes h ↦ elim (text_discrete s t) [
    | yes g ↦ yes (ap₂ ◌∷◌ h g)
    | no g ↦ no (cons-ne_tail a b s t g)
  ]
]

-- The same test as a `bool`.
abbrev pub text_eq : Text → Text → Bool
text_eq s t = ite (text_discrete s t) true false

pub if_true {ℓ} : {A : Type ℓ} (b : Bool) (x y : A) → b ≡ true → (if b then x else y) ≡ x
if_true b x y e = rw e

pub if_false {ℓ} : {A : Type ℓ} (b : Bool) (x y : A) → b ≡ false → (if b then x else y) ≡ y
if_false b x y e = rw e
