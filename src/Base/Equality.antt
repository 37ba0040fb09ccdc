-- ===== src/Base/Equality.antt =====
-- Rust's `PartialEq`, as an interface whose test decides equality.
use Prim.Native.Nat.{ℕ}
use mathlib.Core.Path.{◌≡◌, refl}
use mathlib.Core.Logic.{◌↔◌}
use mathlib.Core.Bool.{Bool, true, false, ◌&&◌}
use native.Mathlib.Omega.{arith}
use p_bft.Base.Tests.{nat_beq, nat_beq_iff}

pub record Eq {ℓ} (A : Type ℓ) : Type ℓ where
  pub beq : A → A → Bool
  pub beq_decides : (a b : A) → (beq a b ≡ true) ↔ (a ≡ b)

abbrev pub ◌==◌ {ℓ} : {A : Type ℓ} ⦃tests : Eq A⦄ (x y : A) → Bool
◌==◌ ⦃tests⦄ x y = tests.beq x y

infix 50 ◌==◌
abbrev pub dec_test {ℓ} : {P : Type ℓ} → Dec P → Bool
dec_test (yes p) = true
dec_test (no np) = false

pub dec_test_iff {ℓ} : {P : Type ℓ} (d : Dec P) → (dec_test d ≡ true) ↔ P
dec_test_iff (yes p) = (λ _. p, λ _. refl)
dec_test_iff (no np) = (λ h. cc, λ p. absurd (np p))

-- Decidable equality as an instance.
abbrev pub eq_of {ℓ} : {A : Type ℓ} → Discrete A → Eq A
eq_of d = record { beq = λ a b. dec_test (d a b); beq_decides = λ a b. dec_test_iff (d a b) }

instance abbrev pub nat_eq : Eq ℕ
nat_eq = record { beq = nat_beq; beq_decides = nat_beq_iff }

pub ==_refl {ℓ} : {A : Type ℓ} ⦃e : Eq A⦄ (a : A) → (a == a) ≡ true
==_refl ⦃e⦄ a = (e.beq_decides a a).1 refl

-- Pairs are equal component by component.
unfoldable pub pair_beq {ℓ κ} : {A : Type ℓ} {B : Type κ} → Eq A → Eq B → A × B → A × B → Bool
pair_beq ea eb (a, b) (c, d) = ea.beq a c && eb.beq b d

pub pair_beq_iff {ℓ κ} :
    {A : Type ℓ} {B : Type κ} (ea : Eq A) (eb : Eq B) (p q : A × B)
    → (pair_beq ea eb p q ≡ true) ↔ (p ≡ q)
unfolding pair_beq
pair_beq_iff ea eb (a, b) (c, d) = ground (arith, ea.beq_decides a c, eb.beq_decides b d)

instance abbrev pub pair_eq {ℓ κ} : {A : Type ℓ} {B : Type κ} ⦃ea : Eq A⦄ ⦃eb : Eq B⦄ → Eq (A × B)
pair_eq ⦃ea⦄ ⦃eb⦄ = record { beq = pair_beq ea eb; beq_decides = pair_beq_iff ea eb }
