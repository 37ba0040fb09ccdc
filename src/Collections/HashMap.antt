-- ===== src/Collections/HashMap.antt =====
-- `std::collections::HashMap` as an association list. Rust leaves the order of iteration open; here
-- it is the order of first insertion.
pub mod Laws
pub mod Keys
use p_bft.Base.{ℕ, Option, none, some, List, [], ◌∷◌, map, Eq, ◌==◌, All, if◌then◌else◌, Bool}

abbrev pub HashMap {ℓ κ} : Type ℓ → Type κ → Type (ℓ ⊔ κ)
HashMap K V = List (K × V)

module _ {ℓ κ} {K : Type ℓ} {V : Type κ} ⦃e : Eq K⦄ where
  unfoldable pub get : HashMap K V → K → Option V
  get [] k = none
  get ((j, v) ∷ m) k = if j == k then some v else get m k

  unfoldable pub insert : HashMap K V → K → V → HashMap K V
  insert [] k v = (k, v) ∷ []
  insert ((j, w) ∷ m) k v = if j == k then (k, v) ∷ m else (j, w) ∷ insert m k v

  unfoldable pub remove : HashMap K V → K → HashMap K V
  remove [] k = []
  remove ((j, v) ∷ m) k = if j == k then remove m k else (j, v) ∷ remove m k

abbrev pub values {ℓ κ} : {K : Type ℓ} {V : Type κ} → HashMap K V → List V
values = map (λ e. e.1)

abbrev pub keys {ℓ κ} : {K : Type ℓ} {V : Type κ} → HashMap K V → List K
keys = map (λ e. e.0)

-- A property of every entry.
abbrev pub Entries {ℓ κ μ} : {K : Type ℓ} {V : Type κ} → (K → V → Type μ) → HashMap K V → Type μ
Entries P = All (λ x. P x.0 x.1)
