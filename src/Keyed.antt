-- ===== src/Keyed.antt =====
-- Arrays of records that are searched by an `int` key from the front: the carts' lines, the menu,
-- the orders and the table placements. A pointer into an array is its index.
pub mod Laws
use system_programming_team.Prelude.{
  ℕ, zero, suc, List, [], ◌∷◌, ◌++◌, Option, none, some, if◌then◌else◌, ℤ, eqb_ℤ, get_elem?, Bool,
  ◌≡◌, ◌≢◌, All,
}

module _ {ℓ} {A : Type ℓ} (key : A → ℤ) where
  -- `for (i = 0; i < count; ++i) if (a[i].key == k) return i;`, and none for -1.
  unfoldable pub find_index : ℤ → List A → Option ℕ
  find_index k [] = none
  find_index k (x ∷ xs) =
      let later = find_index k xs in
      if eqb_ℤ (key x) k then some 0 else elim later [ none ↦ none | some i ↦ some (suc i) ]

  -- The first entry with the key is rewritten by `f`; none if there is no such entry.
  unfoldable pub update_first : (A → A) → ℤ → List A → Option (List A)
  update_first f k [] = none
  update_first f k (x ∷ xs) =
      let later = update_first f k xs in
      if eqb_ℤ (key x) k
      then some (f x ∷ xs)
      else elim later [ none ↦ none | some ys ↦ some (x ∷ ys) ]

  -- What stands at the first entry with the key.
  unfoldable pub find : ℤ → List A → Option A
  find k [] = none
  find k (x ∷ xs) = let later = find k xs in if eqb_ℤ (key x) k then some x else later

-- No two keys are equal.
abbrev pub Distinct : List ℤ → Type 0
Distinct [] = Unit
Distinct (k ∷ ks) = All (λ j. j ≢ k) ks × Distinct ks

-- `for (j = i; j < count - 1; ++j) a[j] = a[j + 1]; count--;`
abbrev pub remove_at {ℓ} : {A : Type ℓ} → List A → ℕ → List A
remove_at [] i = []
remove_at (x ∷ xs) zero = xs
remove_at (x ∷ xs) (suc i) = x ∷ remove_at xs i
