-- ===== src/Keyed/Laws.antt =====
-- Laws of the searches in `Keyed`.
use system_programming_team.Keyed.{find_index, find, update_first, remove_at, Distinct}
use system_programming_team.Prelude.{
  ℕ, zero, suc, ◌+◌, ◌<◌, ◌≡◌, ◌≢◌, refl, sym, ap, List, [], ◌∷◌, ◌++◌, map, subst, All-append,
  none, some, true, false, arith, if◌then◌else◌, ℤ, eqb_ℤ, eqb_ℤ→eq, eqb_ℤ_self, get_elem?, set,
  length, All, Bool-cases, Option-cases, inl, inr,
}

module _ {A : Type 0} (key : A → ℤ) where
  pub find_index-none :
      (k : ℤ) (xs : List A) → find_index key k xs ≡ none → All (λ j. j ≢ k) (map key xs)
  unfolding find_index
  find_index-none k [] h = tt
  find_index-none k (x ∷ xs) h = elim (Bool-cases (eqb_ℤ (key x) k)) [
    | inl e ↦ absurd (ground arith)
    | inr e ↦ (λ q. ground (arith, eqb_ℤ_self k), find_index-none k xs (ground arith))
  ]

  pub find_index-of_absent :
      (k : ℤ) (xs : List A) → All (λ j. j ≢ k) (map key xs) → find_index key k xs ≡ none
  unfolding find_index
  find_index-of_absent k [] h = refl
  find_index-of_absent k (x ∷ xs) h =
      ground (arith, find_index-of_absent k xs h.1, eqb_ℤ→eq (key x) k, h.0)

  -- The index found is that of an entry with the key.
  pub find_index-some :
      (k : ℤ) (xs : List A) (i : ℕ)
      → find_index key k xs ≡ some i
      → (x : A) × (get_elem? xs i ≡ some x) × (key x ≡ k) × (find key k xs ≡ some x)
  unfolding find_index find
  find_index-some k [] i h = absurd (cc)
  find_index-some k (x ∷ xs) i h = elim (Bool-cases (eqb_ℤ (key x) k)) [
    | inl e ↦ (x, ground arith, eqb_ℤ→eq (key x) k e, ground arith)
    | inr e ↦ elim (Option-cases (find_index key k xs)) [
      | inl n ↦ absurd (ground arith)
      | inr (j, p) ↦
          let (y, g, q, f) = find_index-some k xs j p in (y, ground arith, q, ground arith)
    ]
  ]

  pub find-append :
      (k : ℤ) (xs : List A) (y : A)
      → find key k (xs ++ y ∷ [])
        ≡ elim (find key k xs) [ some x ↦ some x | none ↦ if eqb_ℤ (key y) k then some y else none ]
  unfolding find
  find-append k [] y = refl
  find-append k (x ∷ xs) y = ground (arith, find-append k xs y)

  pub find-none : (k : ℤ) (xs : List A) → find key k xs ≡ none → All (λ j. j ≢ k) (map key xs)
  unfolding find
  find-none k [] h = tt
  find-none k (x ∷ xs) h = elim (Bool-cases (eqb_ℤ (key x) k)) [
    | inl e ↦ absurd (ground arith)
    | inr e ↦ (λ q. ground (arith, eqb_ℤ_self k), find-none k xs (ground arith))
  ]

  pub find-of_absent : (k : ℤ) (xs : List A) → All (λ j. j ≢ k) (map key xs) → find key k xs ≡ none
  unfolding find
  find-of_absent k [] h = refl
  find-of_absent k (x ∷ xs) h = ground (arith, find-of_absent k xs h.1, eqb_ℤ→eq (key x) k, h.0)

  pub find-key : (k : ℤ) (xs : List A) (x : A) → find key k xs ≡ some x → key x ≡ k
  unfolding find
  find-key k [] x h = cc
  find-key k (y ∷ xs) x h = ground (arith, find-key k xs x, eqb_ℤ→eq (key y) k)

  pub All-find {κ} :
      (P : A → Type κ) (k : ℤ) (xs : List A) (x : A) → All P xs → find key k xs ≡ some x → P x
  unfolding find
  All-find P k [] x a h = cc
  All-find P k (y ∷ xs) x a h = elim (Bool-cases (eqb_ℤ (key y) k)) [
    | inl e ↦ let q : some y ≡ some x = ground arith in ground (arith, a.0)
    | inr e ↦ All-find P k xs x a.1 (ground arith)
  ]

  module _ (f : A → A) (k : ℤ) (keeps : (x : A) → key x ≡ k → key (f x) ≡ key x) where
    pub update_first-none : (xs : List A) → update_first key f k xs ≡ none → find key k xs ≡ none
    unfolding find update_first
    update_first-none [] h = refl
    update_first-none (x ∷ xs) h = ground (arith, update_first-none xs)

    pub update_first-some :
        (xs ys : List A) → update_first key f k xs ≡ some ys → (x : A) × (find key k xs ≡ some x)
    unfolding find update_first
    update_first-some [] ys h = absurd (cc)
    update_first-some (x ∷ xs) ys h = elim (Bool-cases (eqb_ℤ (key x) k)) [
      | inl e ↦ (x, ground arith)
      | inr e ↦ elim (Option-cases (update_first key f k xs)) [
        | inl n ↦ absurd (ground arith)
        | inr (zs, p) ↦ let (y, q) = update_first-some xs zs p in (y, ground arith)
      ]
    ]

    -- The entry found under the key is changed by `f`, and no other entry is.
    pub find-update_first :
        (j : ℤ) (xs ys : List A)
        → update_first key f k xs ≡ some ys
        → find key j ys ≡ (
            if eqb_ℤ k j
            then elim (find key k xs) [ none ↦ none | some x ↦ some (f x) ]
            else find key j xs)
    unfolding find update_first
    find-update_first j [] ys h = cc
    find-update_first j (x ∷ xs) ys h = elim (Bool-cases (eqb_ℤ (key x) k)) [
      | inl e ↦ ground (arith, keeps x (eqb_ℤ→eq (key x) k e))
      | inr e ↦ elim (Option-cases (update_first key f k xs)) [
        | inl n ↦ absurd (ground arith)
        | inr (zs, p) ↦ ground (arith, find-update_first j xs zs p)
      ]
    ]

    pub update_first-length :
        (xs ys : List A) → update_first key f k xs ≡ some ys → length ys ≡ length xs
    unfolding update_first
    update_first-length [] ys h = cc
    update_first-length (x ∷ xs) ys h = elim (Option-cases (update_first key f k xs)) [
      | inl n ↦ ground arith
      | inr (zs, p) ↦ ground (arith, update_first-length xs zs p)
    ]

    pub map-update_first :
        (xs ys : List A) → update_first key f k xs ≡ some ys → map key ys ≡ map key xs
    unfolding update_first
    map-update_first [] ys h = cc
    map-update_first (x ∷ xs) ys h = elim (Bool-cases (eqb_ℤ (key x) k)) [
      | inl e ↦ ground (arith, keeps x (eqb_ℤ→eq (key x) k e))
      | inr e ↦ elim (Option-cases (update_first key f k xs)) [
        | inl n ↦ absurd (ground arith)
        | inr (zs, p) ↦ ground (arith, map-update_first xs zs p)
      ]
    ]

    -- A property of every entry is kept, if `f` keeps it at the entry that is changed.
    pub All-update_first {κ} :
        (P : A → Type κ) (xs ys : List A)
        → update_first key f k xs ≡ some ys
        → ((x : A) → find key k xs ≡ some x → P x → P (f x))
        → All P xs
        → All P ys
    unfolding update_first find
    All-update_first P [] ys h g a = absurd (cc)
    All-update_first P (x ∷ xs) ys h g a = elim (Bool-cases (eqb_ℤ (key x) k)) [
      | inl e ↦
          let q : f x ∷ xs ≡ ys = ground arith in subst (All P) q (g x (ground arith) a.0, a.1)
      | inr e ↦ elim (Option-cases (update_first key f k xs)) [
        | inl n ↦ absurd (ground arith)
        | inr (zs, p) ↦
            let q : x ∷ zs ≡ ys = ground arith in
            subst (All P) q (a.0, All-update_first P xs zs p (λ y e'. g y (ground arith)) a.1)
      ]
    ]

  pub Distinct-append :
      (ks : List ℤ) (k : ℤ) → Distinct ks → All (λ j. j ≢ k) ks → Distinct (ks ++ k ∷ [])
  Distinct-append [] k d a = (tt, tt)
  Distinct-append (j ∷ ks) k d a = (
    All-append (λ i. i ≢ j) ks (k ∷ []) d.0 ((λ e. a.0 (sym e)), tt),
    Distinct-append ks k d.1 a.1,
  )

module _ {A : Type 0} where
  pub length-remove_at :
      (xs : List A) (i : ℕ) → i < length xs → length (remove_at xs i) + 1 ≡ length xs
  length-remove_at [] i h = absurd (omega arith)
  length-remove_at (x ∷ xs) zero h = omega arith
  length-remove_at (x ∷ xs) (suc i) h = omega (arith, length-remove_at xs i (omega arith))

  pub All-remove_at {κ} : (P : A → Type κ) (xs : List A) (i : ℕ) → All P xs → All P (remove_at xs i)
  All-remove_at P [] i a = tt
  All-remove_at P (x ∷ xs) zero a = a.1
  All-remove_at P (x ∷ xs) (suc i) a = (a.0, All-remove_at P xs i a.1)

  pub map-remove_at {κ} :
      {B : Type κ} (f : A → B) (xs : List A) (i : ℕ)
      → map f (remove_at xs i) ≡ remove_at (map f xs) i
  map-remove_at f [] i = refl
  map-remove_at f (x ∷ xs) zero = refl
  map-remove_at f (x ∷ xs) (suc i) = ap (◌∷◌ (f x)) (map-remove_at f xs i)

pub Distinct-remove_at : (ks : List ℤ) (i : ℕ) → Distinct ks → Distinct (remove_at ks i)
Distinct-remove_at [] i d = tt
Distinct-remove_at (k ∷ ks) zero d = d.1
Distinct-remove_at (k ∷ ks) (suc i) d =
    (All-remove_at (λ j. j ≢ k) ks i d.0, Distinct-remove_at ks i d.1)

pub get_elem?-lt {ℓ} :
    {A : Type ℓ} (xs : List A) (i : ℕ) (x : A) → get_elem? xs i ≡ some x → i < length xs
get_elem?-lt [] i x h = cc
get_elem?-lt (y ∷ xs) zero x h = omega arith
get_elem?-lt (y ∷ xs) (suc i) x h = omega (arith, get_elem?-lt xs i x h)

module _ {A : Type 0} (key : A → ℤ) where
  -- Removing the entry found under a key leaves no entry with the key, and all others.
  pub find-remove_at :
      (j k : ℤ) (xs : List A) (i : ℕ)
      → Distinct (map key xs)
      → find_index key k xs ≡ some i
      → find key j (remove_at xs i) ≡ (if eqb_ℤ k j then none else find key j xs)
  unfolding find find_index
  find-remove_at j k [] i d h = cc
  find-remove_at j k (x ∷ xs) i d h = elim (Bool-cases (eqb_ℤ (key x) k)) [
    | inl e ↦
        let z : i ≡ 0 = ground arith in
        let e' : key x ≡ k = eqb_ℤ→eq (key x) k e in
        let absent = find-of_absent key k xs (subst (λ q. All (λ l. l ≢ q) (map key xs)) e' d.0) in
        rw z (found j k (x ∷ xs) e absent)
    | inr e ↦ elim (Option-cases (find_index key k xs)) [
      | inl n ↦ absurd (ground arith)
      | inr (p, e') ↦
          let z : i ≡ suc p = ground arith in rw z (ground (arith, find-remove_at j k xs p d.1 e'))
    ]
  ]
    where
      found :
          (j k : ℤ) (ys : List A)
          → elim ys [ [] ↦ false | y ∷ _ ↦ eqb_ℤ (key y) k ] ≡ true
          → find key k (remove_at ys 0) ≡ none
          → find key j (remove_at ys 0) ≡ (if eqb_ℤ k j then none else find key j ys)
      found j k [] h n = cc
      found j k (y ∷ ys) h n = elim (Bool-cases (eqb_ℤ k j)) [
        | inl e ↦ let q : j ≡ k = sym (eqb_ℤ→eq k j e) in rw (e, q) n
        | inr e ↦ ground arith
      ]

module _ {A : Type 0} (key : A → ℤ) where
  -- Writing through the pointer that the search returned is `update_first`.
  pub update_first-set :
      (f : A → A) (k : ℤ) (xs : List A) (i : ℕ) (x : A)
      → find_index key k xs ≡ some i
      → get_elem? xs i ≡ some x
      → update_first key f k xs ≡ some (set xs i (f x))
  unfolding find_index update_first
  update_first-set f k [] i x h g = absurd (cc)
  update_first-set f k (y ∷ xs) i x h g = elim (Bool-cases (eqb_ℤ (key y) k)) [
    | inl e ↦ let z : i ≡ 0 = ground arith in first f k y xs i x e z g
    | inr e ↦ elim (Option-cases (find_index key k xs)) [
      | inl n ↦ absurd (ground arith)
      | inr (j, p) ↦
          let z : i ≡ suc j = ground arith in
          let g' : get_elem? xs j ≡ some x = subst (λ n. get_elem? (y ∷ xs) n ≡ some x) z g in
          rw (e, z, update_first-set f k xs j x p g')
    ]
  ]
    where
      first :
          (f : A → A) (k : ℤ) (y : A) (xs : List A) (i : ℕ) (x : A)
          → eqb_ℤ (key y) k ≡ true
          → i ≡ 0
          → get_elem? (y ∷ xs) i ≡ some x
          → update_first key f k (y ∷ xs) ≡ some (set (y ∷ xs) i (f x))
      first f k y xs i x e z g =
          let q : some y ≡ some x = subst (λ n. get_elem? (y ∷ xs) n ≡ some x) z g in
          rw (e, z) (ap (λ o. elim o [ none ↦ some (f y ∷ xs) | some a ↦ some (f a ∷ xs) ]) q)

  pub find_index-find : (k : ℤ) (xs : List A) → find_index key k xs ≡ none → find key k xs ≡ none
  find_index-find k xs h = find-of_absent key k xs (find_index-none key k xs h)
