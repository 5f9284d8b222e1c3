-- ===== src/Base/Sort.antt =====
-- A stable insertion sort by a Boolean comparison: the `ORDER BY` of a query, and `sort_by`.
use mathlib.Core.List.Perm
use mathlib.Core.List.{Perm}
use agent_memory_vault.Base.{
  ℕ, zero, suc, ◌≡◌, refl, ap, ◌∙◌, arith, length, Bool, true, false, List, [], ◌∷◌, All, All-map,
  All-take, Bool-cases, inl, inr, take, map,
}

module _ {ℓ} {A : Type ℓ} (le : A → A → Bool) where
  abbrev pub insert_sorted : A → List A → List A
  insert_sorted a [] = a ∷ []
  insert_sorted a (x ∷ xs) = elim (le a x) [ true ↦ a ∷ x ∷ xs | false ↦ x ∷ insert_sorted a xs ]

  abbrev pub sort_by : List A → List A
  sort_by [] = []
  sort_by (x ∷ xs) = insert_sorted x (sort_by xs)

  -- Every member is below all that stand behind it.
  abbrev pub IsSorted : List A → Type ℓ
  IsSorted [] = Unit
  IsSorted (x ∷ xs) = All (λ y. le x y ≡ true) xs × IsSorted xs

module _ {ℓ} {A : Type ℓ} (le : A → A → Bool) where
  pub insert_sorted-perm : (a : A) (xs : List A) → Perm (insert_sorted le a xs) (a ∷ xs)
  insert_sorted-perm a [] = Perm.refl (a ∷ [])
  insert_sorted-perm a (x ∷ xs) = elim (Bool-cases (le a x)) [
    | inl e ↦ rw (e, insert_sorted) (Perm.refl (a ∷ x ∷ xs))
    | inr e ↦
        rw (e, insert_sorted)
          (Perm.trans (Perm.cons x (insert_sorted-perm a xs)) (Perm.swap a x xs))
  ]

  -- The sorted list has the same members, as often.
  pub sort_by-perm : (xs : List A) → Perm (sort_by le xs) xs
  sort_by-perm [] = Perm.refl []
  sort_by-perm (x ∷ xs) =
      Perm.trans (insert_sorted-perm x (sort_by le xs)) (Perm.cons x (sort_by-perm xs))

  pub All-insert_sorted {κ} :
      (P : A → Type κ) (a : A) (xs : List A) → P a → All P xs → All P (insert_sorted le a xs)
  All-insert_sorted P a [] ha h = (ha, tt)
  All-insert_sorted P a (x ∷ xs) ha h = elim (Bool-cases (le a x)) [
    | inl e ↦ rw (e, insert_sorted) (ha, h)
    | inr e ↦ rw (e, insert_sorted) (h.0, All-insert_sorted P a xs ha h.1)
  ]

  pub All-sort_by {κ} : (P : A → Type κ) (xs : List A) → All P xs → All P (sort_by le xs)
  All-sort_by P [] h = tt
  All-sort_by P (x ∷ xs) h = All-insert_sorted P x (sort_by le xs) h.0 (All-sort_by P xs h.1)

module _ {ℓ} {A : Type ℓ} (le : A → A → Bool) (total : (a b : A) → le a b ≡ false → le b a ≡ true)
    (trans : (a b c : A) → le a b ≡ true → le b c ≡ true → le a c ≡ true) where
  insert_sorted-IsSorted :
      (a : A) (xs : List A) → IsSorted le xs → IsSorted le (insert_sorted le a xs)
  insert_sorted-IsSorted a [] h = (tt, tt)
  insert_sorted-IsSorted a (x ∷ xs) h = elim (Bool-cases (le a x)) [
    | inl e ↦
        rw (e, insert_sorted)
          (
            (e, All-map (λ y. le x y ≡ true) (λ y. le a y ≡ true) xs (λ y p. trans a x y e p) h.0),
            h,
          )
    | inr e ↦
        rw (e, insert_sorted)
          (
            All-insert_sorted le (λ y. le x y ≡ true) a xs (total a x e) h.0,
            insert_sorted-IsSorted a xs h.1,
          )
  ]

  -- By a total and transitive comparison the result is in order.
  pub sort_by-IsSorted : (xs : List A) → IsSorted le (sort_by le xs)
  sort_by-IsSorted [] = tt
  sort_by-IsSorted (x ∷ xs) = insert_sorted-IsSorted x (sort_by le xs) (sort_by-IsSorted xs)

module _ {ℓ} {A : Type ℓ} (le : A → A → Bool) where
  pub IsSorted-take : (n : ℕ) (xs : List A) → IsSorted le xs → IsSorted le (take n xs)
  IsSorted-take zero xs h = tt
  IsSorted-take (suc n) [] h = tt
  IsSorted-take (suc n) (x ∷ xs) h =
      (All-take (λ y. le x y ≡ true) n xs h.0, IsSorted-take n xs h.1)

module _ {ℓ} {A : Type ℓ} (le : A → A → Bool) where
  length-insert_sorted : (a : A) (xs : List A) → length (insert_sorted le a xs) ≡ suc (length xs)
  length-insert_sorted a [] = refl
  length-insert_sorted a (x ∷ xs) = ground (arith, length-insert_sorted a xs)

  pub length-sort_by : (xs : List A) → length (sort_by le xs) ≡ length xs
  length-sort_by [] = refl
  length-sort_by (x ∷ xs) = omega (arith, length-insert_sorted x (sort_by le xs), length-sort_by xs)

  insert_sorted-All {κ} :
      (P : A → Type κ) (a : A) (xs : List A) → All P (insert_sorted le a xs) → P a × All P xs
  insert_sorted-All P a [] h = h
  insert_sorted-All P a (x ∷ xs) h = elim (Bool-cases (le a x)) [
    | inl e ↦ rw (e, insert_sorted) at h
    | inr e ↦
        let h' : P x × All P (insert_sorted le a xs) = rw (e, insert_sorted) at h in
        let (pa, rest) = insert_sorted-All P a xs h'.1 in (pa, (h'.0, rest))
  ]

  -- What holds of all members of the sorted list holds of all members.
  pub sort_by-All {κ} : (P : A → Type κ) (xs : List A) → All P (sort_by le xs) → All P xs
  sort_by-All P [] h = tt
  sort_by-All P (x ∷ xs) h =
      let (px, rest) = insert_sorted-All P x (sort_by le xs) h in (px, sort_by-All P xs rest)

module _ {ℓ κ} {A : Type ℓ} (le le' : A → A → Bool) (P : A → Type κ)
    (agree : (a b : A) → P a → P b → le a b ≡ le' a b) where
  insert_sorted-agree :
      (a : A) (xs : List A) → P a → All P xs → insert_sorted le a xs ≡ insert_sorted le' a xs
  insert_sorted-agree a [] p h = refl
  insert_sorted-agree a (x ∷ xs) p h =
      ground (arith, agree a x p h.0, insert_sorted-agree a xs p h.1)

  -- Two comparisons that agree on the members sort alike.
  pub sort_by-agree : (xs : List A) → All P xs → sort_by le xs ≡ sort_by le' xs
  sort_by-agree [] h = refl
  sort_by-agree (x ∷ xs) h =
      insert_sorted-agree x (sort_by le xs) h.0 (All-sort_by le P xs h.1)
      ∙ ap (insert_sorted le' x) (sort_by-agree xs h.1)

module _ {ℓ κ} {A : Type ℓ} {B : Type κ} (le : A → A → Bool) (f : A → B) where
  map-insert_sorted-perm :
      (a : A) (xs : List A) → Perm (map f (insert_sorted le a xs)) (f a ∷ map f xs)
  map-insert_sorted-perm a [] = Perm.refl (f a ∷ [])
  map-insert_sorted-perm a (x ∷ xs) = elim (Bool-cases (le a x)) [
    | inl e ↦ rw (e, insert_sorted) (Perm.refl (f a ∷ f x ∷ map f xs))
    | inr e ↦
        rw (e, insert_sorted)
          (Perm.trans (Perm.cons (f x) (map-insert_sorted-perm a xs))
            (Perm.swap (f a) (f x) (map f xs)))
  ]

  -- The images of the sorted list are those of the list, as often.
  pub map-sort_by-perm : (xs : List A) → Perm (map f (sort_by le xs)) (map f xs)
  map-sort_by-perm [] = Perm.refl []
  map-sort_by-perm (x ∷ xs) =
      Perm.trans (map-insert_sorted-perm x (sort_by le xs)) (Perm.cons (f x) (map-sort_by-perm xs))
