-- ===== src/Prelude/Stable.antt =====
-- Sorting and selecting commute, since the sort is stable.
use mathlib.Core.Path.{◌≡◌, refl, ap}
use mathlib.Core.Bool.{Bool, true, false}
use mathlib.Core.Logic.{inl, inr}
use mathlib.Core.List.{List, [], ◌∷◌}
use native.Mathlib.Omega.{arith}
use license_srv.Prelude.Tests.{Bool-cases}
use license_srv.Prelude.Lists.{All, filter_by, insert_by, sort_by}
use license_srv.Prelude.Order.{All-imp, All-filter_keep, IsSorted, sort_by-IsSorted}

module _ {ℓ} {A : Type ℓ} (le : A → A → Bool) where
  insert_first : (x : A) (xs : List A) → All (λ y. le x y ≡ true) xs → insert_by le x xs ≡ x ∷ xs
  unfolding insert_by
  insert_first x [] a = refl
  insert_first x (y ∷ ys) (h, a) = rw h refl

  filter-insert_none :
      (p : A → Bool) (x : A) (xs : List A)
      → p x ≡ false
      → filter_by p (insert_by le x xs) ≡ filter_by p xs
  unfolding filter_by insert_by
  filter-insert_none p x [] h = rw h refl
  filter-insert_none p x (y ∷ ys) h = ground (arith, filter-insert_none p x ys)

  filter-insert_some :
      (trans : (x y z : A) → le x y ≡ true → le y z ≡ true → le x z ≡ true) (p : A → Bool) (x : A)
      (xs : List A)
      → IsSorted le xs
      → p x ≡ true
      → filter_by p (insert_by le x xs) ≡ insert_by le x (filter_by p xs)
  unfolding filter_by insert_by
  filter-insert_some trans p x [] s h = rw h refl
  filter-insert_some trans p x (y ∷ ys) (a, s) h = elim (Bool-cases (le x y)) [
    | inl e ↦
        let below = All-filter_keep _ p (y ∷ ys) (e, All-imp _ _ ys (λ z q. trans x y z e q) a) in
        rw (e, h, insert_first x (filter_by p (y ∷ ys)) below) refl
    | inr e ↦ elim (Bool-cases (p y)) [
      | inl k ↦ rw (e, k, e, filter-insert_some trans p x ys s h) refl
      | inr k ↦ rw (e, k, filter-insert_some trans p x ys s h) refl
    ]
  ]

  pub filter_by-sort_by :
      (total : (x y : A) → le x y ≡ false → le y x ≡ true)
      (trans : (x y z : A) → le x y ≡ true → le y z ≡ true → le x z ≡ true) (p : A → Bool)
      (xs : List A)
      → filter_by p (sort_by le xs) ≡ sort_by le (filter_by p xs)
  unfolding filter_by sort_by
  filter_by-sort_by total trans p [] = refl
  filter_by-sort_by total trans p (x ∷ xs) =
      let ih = filter_by-sort_by total trans p xs in
      let s = sort_by-IsSorted le total trans xs in
      elim (Bool-cases (p x)) [
        | inl e ↦ rw (e, filter-insert_some trans p x (sort_by le xs) s e) (ap (insert_by le x) ih)
        | inr e ↦ rw (e, filter-insert_none p x (sort_by le xs) e) ih
      ]

pub filter_by-filter_by {ℓ} :
    {A : Type ℓ} (p q r : A → Bool) (xs : List A)
    → ((x : A) → p x ≡ true → q x ≡ r x)
    → filter_by p (filter_by q xs) ≡ filter_by p (filter_by r xs)
unfolding filter_by
filter_by-filter_by p q r [] h = refl
filter_by-filter_by p q r (x ∷ xs) h = ground (arith, filter_by-filter_by p q r xs h, h x)
