-- ===== src/Prelude/Tables.antt =====
-- What selection, counting, updating, ordering and limiting do to the rows of a table.
use Prim.Native.Nat.{◌+◌, ◌≤◌, ◌<◌}
use mathlib.Core.Path.{◌≡◌, ap, refl, subst, fun_ext}
use mathlib.Core.Bool.{Bool, true, false, ◌&&◌}
use mathlib.Core.Logic.{inl, inr}
use mathlib.Core.List.{List, [], ◌∷◌}
use mathlib.Core.Option.{none, some}
use native.Mathlib.Omega.{arith}
use license_srv.Prelude.Tests.{Bool-cases, if◌then◌else◌}
use license_srv.Prelude.Lists.{length, All, find, count_by, any_by, filter_by, update_where}

module _ {ℓ} {A : Type ℓ} where
  pub find-eq-none : (p : A → Bool) (xs : List A) → find p xs ≡ none → count_by p xs ≡ 0
  unfolding find count_by
  find-eq-none p [] h = refl
  find-eq-none p (x ∷ xs) h = ground (arith, find-eq-none p xs)

  pub find-eq-some : (p : A → Bool) (xs : List A) {x : A} → find p xs ≡ some x → p x ≡ true
  unfolding find
  find-eq-some p [] h = cc
  find-eq-some p (y ∷ xs) {x} h = ground (arith, find-eq-some p xs {x = x})

  pub find-count_pos : (p : A → Bool) (xs : List A) {x : A} → find p xs ≡ some x → 0 < count_by p xs
  unfolding find count_by
  find-count_pos p [] h = cc
  find-count_pos p (y ∷ xs) {x} h = ground (arith, find-count_pos p xs {x = x})

  pub any_by-eq_false : (p : A → Bool) (xs : List A) → count_by p xs ≡ 0 → any_by p xs ≡ false
  unfolding any_by count_by
  any_by-eq_false p [] h = refl
  any_by-eq_false p (x ∷ xs) h = ground (arith, any_by-eq_false p xs)

  pub find-All {κ} :
      (P : A → Type κ) (p : A → Bool) (xs : List A) {x : A} → All P xs → find p xs ≡ some x → P x
  unfolding find
  find-All P p [] a h = cc
  find-All P p (y ∷ xs) (hy, hs) h = elim (Bool-cases (p y)) [
    | inl e ↦ subst P (ground arith) hy
    | inr e ↦ find-All P p xs hs (ground arith)
  ]

  -- Where the test of an updated row implies that of the row, an update cannot raise the count.
  pub count_by-update_where_le :
      (q p : A → Bool) (f : A → A) (xs : List A)
      → ((x : A) → p x ≡ true → q (f x) ≡ true → q x ≡ true)
      → count_by q (update_where p f xs) ≤ count_by q xs
  unfolding count_by update_where
  count_by-update_where_le q p f [] h = omega arith
  count_by-update_where_le q p f (x ∷ xs) h =
      ground (arith, count_by-update_where_le q p f xs h, h x)

  -- An update that keeps the outcome of the test keeps the count.
  pub count_by-update_where_eq :
      (q p : A → Bool) (f : A → A) (xs : List A)
      → ((x : A) → p x ≡ true → q (f x) ≡ q x)
      → count_by q (update_where p f xs) ≡ count_by q xs
  unfolding count_by update_where
  count_by-update_where_eq q p f [] h = refl
  count_by-update_where_eq q p f (x ∷ xs) h =
      ground (arith, count_by-update_where_eq q p f xs h, h x)

  -- An update that clears the test on every row that it reaches takes exactly those off the count.
  pub count_by-update_where_clear :
      (q p : A → Bool) (f : A → A) (xs : List A)
      → ((x : A) → p x ≡ true → q (f x) ≡ false)
      → count_by q (update_where p f xs) + count_by (λ x. p x && q x) xs ≡ count_by q xs
  unfolding count_by update_where
  count_by-update_where_clear q p f [] h = omega arith
  count_by-update_where_clear q p f (x ∷ xs) h =
      ground (arith, count_by-update_where_clear q p f xs h, h x)

  pub All-update_where {κ} :
      (P : A → Type κ) (p : A → Bool) (f : A → A) (xs : List A)
      → ((x : A) → p x ≡ true → P x → P (f x))
      → All P xs
      → All P (update_where p f xs)
  unfolding update_where
  All-update_where P p f [] h a = tt
  All-update_where P p f (x ∷ xs) h (hx, hs) = elim (Bool-cases (p x)) [
    | inl e ↦ rw e (h x e hx, All-update_where P p f xs h hs)
    | inr e ↦ rw e (hx, All-update_where P p f xs h hs)
  ]

  pub update_where_none :
      (p : A → Bool) (f : A → A) (xs : List A) → count_by p xs ≡ 0 → update_where p f xs ≡ xs
  unfolding update_where count_by
  update_where_none p f [] h = refl
  update_where_none p f (x ∷ xs) h = ground (arith, update_where_none p f xs)

  pub count_by-filter_by :
      (q p : A → Bool) (xs : List A) → count_by q (filter_by p xs) ≡ count_by (λ x. p x && q x) xs
  unfolding count_by filter_by
  count_by-filter_by q p [] = refl
  count_by-filter_by q p (x ∷ xs) = ground (arith, count_by-filter_by q p xs)

  pub length-filter_by : (p : A → Bool) (xs : List A) → length (filter_by p xs) ≡ count_by p xs
  unfolding count_by filter_by
  length-filter_by p [] = refl
  length-filter_by p (x ∷ xs) = ground (arith, length-filter_by p xs)

  pub All-filter_by : (p : A → Bool) (xs : List A) → All (λ x. p x ≡ true) (filter_by p xs)
  unfolding filter_by
  All-filter_by p [] = tt
  All-filter_by p (x ∷ xs) = elim (Bool-cases (p x)) [
    | inl e ↦ rw e (e, All-filter_by p xs)
    | inr e ↦ rw e (All-filter_by p xs)
  ]

  pub count_by_mono :
      (q r : A → Bool) (xs : List A)
      → ((x : A) → q x ≡ true → r x ≡ true)
      → count_by q xs ≤ count_by r xs
  unfolding count_by
  count_by_mono q r [] h = omega arith
  count_by_mono q r (x ∷ xs) h = ground (arith, count_by_mono q r xs h, h x)

  pub count_by_congr :
      (q r : A → Bool) (xs : List A) → ((x : A) → q x ≡ r x) → count_by q xs ≡ count_by r xs
  count_by_congr q r xs h = rw (fun_ext h)

  pub find-count_by_pos :
      (p q : A → Bool) (xs : List A) {x : A} → find p xs ≡ some x → q x ≡ true → 0 < count_by q xs
  unfolding find count_by
  find-count_by_pos p q [] h e = cc
  find-count_by_pos p q (y ∷ xs) {x} h e = ground (arith, find-count_by_pos p q xs {x = x})

  -- Where one row at most passes `r`, a test that implies `r` counts that row or none.
  pub count_by_of_unique :
      (p r s : A → Bool) (xs : List A) {x : A}
      → count_by r xs ≤ 1
      → find p xs ≡ some x
      → r x ≡ true
      → ((y : A) → s y ≡ true → r y ≡ true)
      → count_by s xs ≡ (if s x then 1 else 0)
  unfolding find count_by
  count_by_of_unique p r s [] u f e h = cc
  count_by_of_unique p r s (y ∷ xs) {x} u f e h = elim (Bool-cases (p y)) [
    | inl here ↦ ground (arith, count_by_mono s r xs h, h y)
    | inr there ↦
        ground (arith, count_by_of_unique p r s xs {x = x}, find-count_by_pos p r xs {x = x}, h y)
  ]

  pub count_by_zero-find : (p : A → Bool) (xs : List A) → count_by p xs ≡ 0 → find p xs ≡ none
  unfolding find count_by
  count_by_zero-find p [] h = refl
  count_by_zero-find p (x ∷ xs) h = ground (arith, count_by_zero-find p xs)

  -- A key that one row at most has, and a further test on that row.
  pub find-and_of_unique :
      (q t : A → Bool) (xs : List A) {x : A}
      → count_by q xs ≤ 1
      → find q xs ≡ some x
      → find (λ y. q y && t y) xs ≡ (if t x then some x else none)
  unfolding find count_by
  find-and_of_unique q t [] u f = cc
  find-and_of_unique q t (y ∷ xs) {x} u f = elim (Bool-cases (q y)) [
    | inl here ↦ ground (
      arith,
      count_by_zero-find (λ z. q z && t z) xs,
      count_by_mono (λ z. q z && t z) q xs (λ z h. ground arith),
    )
    | inr there ↦ ground (arith, find-and_of_unique q t xs {x = x})
  ]

  -- An update leaves what is found by a test that no row reached passes, before or after.
  pub find-update_apart :
      (q p : A → Bool) (f : A → A) (xs : List A)
      → ((y : A) → p y ≡ true → (q y ≡ false) × (q (f y) ≡ false))
      → find q (update_where p f xs) ≡ find q xs
  unfolding find update_where
  find-update_apart q p f [] h = refl
  find-update_apart q p f (x ∷ xs) h = elim (Bool-cases (p x)) [
    | inl e ↦ let (before, after) = h x e in rw (e, before, after) (find-update_apart q p f xs h)
    | inr e ↦ rw (e, find-update_apart q p f xs h) refl
  ]

  -- The first row that passes a test, if it passes another too.
  pub find-and :
      (q t : A → Bool) (xs : List A) {x : A}
      → find q xs ≡ some x
      → t x ≡ true
      → find (λ y. q y && t y) xs ≡ some x
  unfolding find
  find-and q t [] h e = cc
  find-and q t (y ∷ xs) {x} h e = elim (Bool-cases (q y)) [
    | inl m ↦
        let same : y ≡ x = cc (rw m at h) in
        let both : t y ≡ true = rw same e in rw (m, both) (ap some same)
    | inr m ↦ rw m (find-and q t xs {x = x} (rw m at h) e)
  ]

  -- An update that keeps a key is seen in the row that is found by that key.
  pub find-update_where :
      (q p : A → Bool) (f : A → A) (xs : List A) {x : A}
      → ((y : A) → q (f y) ≡ q y)
      → find q xs ≡ some x
      → find q (update_where p f xs) ≡ some (if p x then f x else x)
  unfolding find update_where
  find-update_where q p f [] k h = cc
  find-update_where q p f (y ∷ xs) {x} k h = elim (Bool-cases (q y)) [
    | inl here ↦ ground (arith, k y)
    | inr there ↦ ground (arith, find-update_where q p f xs {x = x} k, k y)
  ]

  -- An update that reaches every row that passes a test, and clears the test, leaves none.
  pub count_by-update_where_zero :
      (q p : A → Bool) (f : A → A) (xs : List A)
      → All (λ x. q x ≡ true → p x ≡ true) xs
      → ((x : A) → q (f x) ≡ false)
      → count_by q (update_where p f xs) ≡ 0
  unfolding count_by update_where
  count_by-update_where_zero q p f [] a h = refl
  count_by-update_where_zero q p f (x ∷ xs) (a, as') h =
      ground (arith, count_by-update_where_zero q p f xs as' h, h x)
