-- ===== src/Prelude/Order.antt =====
-- Sorting and limiting: what `ORDER BY … LIMIT n` selects.
use Prim.Native.Nat.{ℕ, zero, suc, ◌≤◌, min}
use mathlib.Core.Path.{◌≡◌, refl, subst}
use mathlib.Core.Option.{some}
use mathlib.Core.Bool.{Bool, true, false}
use mathlib.Core.Logic.{inl, inr}
use mathlib.Core.List.{List, [], ◌∷◌}
use native.Mathlib.Omega.{arith}
use license_srv.Prelude.Tests.{Bool-cases, if◌then◌else◌}
use license_srv.Prelude.Lists.{
  length, take, count_by, All, Mem, find, any_by, filter_by, insert_by, sort_by,
}

module _ {ℓ} {A : Type ℓ} where
  pub All-imp {κ μ} :
      (P : A → Type κ) (Q : A → Type μ) (xs : List A) → ((x : A) → P x → Q x) → All P xs → All Q xs
  All-imp P Q [] h a = tt
  All-imp P Q (x ∷ xs) h (p, a) = (h x p, All-imp P Q xs h a)

  pub All-of {κ} : (P : A → Type κ) (xs : List A) → ((x : A) → P x) → All P xs
  All-of P [] h = tt
  All-of P (x ∷ xs) h = (h x, All-of P xs h)

  pub All-both {κ μ} :
      (P : A → Type κ) (Q : A → Type μ) (xs : List A)
      → All P xs
      → All Q xs
      → All (λ x. P x × Q x) xs
  All-both P Q [] a b = tt
  All-both P Q (x ∷ xs) (p, a) (q, b) = ((p, q), All-both P Q xs a b)

  pub All-take {κ} : (P : A → Type κ) (n : ℕ) (xs : List A) → All P xs → All P (take n xs)
  All-take P zero xs a = tt
  All-take P (suc n) [] a = tt
  All-take P (suc n) (x ∷ xs) (p, a) = (p, All-take P n xs a)

  pub length-take : (n : ℕ) (xs : List A) → length (take n xs) ≡ min n (length xs)
  length-take zero xs = omega arith
  length-take (suc n) [] = omega arith
  length-take (suc n) (x ∷ xs) = omega (arith, length-take n xs)

  pub count_by-take_le :
      (p : A → Bool) (n : ℕ) (xs : List A) → count_by p (take n xs) ≤ count_by p xs
  unfolding count_by
  count_by-take_le p zero xs = omega arith
  count_by-take_le p (suc n) [] = omega arith
  count_by-take_le p (suc n) (x ∷ xs) = ground (arith, count_by-take_le p n xs)

  pub take_all : (n : ℕ) (xs : List A) → length xs ≤ n → take n xs ≡ xs
  take_all zero [] h = cc
  take_all zero (x ∷ xs) h = absurd (omega arith)
  take_all (suc n) [] h = cc
  take_all (suc n) (x ∷ xs) h = rw (take_all n xs (omega arith))

  pub All-filter_keep {κ} :
      (P : A → Type κ) (p : A → Bool) (xs : List A) → All P xs → All P (filter_by p xs)
  unfolding filter_by
  All-filter_keep P p [] a = tt
  All-filter_keep P p (x ∷ xs) (h, a) = elim (Bool-cases (p x)) [
    | inl e ↦ rw e (h, All-filter_keep P p xs a)
    | inr e ↦ rw e (All-filter_keep P p xs a)
  ]

  -- What holds of the rows that pass a test holds of every row, given that it passes.
  pub All-unfilter {κ} :
      (P : A → Type κ) (p : A → Bool) (xs : List A)
      → All P (filter_by p xs)
      → All (λ x. p x ≡ true → P x) xs
  unfolding filter_by
  All-unfilter P p [] a = tt
  All-unfilter P p (x ∷ xs) a = elim (Bool-cases (p x)) [
    | inl e ↦ let b : All P (x ∷ filter_by p xs) = rw e at a in (λ _. b.0, All-unfilter P p xs b.1)
    | inr e ↦ (λ t. cc, All-unfilter P p xs (rw e at a))
  ]

  module _ (le : A → A → Bool) where
    pub All-insert_by {κ} :
        (P : A → Type κ) (x : A) (xs : List A) → P x → All P xs → All P (insert_by le x xs)
    unfolding insert_by
    All-insert_by P x [] p a = (p, tt)
    All-insert_by P x (y ∷ ys) p (q, a) = elim (Bool-cases (le x y)) [
      | inl e ↦ rw e (p, (q, a))
      | inr e ↦ rw e (q, All-insert_by P x ys p a)
    ]

    pub All-sort_by {κ} : (P : A → Type κ) (xs : List A) → All P xs → All P (sort_by le xs)
    unfolding sort_by
    All-sort_by P [] a = tt
    All-sort_by P (x ∷ xs) (p, a) = All-insert_by P x (sort_by le xs) p (All-sort_by P xs a)

    All-uninsert {κ} :
        (P : A → Type κ) (x : A) (xs : List A) → All P (insert_by le x xs) → P x × All P xs
    unfolding insert_by
    All-uninsert P x [] (p, a) = (p, tt)
    All-uninsert P x (y ∷ ys) a = elim (Bool-cases (le x y)) [
      | inl e ↦ let b : All P (x ∷ y ∷ ys) = rw e at a in b
      | inr e ↦
          let b : All P (y ∷ insert_by le x ys) = rw e at a in
          let (p, c) = All-uninsert P x ys b.1 in (p, (b.0, c))
    ]

    pub All-unsort {κ} : (P : A → Type κ) (xs : List A) → All P (sort_by le xs) → All P xs
    unfolding sort_by
    All-unsort P [] a = tt
    All-unsort P (x ∷ xs) a =
        let (p, b) = All-uninsert P x (sort_by le xs) a in (p, All-unsort P xs b)

    length-insert_by : (x : A) (xs : List A) → length (insert_by le x xs) ≡ suc (length xs)
    unfolding insert_by
    length-insert_by x [] = refl
    length-insert_by x (y ∷ ys) = ground (arith, length-insert_by x ys)

    pub length-sort_by : (xs : List A) → length (sort_by le xs) ≡ length xs
    unfolding sort_by
    length-sort_by [] = refl
    length-sort_by (x ∷ xs) = omega (arith, length-insert_by x (sort_by le xs), length-sort_by xs)

    count_by-insert_by :
        (p : A → Bool) (x : A) (xs : List A)
        → count_by p (insert_by le x xs) ≡ (if p x then suc (count_by p xs) else count_by p xs)
    unfolding insert_by count_by
    count_by-insert_by p x [] = refl
    count_by-insert_by p x (y ∷ ys) = ground (arith, count_by-insert_by p x ys)

    pub count_by-sort_by : (p : A → Bool) (xs : List A) → count_by p (sort_by le xs) ≡ count_by p xs
    unfolding sort_by count_by
    count_by-sort_by p [] = refl
    count_by-sort_by p (x ∷ xs) =
        ground (arith, count_by-insert_by p x (sort_by le xs), count_by-sort_by p xs)

    abbrev pub IsSorted : List A → Type ℓ
    IsSorted [] = Unit
    IsSorted (x ∷ xs) = All (λ y. le x y ≡ true) xs × IsSorted xs

pub filter_by-IsSorted {ℓ} :
    {A : Type ℓ} (le : A → A → Bool) (p : A → Bool) (xs : List A)
    → IsSorted le xs
    → IsSorted le (filter_by p xs)
unfolding filter_by
filter_by-IsSorted le p [] s = tt
filter_by-IsSorted le p (x ∷ xs) (a, s) = elim (Bool-cases (p x)) [
  | inl e ↦ rw e (All-filter_keep _ p xs a, filter_by-IsSorted le p xs s)
  | inr e ↦ rw e (filter_by-IsSorted le p xs s)
]

-- Sorting by a test that is total and transitive.
module _ {ℓ} {A : Type ℓ} (le : A → A → Bool) (total : (x y : A) → le x y ≡ false → le y x ≡ true)
    (trans : (x y z : A) → le x y ≡ true → le y z ≡ true → le x z ≡ true) where
  insert_by-IsSorted : (x : A) (xs : List A) → IsSorted le xs → IsSorted le (insert_by le x xs)
  unfolding insert_by
  insert_by-IsSorted x [] s = (tt, tt)
  insert_by-IsSorted x (y ∷ ys) (a, s) = elim (Bool-cases (le x y)) [
    | inl e ↦ rw e ((e, All-imp _ _ ys (λ z q. trans x y z e q) a), (a, s))
    | inr e ↦ rw e (All-insert_by le _ x ys (total x y e) a, insert_by-IsSorted x ys s)
  ]

  pub sort_by-IsSorted : (xs : List A) → IsSorted le (sort_by le xs)
  unfolding sort_by
  sort_by-IsSorted [] = tt
  sort_by-IsSorted (x ∷ xs) = insert_by-IsSorted x (sort_by le xs) (sort_by-IsSorted xs)

-- Of a sorted list, a row that is not among the first `n` comes after each of them. `same y` is a
-- test that the row `y` itself passes.
pub take_first {ℓ} :
    {A : Type ℓ} (le same : A → A → Bool) (refl_same : (x : A) → same x x ≡ true) (n : ℕ)
    (xs : List A)
    → IsSorted le xs
    → All (λ k. any_by (same k) (take n xs) ≡ false → All (λ l. le l k ≡ true) (take n xs)) xs
unfolding any_by
take_first le same refl_same zero xs s = All-of _ xs (λ k _. tt)
take_first le same refl_same (suc n) [] s = tt
take_first le same refl_same (suc n) (x ∷ xs) (a, s) = (
  λ e. absurd (ground (arith, refl_same x)),
  All-imp _ _ xs (λ k q e. (q.0, q.1 (ground arith)))
      (All-both _ _ xs a (take_first le same refl_same n xs s)),
)

-- Every row is among the rows.
pub All-any_by_self {ℓ} :
    {A : Type ℓ} (same : A → A → Bool) (refl_same : (x : A) → same x x ≡ true) (xs : List A)
    → All (λ k. any_by (same k) xs ≡ true) xs
unfolding any_by
All-any_by_self same refl_same [] = tt
All-any_by_self same refl_same (x ∷ xs) = (
  ground (arith, refl_same x),
  All-imp _ _ xs (λ k e. ground arith) (All-any_by_self same refl_same xs),
)

module _ {A : Type 0} where
  pub All-Mem : (xs : List A) → All (λ x. Mem x xs) xs
  All-Mem [] = tt
  All-Mem (x ∷ xs) = (inl refl, All-imp _ _ xs (λ y m. inr m) (All-Mem xs))

  pub Mem-All {κ} : (P : A → Type κ) (xs : List A) {x : A} → All P xs → Mem x xs → P x
  Mem-All P [] ps m = absurd m
  Mem-All P (y ∷ ys) (p, ps) (inl e) = subst P e p
  Mem-All P (y ∷ ys) (p, ps) (inr m) = Mem-All P ys ps m

  pub find-Mem : (p : A → Bool) (xs : List A) {x : A} → find p xs ≡ some x → Mem x xs
  unfolding find
  find-Mem p [] e = cc
  find-Mem p (y ∷ ys) e = elim (Bool-cases (p y)) [
    | inl here ↦ inl (ground arith)
    | inr later ↦ inr (find-Mem p ys (ground arith))
  ]
