-- ===== src/Common/Table/Counts.antt =====
-- How many rows of a table a query meets, before and after an update.
use Prim.Native.Nat.{ℕ, ◌+◌, ◌≤◌}
use mathlib.Core.Path.{◌≡◌, refl}
use mathlib.Core.Bool.{Bool, true, false, ◌||◌, ◌&&◌}
use mathlib.Core.Option.{some}
use mathlib.Core.List.{List, [], ◌∷◌, ◌++◌}
use native.Mathlib.Omega.{arith}
use mathlib.Core.Logic.{inl, inr}
use qubit_hosting_panel.Common.Tests.{if◌then◌else◌, Bool-cases, is_some}
use qubit_hosting_panel.Common.Lists.{All, All-imp, any, any_imp}
use qubit_hosting_panel.Common.Table.Rows.{find, update_where}

module _ {A : Type 0} where
  -- The number of rows that a query meets.
  abbrev pub count_where : (A → Bool) → List A → ℕ
  count_where p [] = 0
  count_where p (x ∷ xs) = if p x then count_where p xs + 1 else count_where p xs

module _ {A : Type 0} where
  pub count-append :
      (p : A → Bool) (xs ys : List A)
      → count_where p (xs ++ ys) ≡ count_where p xs + count_where p ys
  count-append p [] ys = omega arith
  count-append p (x ∷ xs) ys = ground (arith, count-append p xs ys)

  pub any-append : (p : A → Bool) (xs ys : List A) → any p (xs ++ ys) ≡ (any p xs || any p ys)
  any-append p [] ys = refl
  any-append p (x ∷ xs) ys = ground (arith, any-append p xs ys)

  pub any-count : (p : A → Bool) (xs : List A) → any p xs ≡ true → 1 ≤ count_where p xs
  any-count p [] h = ground arith
  any-count p (x ∷ xs) h = ground (arith, any-count p xs)

  pub count_none :
      (p q : A → Bool) (xs : List A)
      → ((x : A) → p x ≡ true → q x ≡ true)
      → any q xs ≡ false
      → count_where p xs ≡ 0
  count_none p q [] k h = refl
  count_none p q (x ∷ xs) k h = ground (arith, k x, count_none p q xs k)

  -- A change that does not bring a row into the query.
  pub count-update_where :
      (p q : A → Bool) (f : A → A) (xs : List A)
      → ((x : A) → q x ≡ true → p (f x) ≡ true → p x ≡ true)
      → count_where p (update_where q f xs) ≤ count_where p xs
  count-update_where p q f [] k = omega arith
  count-update_where p q f (x ∷ xs) k = ground (arith, k x, count-update_where p q f xs k)

  pub any-update_where :
      (p q : A → Bool) (f : A → A) (xs : List A)
      → ((x : A) → q x ≡ true → p (f x) ≡ p x)
      → any p (update_where q f xs) ≡ any p xs
  any-update_where p q f [] k = refl
  any-update_where p q f (x ∷ xs) k = ground (arith, k x, any-update_where p q f xs k)

  -- A change that takes every row of the query out of it.
  pub count-cleared :
      (p q : A → Bool) (f : A → A) (xs : List A)
      → ((x : A) → q x ≡ true → p (f x) ≡ false)
      → ((x : A) → q x ≡ false → p x ≡ false)
      → count_where p (update_where q f xs) ≡ 0
  count-cleared p q f [] k n = refl
  count-cleared p q f (x ∷ xs) k n = ground (arith, k x, n x, count-cleared p q f xs k n)

  -- A change that takes one row of the query out of it at least.
  pub count-taken :
      (p q : A → Bool) (f : A → A) (xs : List A)
      → ((x : A) → q x ≡ true → p (f x) ≡ false)
      → any (λ x. p x && q x) xs ≡ true
      → count_where p (update_where q f xs) + 1 ≤ count_where p xs
  count-taken p q f [] k e = cc
  count-taken p q f (x ∷ xs) k e =
      let rest = count-update_where p q f xs (λ y g h. cc (k y g, h)) in
      ground (arith, k x, rest, count-taken p q f xs k, e)

  pub find-any : (p : A → Bool) (xs : List A) {x : A} → find p xs ≡ some x → any p xs ≡ true
  find-any p [] h = cc
  find-any p (y ∷ xs) h = elim (Bool-cases (p y)) [
    | inl e ↦ ground (arith, e)
    | inr e ↦ ground (arith, e, find-any p xs (rw e at h))
  ]

  pub any-find : (p : A → Bool) (xs : List A) → any p xs ≡ is_some (find p xs)
  any-find p [] = refl
  any-find p (y ∷ xs) = ground (arith, any-find p xs)

  pub count_zero-All :
      (p : A → Bool) (xs : List A) → count_where p xs ≤ 0 → All (λ x. p x ≡ false) xs
  count_zero-All p [] h = tt
  count_zero-All p (x ∷ xs) h = elim (Bool-cases (p x)) [
    | inl e ↦ absurd (ground (arith, e))
    | inr e ↦ (e, count_zero-All p xs (ground (arith, e)))
  ]

  -- Where at most one row is met by `p`, and one by the stronger `q`, it is the same.
  pub only_one :
      (p q : A → Bool) (xs : List A)
      → ((x : A) → q x ≡ true → p x ≡ true)
      → count_where p xs ≤ 1
      → any q xs ≡ true
      → All (λ x. p x ≡ true → q x ≡ true) xs
  only_one p q [] k h e = tt
  only_one p q (x ∷ xs) k h e = elim (Bool-cases (p x)) [
    | inl f ↦ elim (Bool-cases (q x)) [
      | inl g ↦ (
        λ _. g,
        All-imp (λ y. p y ≡ false) (λ y. p y ≡ true → q y ≡ true) (λ y n m. cc (n, m)) xs
            (count_zero-All p xs (ground (arith, f))),
      )
      | inr g ↦ absurd (ground (arith, f, g, e, any_imp q p xs (λ y m. k y m), any-count p xs))
    ]
    | inr f ↦ (λ m. cc (f, m), only_one p q xs k (ground (arith, f)) (ground (arith, f, e, k x)))
  ]

  -- A change that keeps the rows of a query in it.
  pub any-update_mono :
      (p q : A → Bool) (f : A → A) (xs : List A)
      → ((x : A) → q x ≡ true → p x ≡ true → p (f x) ≡ true)
      → any p xs ≡ true
      → any p (update_where q f xs) ≡ true
  any-update_mono p q f [] k h = h
  any-update_mono p q f (x ∷ xs) k h = ground (arith, k x, any-update_mono p q f xs k)

  -- A change that takes the rows of one query into another.
  pub any-updated :
      (p q r : A → Bool) (f : A → A) (xs : List A)
      → ((x : A) → p x ≡ true → q x ≡ true)
      → ((x : A) → p x ≡ true → r (f x) ≡ true)
      → any p xs ≡ true
      → any r (update_where q f xs) ≡ true
  any-updated p q r f [] k l h = cc h
  any-updated p q r f (x ∷ xs) k l h = ground (arith, k x, l x, any-updated p q r f xs k l)
