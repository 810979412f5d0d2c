-- ===== src/Common/Table/Rows.antt =====
-- A database table as the list of its rows: the first row of a query, and an update with its `where`.
use Prim.Native.Nat.{ℕ}
use mathlib.Core.Path.{◌≡◌, refl, subst}
use mathlib.Core.Bool.{Bool, true, false, ◌&&◌}
use mathlib.Core.Option
use mathlib.Core.Option.{Option, none, some}
use mathlib.Core.List.{List, [], ◌∷◌}
use native.Mathlib.Omega.{arith}
use mathlib.Core.Logic.{inl, inr}
use qubit_hosting_panel.Common.Tests.{if◌then◌else◌, leb, Bool-cases}
use qubit_hosting_panel.Common.Lists.{All, length, Pointwise}

module _ {A : Type 0} where
  -- `select ... where p limit 1`
  abbrev pub find : (A → Bool) → List A → Option A
  find p [] = none
  find p (x ∷ xs) = if p x then some x else find p xs

  -- `update ... set f where p`
  abbrev pub update_where : (A → Bool) → (A → A) → List A → List A
  update_where p f [] = []
  update_where p f (x ∷ xs) = (if p x then f x else x) ∷ update_where p f xs

module _ {A : Type 0} where
  -- `where p order by desc(key) limit 1`; of rows with one key the first.
  abbrev pub latest_by : (A → ℕ) → (A → Bool) → List A → Option A
  latest_by key p [] = none
  latest_by key p (x ∷ xs) = elim (latest_by key p xs) [
    | none ↦ if p x then some x else none
    | some y ↦ if p x && leb (key y) (key x) then some x else some y
  ]

module _ {A : Type 0} where
  pub find_sound : (p : A → Bool) (xs : List A) {x : A} → find p xs ≡ some x → p x ≡ true
  find_sound p [] h = ground arith
  find_sound p (y ∷ xs) h = elim (Bool-cases (p y)) [
    | inl e ↦ ground arith
    | inr e ↦ find_sound p xs (rw e at h)
  ]

  pub find-none : (p : A → Bool) (xs : List A) → find p xs ≡ none → All (λ x. p x ≡ false) xs
  find-none p [] h = tt
  find-none p (y ∷ xs) h = elim (Bool-cases (p y)) [
    | inl e ↦ ground arith
    | inr e ↦ (e, find-none p xs (ground arith))
  ]

  -- A test that the change leaves alone finds the changed row.
  pub find-update_where :
      (q p : A → Bool) (f : A → A) (xs : List A)
      → ((x : A) → q (f x) ≡ q x)
      → find q (update_where p f xs) ≡ Option.map (λ x. if p x then f x else x) (find q xs)
  find-update_where q p f [] h = refl
  find-update_where q p f (x ∷ xs) h = ground (arith, h x, find-update_where q p f xs h)

  -- An update that meets no row changes nothing.
  pub update_where-none :
      (p : A → Bool) (f : A → A) (xs : List A) → find p xs ≡ none → update_where p f xs ≡ xs
  update_where-none p f [] h = refl
  update_where-none p f (x ∷ xs) h = ground (arith, update_where-none p f xs)

  pub length-update_where :
      (p : A → Bool) (f : A → A) (xs : List A) → length (update_where p f xs) ≡ length xs
  length-update_where p f [] = refl
  length-update_where p f (x ∷ xs) = omega (arith, length-update_where p f xs)

module _ {ℓ} {A : Type 0} (P : A → Type ℓ) where
  -- A property of every row that the change keeps.
  pub All-update_where :
      (p : A → Bool) (f : A → A) (xs : List A)
      → ((x : A) → p x ≡ true → P x → P (f x))
      → All P xs
      → All P (update_where p f xs)
  All-update_where p f [] keep h = tt
  All-update_where p f (x ∷ xs) keep h = elim (Bool-cases (p x)) [
    | inl e ↦ rw e (keep x e h.0, All-update_where p f xs keep h.1)
    | inr e ↦ rw e (h.0, All-update_where p f xs keep h.1)
  ]

module _ {ℓ} {A : Type 0} (Q : A → Type ℓ) where
  -- What the change gives to each row that it meets: for every test `q` of the new rows that only
  -- rows met by `p` can pass.
  pub All-updated :
      (q p : A → Bool) (f : A → A) (xs : List A)
      → ((x : A) → p x ≡ true → Q (f x))
      → ((x : A) → p x ≡ false → q x ≡ false)
      → All (λ x. q x ≡ true → Q x) (update_where p f xs)
  All-updated q p f [] k n = tt
  All-updated q p f (x ∷ xs) k n = elim (Bool-cases (p x)) [
    | inl e ↦ rw e (λ _. k x e, All-updated q p f xs k n)
    | inr e ↦ rw e (λ h. cc (n x e), All-updated q p f xs k n)
  ]

module _ {ℓ κ} {A : Type 0} (P : A → Type κ) (Q : A → Type ℓ) where
  -- The same where something is known of the rows before.
  pub All-updated_from :
      (p : A → Bool) (f : A → A) (xs : List A)
      → ((x : A) → p x ≡ true → P x → Q (f x))
      → ((x : A) → p x ≡ true → p (f x) ≡ true)
      → All (λ x. p x ≡ true → P x) xs
      → All (λ x. p x ≡ true → Q x) (update_where p f xs)
  All-updated_from p f [] k m h = tt
  All-updated_from p f (x ∷ xs) k m h = elim (Bool-cases (p x)) [
    | inl e ↦ rw e (λ _. k x e (h.0 e), All-updated_from p f xs k m h.1)
    | inr e ↦ rw e (λ g. cc e, All-updated_from p f xs k m h.1)
  ]

module _ {ℓ} {A : Type 0} (P : A → Type ℓ) where
  pub All-find : (p : A → Bool) (xs : List A) {x : A} → All P xs → find p xs ≡ some x → P x
  All-find p [] h e = cc
  All-find p (y ∷ xs) {x} h e = elim (Bool-cases (p y)) [
    | inl g ↦ let same : y ≡ x = ground arith in subst P same h.0
    | inr g ↦ All-find p xs h.1 (rw g at e)
  ]

module _ {A : Type 0} (R : A → A → Type 0) where
  -- An update relates each row to what becomes of it.
  pub Pointwise-update_where :
      (p : A → Bool) (f : A → A) (xs : List A)
      → ((x : A) → p x ≡ true → R x (f x))
      → ((x : A) → R x x)
      → Pointwise R xs (update_where p f xs)
  Pointwise-update_where p f [] h k = tt
  Pointwise-update_where p f (x ∷ xs) h k = elim (Bool-cases (p x)) [
    | inl e ↦ rw e (h x e, Pointwise-update_where p f xs h k)
    | inr e ↦ rw e (k x, Pointwise-update_where p f xs h k)
  ]

module _ {ℓ κ} {A : Type 0} (P : A → Type κ) (Q : A → Type ℓ) where
  -- What each row becomes, the rows that the update leaves included.
  pub All-update_rows :
      (p : A → Bool) (f : A → A) (xs : List A)
      → ((x : A) → p x ≡ true → P x → Q (f x))
      → ((x : A) → p x ≡ false → P x → Q x)
      → All P xs
      → All Q (update_where p f xs)
  All-update_rows p f [] h k all = tt
  All-update_rows p f (x ∷ xs) h k all = elim (Bool-cases (p x)) [
    | inl e ↦ rw e (h x e all.0, All-update_rows p f xs h k all.1)
    | inr e ↦ rw e (k x e all.0, All-update_rows p f xs h k all.1)
  ]
