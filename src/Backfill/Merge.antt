-- ===== src/Backfill/Merge.antt =====
-- What a merge adds.
use Prim.Native.String.{String}
use text.Mathlib.Text.{◌==◌ as str_eq}
use text.Mathlib.TextEquality.{eq_iff}
use qubit_hosting_panel.Common.{
  append_nil, ◌≡◌, refl, ap, ◌∙◌, inl, inr, true, false, ◌||◌, Option, none, some, List, [], ◌∷◌,
  ◌++◌, arith, All, Bool-cases, map,
}
use qubit_hosting_panel.Quota.Entitlement.{SnapshotItem, matching}
use qubit_hosting_panel.Backfill.{has_item, additions, merge_missing_entitlements}

has_item-append :
    (code : String) (xs ys : List SnapshotItem)
    → has_item code (xs ++ ys) ≡ (has_item code xs || has_item code ys)
has_item-append code [] ys = refl
has_item-append code (x ∷ xs) ys = ground (arith, has_item-append code xs ys)

str_eq_refl : (s : String) → str_eq s s ≡ true
str_eq_refl s = ground (arith, eq_iff s s)

-- What the snapshot lacks is added.
has_item-additions :
    (code : String) (snapshot cs : List SnapshotItem)
    → has_item code cs ≡ true
    → (has_item code snapshot || has_item code (additions snapshot cs)) ≡ true
has_item-additions code snapshot [] h = cc
has_item-additions code snapshot (c ∷ cs) h = elim (Bool-cases (str_eq c.code code)) [
  | inr e ↦ let rest = has_item-additions code snapshot cs (ground arith) in ground (arith, rest)
  | inl e ↦
      let same : c.code ≡ code = ground (arith, eq_iff c.code code) in
      let there : has_item c.code snapshot ≡ has_item code snapshot =
        ap (λ x. has_item x snapshot) same in
      ground (arith, e, there)
]

additions_of_known :
    (snapshot cs : List SnapshotItem)
    → All (λ c. has_item c.code snapshot ≡ true) cs
    → additions snapshot cs ≡ []
additions_of_known snapshot [] h = refl
additions_of_known snapshot (c ∷ cs) h = rw h.0 (additions_of_known snapshot cs h.1)

All-has_item :
    (snapshot all cs : List SnapshotItem)
    → ((code : String) → has_item code cs ≡ true → has_item code all ≡ true)
    → All (λ c. has_item c.code (snapshot ++ additions snapshot all) ≡ true) cs
All-has_item snapshot all [] k = tt
All-has_item snapshot all (c ∷ cs) k =
    let mine = k c.code (ground (arith, str_eq_refl c.code)) in
    (
      has_item-append c.code snapshot (additions snapshot all)
          ∙ has_item-additions c.code snapshot all mine,
      All-has_item snapshot all cs (λ code h. k code (ground arith)),
    )

matching-append :
    (xs ys : List SnapshotItem) (code : String)
    → matching (xs ++ ys) code
      ≡ elim (matching xs code) [ some i ↦ some i | none ↦ matching ys code ]
unfolding matching
matching-append [] ys code = refl
matching-append (x ∷ xs) ys code = elim (Bool-cases (str_eq x.code code)) [
  | inl e ↦ rw e refl
  | inr e ↦ rw e (matching-append xs ys code)
]

matching-has_item :
    (xs : List SnapshotItem) (code : String) → matching xs code ≡ none → has_item code xs ≡ false
unfolding matching
matching-has_item [] code h = refl
matching-has_item (x ∷ xs) code h = elim (Bool-cases (str_eq x.code code)) [
  | inl e ↦ absurd (let g = rw e at h in cc)
  | inr e ↦ rw e (matching-has_item xs code (rw e at h))
]

-- Dropping candidates of other codes leaves the first of this code.
matching-additions :
    (snapshot cs : List SnapshotItem) (code : String)
    → has_item code snapshot ≡ false
    → matching (additions snapshot cs) code ≡ matching cs code
unfolding matching
matching-additions snapshot [] code h = refl
matching-additions snapshot (c ∷ cs) code h = elim (Bool-cases (str_eq c.code code)) [
  | inl e ↦
      let same : c.code ≡ code = ground (arith, eq_iff c.code code) in
      let missing : has_item c.code snapshot ≡ false = ap (λ x. has_item x snapshot) same ∙ h in
      rw (missing, e) refl
  | inr e ↦ elim (Bool-cases (has_item c.code snapshot)) [
    | inl f ↦ rw (f, e) (matching-additions snapshot cs code h)
    | inr f ↦ rw (f, e) (matching-additions snapshot cs code h)
  ]
]

resolved :
    (snapshot candidates : List SnapshotItem) (code : String) (o : Option SnapshotItem)
    → matching snapshot code ≡ o
    → elim o [ some i ↦ some i | none ↦ matching (additions snapshot candidates) code ]
      ≡ elim o [ some i ↦ some i | none ↦ matching candidates code ]
resolved snapshot candidates code (some i) e = refl
resolved snapshot candidates code none e =
    matching-additions snapshot candidates code (matching-has_item snapshot code e)

-- Merging the candidates a second time adds no code and leaves the snapshot as it is.
pub merge_missing_entitlements-idempotent :
    (snapshot candidates : List SnapshotItem)
    → let merged = (merge_missing_entitlements snapshot candidates).snapshot in
      ((merge_missing_entitlements merged candidates).added_codes ≡ [])
      × ((merge_missing_entitlements merged candidates).snapshot ≡ merged)
unfolding merge_missing_entitlements
merge_missing_entitlements-idempotent snapshot candidates =
    let merged = snapshot ++ additions snapshot candidates in
    let nothing =
      additions_of_known merged candidates
        (All-has_item snapshot candidates candidates (λ code h. h)) in
    (ap (map (λ i. i.code)) nothing, ap (λ x. merged ++ x) nothing ∙ append_nil merged)

-- Whatever is merged, a code that the snapshot has resolves to the item that was purchased, and a code
-- that it lacks to the first candidate with that code.
pub matching-merge_missing_entitlements :
    (snapshot candidates : List SnapshotItem) (code : String)
    → matching (merge_missing_entitlements snapshot candidates).snapshot code
      ≡ elim (matching snapshot code) [ some i ↦ some i | none ↦ matching candidates code ]
unfolding merge_missing_entitlements
matching-merge_missing_entitlements snapshot candidates code =
    matching-append snapshot (additions snapshot candidates) code
    ∙ resolved snapshot candidates code (matching snapshot code) refl
