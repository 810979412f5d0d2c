-- ===== src/Reconciliation/Clean.antt =====
-- What the sanitizer leaves of a payload.
use qubit_hosting_panel.Common.{◌≡◌, refl, ap, true, false, arith, Bool-cases, inl, inr}
use qubit_hosting_panel.Common.Text.{Text}
use qubit_hosting_panel.Reconciliation.Snapshot.{
  Json, null, boolean, number, string, array, object, Items, no_items, item, Fields, no_fields,
  field, is_secret_key, keep_field, sanitize, sanitize_items, sanitize_fields, is_clean,
  is_clean_items, is_clean_fields,
}

-- A kept field has a key that names no secret.
kept-clean :
    (key : Text) (v : Json) (rest : Fields)
    → is_clean v ≡ true
    → is_clean_fields rest ≡ true
    → is_clean_fields (keep_field (is_secret_key key) key v rest) ≡ true
unfolding is_clean keep_field
kept-clean key v rest h k = elim (Bool-cases (is_secret_key key)) [
  | inl e ↦ rw e k
  | inr e ↦ rw e (ground (arith, e, h, k))
]

mutual
  unfolding sanitize is_clean

  sanitize-clean : (j : Json) → is_clean (sanitize j) ≡ true
  sanitize-clean null = refl
  sanitize-clean (boolean b) = refl
  sanitize-clean (number n) = refl
  sanitize-clean (string s) = refl
  sanitize-clean (array xs) = items-clean xs
  sanitize-clean (object fs) = fields-clean fs

  items-clean : (xs : Items) → is_clean_items (sanitize_items xs) ≡ true
  items-clean no_items = refl
  items-clean (item x xs) = ground (arith, sanitize-clean x, items-clean xs)

  fields-clean : (fs : Fields) → is_clean_fields (sanitize_fields fs) ≡ true
  fields-clean no_fields = refl
  fields-clean (field key v fs) =
      kept-clean key (sanitize v) (sanitize_fields fs) (sanitize-clean v) (fields-clean fs)

kept-same :
    (key : Text) (v w : Json) (rest rest' : Fields)
    → is_secret_key key ≡ false
    → v ≡ w
    → rest ≡ rest'
    → keep_field (is_secret_key key) key v rest ≡ field key w rest'
unfolding keep_field
kept-same key v w rest rest' h e f = rw (h, e, f) refl

mutual
  unfolding sanitize is_clean

  clean-same : (j : Json) → is_clean j ≡ true → sanitize j ≡ j
  clean-same null h = refl
  clean-same (boolean b) h = refl
  clean-same (number n) h = refl
  clean-same (string s) h = refl
  clean-same (array xs) h = ap array (items-same xs h)
  clean-same (object fs) h = ap object (fields-same fs h)

  items-same : (xs : Items) → is_clean_items xs ≡ true → sanitize_items xs ≡ xs
  items-same no_items h = refl
  items-same (item x xs) h =
      let e = clean-same x (ground (arith, h)) in
      let f = items-same xs (ground (arith, h)) in rw (e, f) refl

  fields-same : (fs : Fields) → is_clean_fields fs ≡ true → sanitize_fields fs ≡ fs
  fields-same no_fields h = refl
  fields-same (field key v fs) h =
      kept-same key (sanitize v) v (sanitize_fields fs) fs (ground (arith, h))
        (clean-same v (ground (arith, h))) (fields-same fs (ground (arith, h)))

-- What is stored of a payload has no key, at any depth, that names a secret, and a payload without
-- such keys is stored as it is.
pub sanitize-IsClean :
    (j : Json) → (is_clean (sanitize j) ≡ true) × (is_clean j ≡ true → sanitize j ≡ j)
sanitize-IsClean j = (sanitize-clean j, clean-same j)
