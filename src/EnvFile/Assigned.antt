-- ===== src/EnvFile/Assigned.antt =====
-- The entries of a file as a function of the key.
use qubit_hosting_panel.Common.{
  ◌≤◌, ◌≡◌, refl, sym, subst, Bool, true, ◌&&◌, ◌||◌, Option, none, some, List, [], ◌∷◌, ◌++◌,
  arith, leb, any, Bool-cases, inl, inr, if◌then◌else◌,
}
use qubit_hosting_panel.Common.Text.{Text, text_eq, text_eq_sound}
use qubit_hosting_panel.Common.Table.{
  find, update_where, count_where, count-append, count_none, count-update_where, any-append,
  any-find,
}
use qubit_hosting_panel.EnvFile.Parse.{
  ParsedEnvEntry, ParsedEnvFile, has_key, set_entry, add_key, store_entry,
}

-- The last assignment of a key.
abbrev pub last_of : Text → List ParsedEnvEntry → Option ParsedEnvEntry
last_of key [] = none
last_of key (e ∷ es) = elim (last_of key es) [
  | none ↦ if has_key key e then some e else none
  | some x ↦ some x
]

-- What a file holds after the assignments `es`, forgetting the order of its entries.
pub record Holds (es : List ParsedEnvEntry) (p : ParsedEnvFile) : Type 0 where
  pub last : (key : Text) → find (has_key key) p.entries ≡ last_of key es
  pub repeated :
      (key : Text)
      → any (λ k. text_eq k key) p.duplicate_keys ≡ leb 2 (count_where (has_key key) es)
  pub single : (key : Text) → count_where (has_key key) p.entries ≤ 1
  pub known : (key : Text) → any (has_key key) p.entries ≡ leb 1 (count_where (has_key key) es)

last_of-append :
    (key : Text) (es : List ParsedEnvEntry) (e : ParsedEnvEntry)
    → last_of key (es ++ e ∷ []) ≡ (if has_key key e then some e else last_of key es)
last_of-append key [] e = ground arith
last_of-append key (x ∷ es) e = ground (arith, last_of-append key es e)

text_eq_same : (a b key : Text) → text_eq a b ≡ true → text_eq a key ≡ text_eq b key
text_eq_same a b key h = subst (λ x. text_eq a key ≡ text_eq x key) (text_eq_sound a b h) refl

text_eq_meet : (a b key : Text) → text_eq a key ≡ true → text_eq b key ≡ true → text_eq a b ≡ true
text_eq_meet a b key h k = subst (λ x. text_eq a x ≡ true) (sym (text_eq_sound b key k)) h

find-appended :
    (p : ParsedEnvEntry → Bool) (es : List ParsedEnvEntry) (e : ParsedEnvEntry)
    → find p (es ++ e ∷ []) ≡ (if any p es then find p es else (if p e then some e else none))
find-appended p [] e = ground arith
find-appended p (x ∷ es) e = ground (arith, find-appended p es e)

find-replaced :
    (key : Text) (e : ParsedEnvEntry) (es : List ParsedEnvEntry)
    → find (has_key key) (update_where (has_key e.key) (λ _. e) es)
      ≡ (if has_key key e && any (has_key e.key) es then some e else find (has_key key) es)
find-replaced key e [] = ground arith
find-replaced key e (x ∷ es) =
    ground
      (arith, text_eq_same x.key e.key key, text_eq_meet x.key e.key key, find-replaced key e es)

-- A key that the entries lack is not the key of one of them under another name.
any_same :
    (a b : Text) (es : List ParsedEnvEntry)
    → text_eq a b ≡ true
    → any (has_key b) es ≡ any (has_key a) es
any_same a b es h = subst (λ x. any (has_key x) es ≡ any (has_key a) es) (text_eq_sound a b h) refl

any_same_text :
    (a b : Text) (ks : List Text)
    → text_eq a b ≡ true
    → any (λ k. text_eq k b) ks ≡ any (λ k. text_eq k a) ks
any_same_text a b ks h =
    subst (λ x. any (λ k. text_eq k x) ks ≡ any (λ k. text_eq k a) ks) (text_eq_sound a b h) refl

find-set_entry :
    (key : Text) (e : ParsedEnvEntry) (es : List ParsedEnvEntry)
    → find (has_key key) (set_entry e es)
      ≡ (if has_key key e then some e else find (has_key key) es)
unfolding set_entry
find-set_entry key e es = elim (Bool-cases (any (has_key e.key) es)) [
  | inl x ↦ rw x (ground (arith, x, find-replaced key e es))
  | inr x ↦ rw x (
      ground (
        arith,
        x,
        find-appended (has_key key) es e,
        any-find (has_key key) es,
        any_same e.key key es,
      ))
]

any-add_key :
    (key new : Text) (keys : List Text)
    → any (λ k. text_eq k key) (add_key new keys)
      ≡ (any (λ k. text_eq k key) keys || text_eq new key)
unfolding add_key
any-add_key key new keys = elim (Bool-cases (any (λ k. text_eq k new) keys)) [
  | inl x ↦ rw x (ground (arith, x, any_same_text new key keys))
  | inr x ↦ rw x (ground (arith, any-append (λ k. text_eq k key) keys (new ∷ [])))
]

single-set_entry :
    (key : Text) (e : ParsedEnvEntry) (es : List ParsedEnvEntry)
    → count_where (has_key key) es ≤ 1
    → count_where (has_key key) (set_entry e es) ≤ 1
unfolding set_entry
single-set_entry key e es h = elim (Bool-cases (any (has_key e.key) es)) [
  | inl x ↦ rw x (
      omega (
        arith,
        h,
        count-update_where (has_key key) (has_key e.key) (λ _. e) es
            (λ y q r. ground (arith, r, text_eq_same y.key e.key key q)),
      ))
  | inr x ↦ rw x (
      ground (
        arith,
        h,
        x,
        any_same e.key key es,
        count-append (has_key key) es (e ∷ []),
        count_none (has_key key) (has_key key) es (λ y q. q),
      ))
]

any-set_entry :
    (key : Text) (e : ParsedEnvEntry) (es : List ParsedEnvEntry)
    → any (has_key key) (set_entry e es) ≡ (any (has_key key) es || has_key key e)
any-set_entry key e es = ground (
  arith,
  any-find (has_key key) (set_entry e es),
  any-find (has_key key) es,
  find-set_entry key e es,
)

-- One more assignment.
pub store_entry-Holds :
    (e : ParsedEnvEntry) (es : List ParsedEnvEntry) (p : ParsedEnvFile)
    → Holds es p
    → Holds (es ++ e ∷ []) (store_entry e p)
unfolding store_entry
store_entry-Holds e es p h = record {
  last = λ key. ground (arith, find-set_entry key e p.entries, last_of-append key es e, h.last key);
  repeated = λ key. ground (
    arith,
    h.repeated key,
    h.known e.key,
    h.known key,
    any_same e.key key p.entries,
    any-add_key key e.key p.duplicate_keys,
    count-append (has_key key) es (e ∷ []),
  );
  single = λ key. single-set_entry key e p.entries (h.single key);
  known = λ key.
      ground
        (arith, any-set_entry key e p.entries, h.known key, count-append (has_key key) es (e ∷ []));
}
