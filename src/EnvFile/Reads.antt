-- ===== src/EnvFile/Reads.antt =====
-- What a file holds.
use qubit_hosting_panel.Common.{
  ℕ, zero, suc, ◌+◌, ◌-◌, ◌≡◌, refl, sym, subst, Option, none, some, List, [], ◌∷◌, ◌++◌, arith,
  ltb, length, append-append, append_nil, Bool-cases, inl, inr,
}
use qubit_hosting_panel.Common.Text.{ascii_upper, Text, trim, trim_start}
use qubit_hosting_panel.EnvFile.{Decoded, value, reason, decode_value}
use qubit_hosting_panel.EnvFile.Lines.{
  lines_of, is_skipped, drop_export, split_at_equals, is_env_key, opening_quote, take_value,
}
use qubit_hosting_panel.EnvFile.Parse.{
  ParsedEnvEntry, ParsedEnvFile, set_entry, store_entry, reject_line, store_decoded,
  read_assignment, read_split, read_line, parse_from, parse_env_file, empty_file,
}
use qubit_hosting_panel.EnvFile.Total.{parse_env_file-total}
use qubit_hosting_panel.EnvFile.Assigned.{Holds, store_entry-Holds}

-- The assignments of the lines, each read as if the file began with it.
unfoldable pub assignments : ℕ → ℕ → List Text → List ParsedEnvEntry
assignments fuel n [] = []
assignments zero n (l ∷ ls) = []
assignments (suc fuel) n (l ∷ ls) =
    let (alone, rest) = read_line n l ls empty_file in
    alone.entries ++ assignments fuel (n + 1 + (length ls - length rest)) rest

-- A reading of a line, next to that of the line alone: it leaves the same lines, and assigns the same.
record ReadsAs (es : List ParsedEnvEntry) (r alone : ParsedEnvFile × List Text) : Type 0 where
  holds : Holds (es ++ alone.0.entries) r.0
  left : r.1 ≡ alone.1

module _ (es : List ParsedEnvEntry) (p : ParsedEnvFile) (h : Holds es p) where
  rejected-ReadsAs :
      (n : ℕ) (why : Text) (rest : List Text)
      → ReadsAs es (reject_line n why p, rest) (reject_line n why empty_file, rest)
  unfolding reject_line
  rejected-ReadsAs n why rest = record {
    holds =
        subst (λ x. Holds x (reject_line n why p)) (sym (append_nil es))
          (record { last = h.last; repeated = h.repeated; single = h.single; known = h.known });
    left = refl;
  }

  decoded-ReadsAs :
      (n : ℕ) (key : Text) (d : Decoded) (rest : List Text)
      → ReadsAs es (store_decoded n key d p, rest) (store_decoded n key d empty_file, rest)
  unfolding store_decoded store_entry set_entry
  decoded-ReadsAs n key (reason why) rest = rejected-ReadsAs n why rest
  decoded-ReadsAs n key (value v) rest = elim (Bool-cases (ltb 16384 (length v))) [
    | inl e ↦ rw e (rejected-ReadsAs n _ rest)
    | inr e ↦ rw e (stored (record { key = ascii_upper key; line = n; value = v }))
  ]
    where
      stored :
          (e : ParsedEnvEntry) → ReadsAs es (store_entry e p, rest) (store_entry e empty_file, rest)
      stored e = record { holds = store_entry-Holds e es p h; left = refl }

  assignment-ReadsAs :
      (n : ℕ) (key raw : Text) (rest : List Text)
      → ReadsAs es (read_assignment n key raw rest p) (read_assignment n key raw rest empty_file)
  unfolding read_assignment
  assignment-ReadsAs n key raw rest = elim (Bool-cases (is_env_key key)) [
    | inl e ↦ elim (Bool-cases (ltb 120 (length key))) [
      | inl f ↦ rw (e, f) (rejected-ReadsAs n _ rest)
      | inr f ↦
          let (taken, left) = take_value (opening_quote (trim_start raw)) raw rest in
          rw (e, f) (decoded-ReadsAs n key (decode_value taken) left)
    ]
    | inr e ↦ rw e (rejected-ReadsAs n _ rest)
  ]

  split-ReadsAs :
      (n : ℕ) (o : Option (Text × Text)) (rest : List Text)
      → ReadsAs es (read_split n o rest p) (read_split n o rest empty_file)
  unfolding read_split
  split-ReadsAs n none rest = rejected-ReadsAs n _ rest
  split-ReadsAs n (some kv) rest = assignment-ReadsAs n (trim kv.0) kv.1 rest

  line-ReadsAs :
      (n : ℕ) (l : Text) (rest : List Text)
      → ReadsAs es (read_line n l rest p) (read_line n l rest empty_file)
  unfolding read_line
  line-ReadsAs n l rest = elim (Bool-cases (is_skipped l)) [
    | inl e ↦
        let kept : ReadsAs es (p, rest) (empty_file, rest) = record {
          holds = subst (λ x. Holds x p) (sym (append_nil es)) h;
          left = refl;
        } in
        rw e kept
    | inr e ↦ rw e (split-ReadsAs n (split_at_equals (drop_export l)) rest)
  ]

parse_from-Holds :
    (fuel n : ℕ) (ls : List Text) (es : List ParsedEnvEntry) (p q : ParsedEnvFile)
    → Holds es p
    → parse_from fuel n ls p ≡ some q
    → Holds (es ++ assignments fuel n ls) q
unfolding parse_from assignments
parse_from-Holds fuel n [] es p q h e =
    let same : p ≡ q = ground arith in
    subst (λ x. Holds (es ++ []) x) same (subst (λ x. Holds x p) (sym (append_nil es)) h)
parse_from-Holds zero n (l ∷ ls) es p q h e = cc
parse_from-Holds (suc fuel) n (l ∷ ls) es p q h e =
    let reads = line-ReadsAs es p h n l ls in
    let alone = read_line n l ls empty_file in
    let next : List Text → ℕ = λ r. n + 1 + (length ls - length r) in
    let (p', rest) = read_line n l ls p in
    let later = parse_from-Holds fuel (next rest) rest (es ++ alone.0.entries) p' q reads.holds e in
    subst (λ x. Holds x q)
      (append-append es alone.0.entries (assignments fuel (next alone.1) alone.1))
      (subst (λ r. Holds ((es ++ alone.0.entries) ++ assignments fuel (next r) r) q) reads.left
        later)

-- Every file is parsed, and what it holds is the map of its assignments: for each key one entry, the
-- last that assigns it, and among the duplicates exactly the keys assigned more than once. The
-- assignments are those of the lines read alone, so that none depends on what was read before.
pub parse_env_file-Holds :
    (source : Text)
    → (q : ParsedEnvFile) × (parse_env_file source ≡ some q)
      × Holds (assignments (length (lines_of source)) 1 (lines_of source)) q
unfolding parse_env_file
parse_env_file-Holds source =
    let (q, e) = parse_env_file-total source in
    let ls = lines_of source in
    let nothing : Holds [] empty_file = record {
      last = λ key. refl;
      repeated = λ key. refl;
      single = λ key. omega arith;
      known = λ key. refl;
    } in
    (q, e, parse_from-Holds (length ls) 1 ls [] empty_file q nothing e)
