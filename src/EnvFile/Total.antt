-- ===== src/EnvFile/Total.antt =====
-- The fuel of the loop over the lines.
use qubit_hosting_panel.Common.{
  ℕ, zero, suc, ◌+◌, ◌-◌, ◌≤◌, ◌≡◌, refl, Option, none, some, List, [], ◌∷◌, ◌++◌, arith, length,
  ltb, Bool-cases, inl, inr,
}
use qubit_hosting_panel.Common.Text.{Text, trim, trim_start}
use qubit_hosting_panel.EnvFile.Lines.{
  lines_of, is_skipped, drop_export, split_at_equals, is_env_key, opening_quote, is_closed,
  take_lines, take_value,
}
use qubit_hosting_panel.EnvFile.Parse.{
  ParsedEnvFile, read_assignment, read_split, read_line, parse_from, parse_env_file, empty_file,
}

take_lines-left :
    (quote : ℕ) (raw : Text) (ls : List Text) → length (take_lines quote raw ls).1 ≤ length ls
unfolding take_lines
take_lines-left quote raw [] = omega arith
take_lines-left quote raw (l ∷ ls) = elim (Bool-cases (is_closed raw quote)) [
  | inl e ↦ rw e (omega arith)
  | inr e ↦ rw e (omega (arith, take_lines-left quote (raw ++ 10 ∷ l) ls))
]

take_value-left :
    (o : Option ℕ) (raw : Text) (ls : List Text) → length (take_value o raw ls).1 ≤ length ls
unfolding take_value
take_value-left none raw ls = omega arith
take_value-left (some quote) raw ls = take_lines-left quote raw ls

read_assignment-left :
    (n : ℕ) (key raw : Text) (ls : List Text) (p : ParsedEnvFile)
    → length (read_assignment n key raw ls p).1 ≤ length ls
unfolding read_assignment
read_assignment-left n key raw ls p = elim (Bool-cases (is_env_key key)) [
  | inl e ↦ elim (Bool-cases (ltb 120 (length key))) [
    | inl f ↦ rw (e, f) (omega arith)
    | inr f ↦ rw (e, f) (take_value-left (opening_quote (trim_start raw)) raw ls)
  ]
  | inr e ↦ rw e (omega arith)
]

read_split-left :
    (n : ℕ) (o : Option (Text × Text)) (ls : List Text) (p : ParsedEnvFile)
    → length (read_split n o ls p).1 ≤ length ls
unfolding read_split
read_split-left n none ls p = omega arith
read_split-left n (some kv) ls p = read_assignment-left n (trim kv.0) kv.1 ls p

read_line-left :
    (n : ℕ) (l : Text) (ls : List Text) (p : ParsedEnvFile)
    → length (read_line n l ls p).1 ≤ length ls
unfolding read_line
read_line-left n l ls p = elim (Bool-cases (is_skipped l)) [
  | inl e ↦ rw e (omega arith)
  | inr e ↦ rw e (read_split-left n (split_at_equals (drop_export l)) ls p)
]

-- Fuel for each line left is enough.
parse_from-total :
    (fuel n : ℕ) (ls : List Text) (p : ParsedEnvFile)
    → length ls ≤ fuel
    → (q : ParsedEnvFile) × (parse_from fuel n ls p ≡ some q)
unfolding parse_from
parse_from-total fuel n [] p h = (p, refl)
parse_from-total zero n (l ∷ ls) p h = absurd (omega (arith, h))
parse_from-total (suc fuel) n (l ∷ ls) p h =
    parse_from-total fuel (n + 1 + (length ls - length (read_line n l ls p).1))
      (read_line n l ls p).1 (read_line n l ls p).0 (omega (arith, h, read_line-left n l ls p))

-- Every text is parsed to its end: the loop over the lines, in which a quoted value takes further
-- lines, comes to a result.
pub parse_env_file-total : (source : Text) → (q : ParsedEnvFile) × (parse_env_file source ≡ some q)
unfolding parse_env_file
parse_env_file-total source =
    parse_from-total (length (lines_of source)) 1 (lines_of source) empty_file (omega arith)
