-- ===== src/EnvFile/Parse.antt =====
-- app/utils/envFileParser.ts, parseEnvFile: the loop over the lines, with the map of entries in the
-- order of their first assignment.
use qubit_hosting_panel.Common.{
  ℕ, zero, suc, ◌+◌, ◌-◌, Bool, not, Option, none, some, List, [], ◌∷◌, ◌++◌, ltb, any, length,
  if◌then◌else◌,
}
use qubit_hosting_panel.Common.Text.{Text, codes, text_eq, ascii_upper, trim, trim_start}
use qubit_hosting_panel.Common.Table.{update_where}
use qubit_hosting_panel.EnvFile.{Decoded, value, reason, decode_value}
use qubit_hosting_panel.EnvFile.Lines.{
  lines_of, is_skipped, drop_export, split_at_equals, is_env_key, opening_quote, take_value,
}

pub record ParsedEnvEntry : Type 0 where
  pub key : Text
  pub line : ℕ
  pub value : Text

pub record InvalidLine : Type 0 where
  pub line : ℕ
  pub reason : Text

pub record ParsedEnvFile : Type 0 where
  pub duplicate_keys : List Text
  pub entries : List ParsedEnvEntry
  pub invalid_lines : List InvalidLine

abbrev pub has_key : Text → ParsedEnvEntry → Bool
has_key key e = text_eq e.key key

-- `entries.set(key, entry)`: an entry of the key keeps its place.
unfoldable pub set_entry : ParsedEnvEntry → List ParsedEnvEntry → List ParsedEnvEntry
set_entry e entries =
    if any (has_key e.key) entries
    then update_where (has_key e.key) (λ _. e) entries
    else entries ++ e ∷ []

-- `duplicateKeys.add(key)`
unfoldable pub add_key : Text → List Text → List Text
add_key key keys = if any (λ k. text_eq k key) keys then keys else keys ++ key ∷ []

unfoldable pub store_entry : ParsedEnvEntry → ParsedEnvFile → ParsedEnvFile
store_entry e p = record p {
  duplicate_keys =
      if any (has_key e.key) p.entries then add_key e.key p.duplicate_keys else p.duplicate_keys;
  entries = set_entry e p.entries;
}

unfoldable pub reject_line : ℕ → Text → ParsedEnvFile → ParsedEnvFile
reject_line line why p =
    let invalid : InvalidLine = record { line = line; reason = why } in
    record p { invalid_lines = p.invalid_lines ++ invalid ∷ [] }

-- What follows the decoding of the value.
unfoldable pub store_decoded : ℕ → Text → Decoded → ParsedEnvFile → ParsedEnvFile
store_decoded line raw_key (reason why) p = reject_line line why p
store_decoded line raw_key (value v) p =
    let e : ParsedEnvEntry = record { key = ascii_upper raw_key; line = line; value = v } in
    if ltb 16384 (length v)
    then reject_line line (codes "Value exceeds 16,384 characters.") p
    else store_entry e p

-- The assignment of a key, with the lines that are left after its value.
unfoldable pub read_assignment :
    ℕ → Text → Text → List Text → ParsedEnvFile → ParsedEnvFile × List Text
read_assignment line raw_key raw_value rest p =
    let (raw, left) = take_value (opening_quote (trim_start raw_value)) raw_value rest in
    if not (is_env_key raw_key)
    then (reject_line line (codes "Invalid variable name.") p, rest)
    else (if ltb 120 (length raw_key)
        then (reject_line line (codes "Variable name exceeds 120 characters.") p, rest)
        else (store_decoded line raw_key (decode_value raw) p, left))

unfoldable pub read_split :
    ℕ → Option (Text × Text) → List Text → ParsedEnvFile → ParsedEnvFile × List Text
read_split line none rest p = (reject_line line (codes "Missing equals sign.") p, rest)
read_split line (some kv) rest p = read_assignment line (trim kv.0) kv.1 rest p

-- One turn of the loop.
unfoldable pub read_line : ℕ → Text → List Text → ParsedEnvFile → ParsedEnvFile × List Text
read_line number line rest p =
    if is_skipped line
    then (p, rest)
    else read_split number (split_at_equals (drop_export line)) rest p

-- The loop, from the line of that number on; `none` is for too little fuel.
unfoldable pub parse_from : ℕ → ℕ → List Text → ParsedEnvFile → Option ParsedEnvFile
parse_from fuel number [] p = some p
parse_from zero number (l ∷ ls) p = none
parse_from (suc fuel) number (l ∷ ls) p =
    let (p', rest) = read_line number l ls p in
    parse_from fuel (number + 1 + (length ls - length rest)) rest p'

abbrev pub empty_file : ParsedEnvFile
empty_file = record { duplicate_keys = []; entries = []; invalid_lines = [] }

unfoldable pub parse_env_file : Text → Option ParsedEnvFile
parse_env_file source = let lines = lines_of source in parse_from (length lines) 1 lines empty_file
