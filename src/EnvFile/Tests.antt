-- ===== src/EnvFile/Tests.antt =====
-- Values of an environment file.
use qubit_hosting_panel.Common.{◌≡◌, refl, true, false, some, [], ◌∷◌, ◌++◌, length}
use qubit_hosting_panel.Common.Text.{
  ascii_upper, Text, codes, text_eq, is_space, trim, trim_start, trim_end, starts_with, contains,
}
use qubit_hosting_panel.EnvFile.{
  closing_from, closing_quote_index, before_comment, value, reason, decode_quoted, decode_trimmed,
  decode_value,
}
use qubit_hosting_panel.EnvFile.Quoted.{decode_value-quoted}
use qubit_hosting_panel.EnvFile.Lines.{
  drop_mark, unify_newlines, split_lines, lines_of, is_skipped, drop_export, split_at_equals,
  is_env_key, is_likely_secret_env_key, opening_quote, take_lines, take_value,
}
use qubit_hosting_panel.EnvFile.Parse.{
  ParsedEnvFile, set_entry, add_key, store_entry, reject_line, store_decoded, read_assignment,
  read_split, read_line, parse_from, parse_env_file,
}
use qubit_hosting_panel.EnvFile.Assigned.{Holds}
use qubit_hosting_panel.EnvFile.Reads.{assignments, parse_env_file-Holds}

comment_test : decode_value (codes "  a b # note") ≡ value (codes "a b")
unfolding decode_value decode_trimmed before_comment trim_start trim_end trim is_space starts_with
comment_test = refl

open_test : decode_value (codes "\"a") ≡ reason (codes "Quoted value is not terminated.")
unfolding decode_value decode_trimmed closing_quote_index closing_from decode_quoted trim_start
    is_space
open_test = refl

decode_value-quoted_example :
    (decode_value (codes "'C:'") ≡ value (codes "C:"))
    × (decode_value (codes "\"C:\"") ≡ value (codes "C:"))
    × (decode_value (34 ∷ (codes "C:" ++ 92 ∷ 92 ∷ b'n' ∷ []) ++ 34 ∷ [])
        ≡ value (codes "C:" ++ 92 ∷ 10 ∷ []))
decode_value-quoted_example =
    decode_value-quoted (codes "C:") ((refl, refl, refl), ((refl, refl, refl), tt))

-- A variable that is assigned twice, and a value over two lines.
abbrev source : Text
source = codes "a=1\nexport b='x\ny'\n\nA=2\n=\n"

source_test :
    parse_env_file source
    ≡ some (record {
      duplicate_keys = codes "A" ∷ [];
      entries =
          record { key = codes "A"; line = 5; value = codes "2" }
          ∷ record { key = codes "B"; line = 2; value = codes "x\ny" }
          ∷ [];
      invalid_lines = record { line = 6; reason = codes "Invalid variable name." } ∷ [];
    })
unfolding parse_env_file lines_of drop_mark unify_newlines split_lines parse_from read_line
    read_split read_assignment is_skipped drop_export split_at_equals is_env_key ascii_upper
    opening_quote take_value take_lines store_decoded store_entry set_entry add_key reject_line
    decode_value decode_trimmed decode_quoted closing_quote_index closing_from before_comment trim
    trim_start trim_end is_space starts_with text_eq
source_test = refl

secret_test :
    (is_likely_secret_env_key (codes "my_api_key") ≡ true)
    × (is_likely_secret_env_key (codes "PORT") ≡ false)
unfolding is_likely_secret_env_key ascii_upper contains starts_with
secret_test = (refl, refl)

parse_env_file-Holds_example :
    (q : ParsedEnvFile) × (parse_env_file source ≡ some q)
    × Holds (assignments (length (lines_of source)) 1 (lines_of source)) q
parse_env_file-Holds_example = parse_env_file-Holds source
