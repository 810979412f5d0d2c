-- ===== src/EnvFile/Lines.antt =====
-- app/utils/envFileParser.ts: the lines of a file, the names of variables, and the value that a line
-- begins.
use qubit_hosting_panel.Common.{
  ℕ, Bool, true, false, ◌&&◌, ◌||◌, Option, none, some, List, [], ◌∷◌, ◌++◌, ◌==◌, leb, any, all,
  drop, if◌then◌else◌,
}
use qubit_hosting_panel.Common.Text.{
  Text, codes, is_space, trim, trim_start, is_empty, starts_with, contains, ascii_upper,
}
use qubit_hosting_panel.EnvFile.{closing_quote_index}

-- `source.replace(/^\uFEFF/, '')`
unfoldable pub drop_mark : Text → Text
drop_mark [] = []
drop_mark (c ∷ s) = if c == 0xfeff then s else c ∷ s

-- `.replace(/\r\n?/g, '\n')`: the flag says that the unit before was a carriage return.
unfoldable pub unify_newlines : Bool → Text → Text
unify_newlines after [] = []
unify_newlines after (c ∷ s) =
    let cr = 10 ∷ unify_newlines true s in
    let rest = unify_newlines false s in
    if c == 13 then cr else (if c == 10 && after then rest else c ∷ rest)

abbrev pub extend_first : ℕ → List Text → List Text
extend_first c [] = (c ∷ []) ∷ []
extend_first c (l ∷ ls) = (c ∷ l) ∷ ls

-- `.split('\n')`
unfoldable pub split_lines : Text → List Text
split_lines [] = [] ∷ []
split_lines (c ∷ s) = let rest = split_lines s in if c == 10 then [] ∷ rest else extend_first c rest

unfoldable pub lines_of : Text → List Text
lines_of source = split_lines (unify_newlines false (drop_mark source))

-- `!line.trim() || line.trimStart().startsWith('#')`
unfoldable pub is_skipped : Text → Bool
is_skipped line = is_empty (trim line) || starts_with (codes "#") (trim_start line)

abbrev pub starts_with_space : Text → Bool
starts_with_space [] = false
starts_with_space (c ∷ s) = is_space c

-- `line.replace(/^\s*export\s+/, '')`
unfoldable pub drop_export : Text → Text
drop_export line =
    let s = trim_start line in
    if starts_with (codes "export") s && starts_with_space (drop 6 s)
    then trim_start (drop 6 s)
    else line

-- The line at its first `=`.
unfoldable pub split_at_equals : Text → Option (Text × Text)
split_at_equals [] = none
split_at_equals (c ∷ s) =
    if c == 61
    then some ([], s)
    else elim (split_at_equals s) [ none ↦ none | some kv ↦ some (c ∷ kv.0, kv.1) ]

abbrev pub is_letter : ℕ → Bool
is_letter c = (leb b'A' c && leb c b'Z') || (leb b'a' c && leb c b'z') || c == b'_'

abbrev pub is_key_unit : ℕ → Bool
is_key_unit c = is_letter c || (leb b'0' c && leb c b'9')

-- `ENV_KEY.test(rawKey)`
unfoldable pub is_env_key : Text → Bool
is_env_key [] = false
is_env_key (c ∷ s) = is_letter c && all is_key_unit s

abbrev pub secret_words : List Text
secret_words =
    codes "SECRET"
    ∷ codes "TOKEN"
    ∷ codes "PASSWORD"
    ∷ codes "PASSWD"
    ∷ codes "PRIVATE"
    ∷ codes "CREDENTIAL"
    ∷ codes "API_KEY"
    ∷ codes "AUTH"
    ∷ codes "DATABASE_URL"
    ∷ codes "DSN"
    ∷ []

unfoldable pub is_likely_secret_env_key : Text → Bool
is_likely_secret_env_key key = any (λ w. contains w (ascii_upper key)) secret_words

-- The quote that a value begins with.
unfoldable pub opening_quote : Text → Option ℕ
opening_quote [] = none
opening_quote (c ∷ s) = if c == 34 || c == 39 then some c else none

abbrev pub is_closed : Text → ℕ → Bool
is_closed raw quote = elim (closing_quote_index (trim_start raw) quote) [
  | none ↦ false
  | some n ↦ true
]

-- The loop that takes further lines until the quote is closed: the value, and the lines left.
unfoldable pub take_lines : ℕ → Text → List Text → Text × List Text
take_lines quote raw [] = (raw, [])
take_lines quote raw (l ∷ ls) =
    let longer = take_lines quote (raw ++ 10 ∷ l) ls in
    if is_closed raw quote then (raw, l ∷ ls) else longer

unfoldable pub take_value : Option ℕ → Text → List Text → Text × List Text
take_value none raw ls = (raw, ls)
take_value (some quote) raw ls = take_lines quote raw ls
