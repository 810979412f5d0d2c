-- ===== src/EnvFile.antt =====
-- app/utils/envFileParser.ts: how the value of a line of an environment file is decoded.
pub mod Quoted
pub mod Lines
pub mod Parse
pub mod Total
pub mod Assigned
pub mod Reads
mod Tests
use qubit_hosting_panel.Common.{
  ℕ, ◌+◌, ◌-◌, ◌%◌, Bool, true, false, not, ◌&&◌, ◌||◌, Option, none, some, List, [], ◌∷◌, ◌==◌,
  take, drop, if◌then◌else◌,
}
use qubit_hosting_panel.Common.Text.{Text, codes, is_space, trim, trim_start, is_empty, starts_with}

-- `closingQuoteIndex`, from the index `i` on: `slashes` counts the backslashes just before it. `none` is
-- -1.
unfoldable pub closing_from : ℕ → ℕ → ℕ → Text → Option ℕ
closing_from quote slashes i [] = none
closing_from quote slashes i (c ∷ s) =
    let later = closing_from quote (if c == 92 then slashes + 1 else 0) (i + 1) s in
    if c == quote && not (quote == 34 && slashes % 2 == 1) then some i else later

unfoldable pub closing_quote_index : Text → ℕ → Option ℕ
closing_quote_index [] quote = none
closing_quote_index (c ∷ s) quote = closing_from quote (if c == 92 then 1 else 0) 1 s

-- `value.search(/\s#/)`, and the part before it: the whole value where there is no comment.
unfoldable pub before_comment : Text → Text
before_comment [] = []
before_comment (c ∷ s) =
    let rest = before_comment s in if is_space c && starts_with (codes "#") s then [] else c ∷ rest

-- `.replace(/\\x/g, y)`: the flag says that a backslash waits for its unit.
unfoldable pub replace_escape : ℕ → ℕ → Bool → Text → Text
replace_escape x y false [] = []
replace_escape x y true [] = 92 ∷ []
replace_escape x y false (c ∷ s) =
    let slash = replace_escape x y true s in
    let plain = c ∷ replace_escape x y false s in if c == 92 then slash else plain
replace_escape x y true (c ∷ s) =
    let replaced = y ∷ replace_escape x y false s in
    let slash = 92 ∷ replace_escape x y true s in
    let plain = 92 ∷ c ∷ replace_escape x y false s in
    if c == x then replaced else (if c == 92 then slash else plain)

-- The five replacements of a double-quoted value, in their order.
unfoldable pub unescape : Text → Text
unescape inner = replace_escape 92 92 false (
    replace_escape 34 34 false (
      replace_escape b't' 9 false
        (replace_escape b'r' 13 false (replace_escape b'n' 10 false inner))))

pub data Decoded : Type 0 where
  value : Text → Decoded
  reason : Text → Decoded

-- A quoted value whose closing quote is at `end`.
unfoldable pub decode_quoted : ℕ → Text → Option ℕ → Decoded
decode_quoted quote text none = reason (codes "Quoted value is not terminated.")
decode_quoted quote text (some end) =
    let trailing = trim (drop (end + 1) text) in
    let inner = take (end - 1) (drop 1 text) in
    if not (is_empty trailing) && not (starts_with (codes "#") trailing)
    then reason (codes "Unexpected content after quoted value.")
    else (if quote == 39 then value inner else value (unescape inner))

unfoldable pub decode_trimmed : Text → Decoded
decode_trimmed [] = value []
decode_trimmed (c ∷ s) =
    if c == 34 || c == 39
    then decode_quoted c (c ∷ s) (closing_quote_index (c ∷ s) c)
    else value (trim (before_comment (c ∷ s)))

-- `decodeValue`
unfoldable pub decode_value : Text → Decoded
decode_value raw = decode_trimmed (trim_start raw)
