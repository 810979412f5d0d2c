-- ===== src/Release/Quoting.antt =====
-- What a shell reads of the quoted commands, and a reader of the printed numbers.
use qubit_hosting_panel.Common.{
  append-append, ℕ, zero, suc, ◌+◌, ◌-◌, ◌*◌, ◌/◌, ◌%◌, ◌<◌, ◌≡◌, refl, sym, ap, ◌∙◌, inl, inr,
  Option, none, some, [], ◌∷◌, ◌++◌, arith, ◌==◌, ltb, Bool-cases, if◌then◌else◌,
}
use qubit_hosting_panel.Common.Text.{Text}
use qubit_hosting_panel.Release.{escape_quotes, shell_argument, decimal_digits, decimal}

-- Where a POSIX shell stands in a word: outside of quotes, in single or in double quotes.
pub data Quotes : Type 0 where
  outside single double : Quotes

abbrev pub prepend : ℕ → Option (Text × Text) → Option (Text × Text)
prepend c none = none
prepend c (some (word, rest)) = some (c ∷ word, rest)

-- The value of the first word of a line, up to a space outside of quotes, and the text after it; `none`
-- where a quote is not closed.
unfoldable pub read_word : Quotes → Text → Option (Text × Text)
read_word outside [] = some ([], [])
read_word single [] = none
read_word double [] = none
read_word outside (c ∷ s) =
    let in_single = read_word single s in
    let in_double = read_word double s in
    let plain = prepend c (read_word outside s) in
    if c == 32
    then some ([], s)
    else (if c == 39 then in_single else (if c == 34 then in_double else plain))
read_word single (c ∷ s) =
    let closed = read_word outside s in
    let inner = prepend c (read_word single s) in if c == 39 then closed else inner
read_word double (c ∷ s) =
    let closed = read_word outside s in
    let inner = prepend c (read_word double s) in if c == 34 then closed else inner

read_word-escape_quotes :
    (value rest : Text)
    → read_word single (escape_quotes value ++ 39 ∷ 32 ∷ rest) ≡ some (value, rest)
unfolding read_word escape_quotes
read_word-escape_quotes [] rest = refl
read_word-escape_quotes (c ∷ s) rest = elim (Bool-cases (c == 39)) [
  | inl e ↦
      let same : c ≡ 39 = ground arith in
      rw e
        (ap (prepend 39) (read_word-escape_quotes s rest) ∙ ap (λ x. some (x ∷ s, rest)) (sym same))
  | inr e ↦ rw e (rw e (ap (prepend c) (read_word-escape_quotes s rest)))
]

-- A shell reads the quoted command as one word that is exactly the command, whatever quotes, spaces
-- and other characters it holds, and goes on after the space that follows.
pub read_word-shell_argument :
    (value rest : Text) → read_word outside (shell_argument value ++ 32 ∷ rest) ≡ some (value, rest)
unfolding shell_argument read_word
read_word-shell_argument value rest =
    ap (read_word single) (append-append (escape_quotes value) (39 ∷ []) (32 ∷ rest))
    ∙ read_word-escape_quotes value rest

-- The number that a text of digits shows, after the digits of `v`.
abbrev pub value_from : ℕ → Text → ℕ
value_from v [] = v
value_from v (d ∷ ds) = value_from (v * 10 + (d - 48)) ds

value_from-decimal_digits :
    (fuel n : ℕ) (acc : Text)
    → n < fuel
    → value_from 0 (decimal_digits fuel n acc) ≡ value_from n acc
unfolding decimal_digits
value_from-decimal_digits zero n acc h = absurd (omega arith)
value_from-decimal_digits (suc fuel) n acc h = elim (Bool-cases (ltb n 10)) [
  | inl e ↦ rw e (ap (λ x. value_from x acc) (omega arith))
  | inr e ↦ rw e (
      value_from-decimal_digits fuel (n / 10) ((48 + n % 10) ∷ acc) (ground arith)
      ∙ ap (λ x. value_from x acc) (omega arith))
]

-- The digits of a timeout show the timeout: printing never runs out of fuel.
pub value_from-decimal : (n : ℕ) → value_from 0 (decimal n) ≡ n
unfolding decimal
value_from-decimal n = value_from-decimal_digits (suc n) n [] (omega arith)
