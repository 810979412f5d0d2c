-- ===== src/EnvFile/Quoted.antt =====
-- Quoted values.
use qubit_hosting_panel.Common.{
  append-append, append_nil, length-append, ℕ, suc, ◌+◌, ◌-◌, ◌≡◌, refl, subst, ap, ◌∙◌, false,
  some, [], ◌∷◌, ◌++◌, arith, ◌==◌, take, drop, length, All, if◌then◌else◌,
}
use qubit_hosting_panel.Common.Text.{Text, is_space, trim, trim_start, trim_end}
use qubit_hosting_panel.EnvFile.{
  closing_from, closing_quote_index, replace_escape, unescape, value, decode_quoted, decode_trimmed,
  decode_value,
}

-- A unit that is no quote and no backslash.
abbrev pub IsLiteral : ℕ → Type 0
IsLiteral c = (c == 39 ≡ false) × (c == 34 ≡ false) × (c == 92 ≡ false)

closing_from-single :
    (i slashes : ℕ) (v : Text)
    → All IsLiteral v
    → closing_from 39 slashes i (v ++ 39 ∷ []) ≡ some (i + length v)
unfolding closing_from
closing_from-single i slashes [] h = ap (λ n. some n) (omega arith)
closing_from-single i slashes (c ∷ v) h =
    rw (h.0.0) (closing_from-single (i + 1) _ v h.1 ∙ ap (λ n. some n) (omega arith))

closing_from-literal :
    (i : ℕ) (v t : Text)
    → All IsLiteral v
    → closing_from 34 0 i (v ++ t) ≡ closing_from 34 0 (i + length v) t
unfolding closing_from
closing_from-literal i [] t h = ap (λ n. closing_from 34 0 n t) (omega arith)
closing_from-literal i (c ∷ v) t h =
    rw (h.0.1, h.0.2)
      (closing_from-literal (i + 1) v t h.1 ∙ ap (λ n. closing_from 34 0 n t) (omega arith))

replace_escape-literal :
    (x y : ℕ) (v t : Text)
    → All IsLiteral v
    → replace_escape x y false (v ++ t) ≡ v ++ replace_escape x y false t
unfolding replace_escape
replace_escape-literal x y [] t h = refl
replace_escape-literal x y (c ∷ v) t h =
    rw (h.0.2) (ap (λ s. c ∷ s) (replace_escape-literal x y v t h.1))

take-append : (v t : Text) → take (length v) (v ++ t) ≡ v
take-append [] t = refl
take-append (c ∷ v) t = ap (λ s. c ∷ s) (take-append v t)

drop_last : (v : Text) (q : ℕ) → drop (suc (length v)) (v ++ q ∷ []) ≡ []
drop_last [] q = refl
drop_last (c ∷ v) q = drop_last v q

-- A closing quote that ends the text.
decode_quoted-end :
    (q n : ℕ) (inner : Text)
    → n ≡ suc (length inner)
    → decode_quoted q (q ∷ inner ++ q ∷ []) (some n)
      ≡ (if q == 39 then value inner else value (unescape inner))
unfolding decode_quoted trim trim_start trim_end
decode_quoted-end q n inner e =
    let after : n + 1 ≡ suc (suc (length inner)) = omega (arith, e) in
    let before : n - 1 ≡ length inner = omega (arith, e) in
    rw (after, before, drop_last inner q, take-append inner (q ∷ [])) refl

decode_single : (v : Text) → All IsLiteral v → decode_value (39 ∷ v ++ 39 ∷ []) ≡ value v
unfolding decode_value trim_start is_space decode_trimmed closing_quote_index
decode_single v h =
    ap (decode_quoted 39 (39 ∷ v ++ 39 ∷ [])) (closing_from-single 1 0 v h)
    ∙ decode_quoted-end 39 (1 + length v) v (omega arith)

unescape-literal : (v t u : Text) → All IsLiteral v → unescape t ≡ u → unescape (v ++ t) ≡ v ++ u
unfolding unescape
unescape-literal v t u h e =
    rw
      (
        replace_escape-literal b'n' 10 v t h,
        replace_escape-literal b'r' 13 v (replace_escape b'n' 10 false t) h,
        replace_escape-literal b't' 9 v
            (replace_escape b'r' 13 false (replace_escape b'n' 10 false t)) h,
        replace_escape-literal 34 34 v
            (replace_escape b't' 9 false
              (replace_escape b'r' 13 false (replace_escape b'n' 10 false t)))
            h,
        replace_escape-literal 92 92 v
            (replace_escape 34 34 false (
              replace_escape b't' 9 false
                (replace_escape b'r' 13 false (replace_escape b'n' 10 false t))))
            h,
      )
      (ap (λ s. v ++ s) e)

-- A double-quoted text whose closing quote is found after a literal part and a rest.
decode_double :
    (v t u : Text)
    → All IsLiteral v
    → ((i : ℕ) → closing_from 34 0 i (t ++ 34 ∷ []) ≡ some (i + length t))
    → unescape t ≡ u
    → decode_value (34 ∷ (v ++ t) ++ 34 ∷ []) ≡ value (v ++ u)
unfolding decode_value trim_start is_space decode_trimmed closing_quote_index
decode_double v t u h k e =
    let closed : closing_from 34 0 1 ((v ++ t) ++ 34 ∷ []) ≡ some (1 + length v + length t) =
      ap (closing_from 34 0 1) (append-append v t (34 ∷ []))
      ∙ closing_from-literal 1 v (t ++ 34 ∷ []) h
      ∙ k (1 + length v) in
    ap (decode_quoted 34 (34 ∷ (v ++ t) ++ 34 ∷ [])) closed
    ∙ decode_quoted-end 34 (1 + length v + length t) (v ++ t) (omega (arith, length-append v t))
    ∙ ap value (unescape-literal v t u h e)

-- A text without quotes and backslashes is read back from single and from double quotes. After such a
-- text, an escaped backslash and an `n` in double quotes are read as a backslash and a line feed: the
-- replacements take the second backslash for the start of an escape.
pub decode_value-quoted :
    (v : Text)
    → All IsLiteral v
    → (decode_value (39 ∷ v ++ 39 ∷ []) ≡ value v)
      × (decode_value (34 ∷ v ++ 34 ∷ []) ≡ value v)
      × (decode_value (34 ∷ (v ++ 92 ∷ 92 ∷ b'n' ∷ []) ++ 34 ∷ []) ≡ value (v ++ 92 ∷ 10 ∷ []))
unfolding closing_from unescape replace_escape
decode_value-quoted v h = (
  decode_single v h,
  subst (λ x. decode_value (34 ∷ x ++ 34 ∷ []) ≡ value x) (append_nil v)
      (decode_double v [] [] h (λ i. ap (λ n. some n) (omega arith)) refl),
  decode_double v (92 ∷ 92 ∷ b'n' ∷ []) (92 ∷ 10 ∷ []) h (λ i. ap (λ n. some n) (omega arith)) refl,
)
