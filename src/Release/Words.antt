-- ===== src/Release/Words.antt =====
-- The words that a shell reads of the commands after a deployment.
use qubit_hosting_panel.Common.{
  append-append, ℕ, zero, suc, ◌+◌, ◌/◌, ◌%◌, ◌≡◌, refl, ap, ◌∙◌, inl, inr, true, false, not, ◌&&◌,
  Option, none, some, List, [], ◌∷◌, ◌++◌, arith, ◌==◌, ltb, Bool-cases, All,
}
use qubit_hosting_panel.Common.Text.{Text, codes, is_empty}
use qubit_hosting_panel.Release.{
  ApplicationReleasePolicy, shell_argument, decimal_digits, decimal, bounded_command, release_step,
  join_commands, release_commands, joined_or_none, application_post_deployment_command,
}
use qubit_hosting_panel.Release.Quoting.{
  outside, prepend, read_word, read_word-shell_argument, value_from, value_from-decimal,
}

abbrev pub prepend_word : Text → Option (List Text × Text) → Option (List Text × Text)
prepend_word w none = none
prepend_word w (some (ws, rest)) = some (w ∷ ws, rest)

abbrev pub cons_word :
    Option (Text × Text) → (Text → Option (List Text × Text)) → Option (List Text × Text)
cons_word none k = none
cons_word (some (w, rest)) k = prepend_word w (k rest)

-- The first `n` words of a line, and the text after them.
unfoldable pub read_words : ℕ → Text → Option (List Text × Text)
read_words zero s = some ([], s)
read_words (suc n) s = cons_word (read_word outside s) (λ rest. read_words n rest)

-- A unit without a meaning to the shell.
abbrev IsPlain : ℕ → Type 0
IsPlain c = (c == 32 ≡ false) × (c == 39 ≡ false) × (c == 34 ≡ false)

abbrev prepend_all : Text → Option (Text × Text) → Option (Text × Text)
prepend_all w none = none
prepend_all w (some (v, rest)) = some (w ++ v, rest)

prepend-prepend_all :
    (c : ℕ) (w : Text) (o : Option (Text × Text))
    → prepend c (prepend_all w o) ≡ prepend_all (c ∷ w) o
prepend-prepend_all c w none = refl
prepend-prepend_all c w (some (v, rest)) = refl

prepend_all-nil : (o : Option (Text × Text)) → o ≡ prepend_all [] o
prepend_all-nil none = refl
prepend_all-nil (some (v, rest)) = refl

read_word-IsPlain :
    (w s : Text) → All IsPlain w → read_word outside (w ++ s) ≡ prepend_all w (read_word outside s)
unfolding read_word
read_word-IsPlain [] s h = prepend_all-nil (read_word outside s)
read_word-IsPlain (c ∷ w) s h =
    rw (h.0.0, h.0.1, h.0.2)
      (ap (prepend c) (read_word-IsPlain w s h.1) ∙ prepend-prepend_all c w (read_word outside s))

digits-IsPlain :
    (fuel n : ℕ) (acc : Text) → All IsPlain acc → All IsPlain (decimal_digits fuel n acc)
unfolding decimal_digits
digits-IsPlain zero n acc h = h
digits-IsPlain (suc fuel) n acc h = elim (Bool-cases (ltb n 10)) [
  | inl e ↦ rw e ((ground arith, ground arith, ground arith), h)
  | inr e ↦ rw e (
      digits-IsPlain fuel (n / 10) ((48 + n % 10) ∷ acc)
        ((ground arith, ground arith, ground arith), h))
]

decimal-IsPlain : (n : ℕ) → All IsPlain (decimal n)
unfolding decimal
decimal-IsPlain n = digits-IsPlain (suc n) n [] tt

-- What follows the number in a command, with the rest of the line.
abbrev after_number : Text → Text → Text
after_number command rest = codes "s sh -c " ++ (shell_argument command ++ 32 ∷ rest)

read_words-after_timeout :
    (n seconds : ℕ) (command rest : Text)
    → read_words (suc (suc (suc (suc n)))) (decimal seconds ++ after_number command rest)
      ≡ prepend_word (decimal seconds ++ codes "s") (
          prepend_word
            (codes "sh")
            (prepend_word (codes "-c") (prepend_word command (read_words n rest))))
unfolding read_words read_word
read_words-after_timeout n seconds command rest =
    rw
      (
        read_word-IsPlain (decimal seconds) (after_number command rest) (decimal-IsPlain seconds),
        read_word-shell_argument command rest,
      )
      refl

bounded_command_assoc :
    (seconds : ℕ) (command rest : Text)
    → bounded_command seconds command ++ 32 ∷ rest
      ≡ codes "timeout " ++ (decimal seconds ++ after_number command rest)
unfolding bounded_command
bounded_command_assoc seconds command rest =
    ap (λ t. codes "timeout " ++ t)
      (append-append (decimal seconds ++ codes "s sh -c ") (shell_argument command) (32 ∷ rest)
        ∙ append-append (decimal seconds) (codes "s sh -c ") (shell_argument command ++ 32 ∷ rest))

-- The words of one command before those of the rest of the line.
abbrev pub command_words : ℕ → Text → Option (List Text × Text) → Option (List Text × Text)
command_words seconds command more = prepend_word (codes "timeout") (
    prepend_word (decimal seconds ++ codes "s")
      (prepend_word (codes "sh") (prepend_word (codes "-c") (prepend_word command more))))

read_words-bounded_command :
    (n seconds : ℕ) (command rest : Text)
    → read_words (suc (suc (suc (suc (suc n))))) (bounded_command seconds command ++ 32 ∷ rest)
      ≡ command_words seconds command (read_words n rest)
unfolding read_words read_word
read_words-bounded_command n seconds command rest =
    ap (read_words (suc (suc (suc (suc (suc n)))))) (bounded_command_assoc seconds command rest)
    ∙ ap (prepend_word (codes "timeout")) (read_words-after_timeout n seconds command rest)

both_words :
    (a b : ℕ) (migration seeder : Text)
    → read_words 11
        ((bounded_command a migration ++ codes " && " ++ bounded_command b seeder) ++ 32 ∷ [])
      ≡ command_words a migration
          (prepend_word (codes "&&") (command_words b seeder (some ([], []))))
unfolding read_words read_word
both_words a b migration seeder =
    let tail = codes "&& " ++ (bounded_command b seeder ++ 32 ∷ []) in
    ap (read_words 11) (
      append-append (bounded_command a migration ++ codes " && ") (bounded_command b seeder)
        (32 ∷ [])
      ∙ append-append (bounded_command a migration) (codes " && ")
          (bounded_command b seeder ++ 32 ∷ []))
    ∙ read_words-bounded_command 6 a migration tail
    ∙ ap (λ o. command_words a migration (prepend_word (codes "&&") o))
        (read_words-bounded_command 0 b seeder [])

-- With a migration and a seeder both enabled, a shell reads the hook as the migration under its timeout,
-- `&&`, and the seeder under its timeout, where each command is one word, exactly as the customer wrote
-- it, and the number before each `s` shows the seconds.
pub read_words-application_post_deployment_command :
    (p : ApplicationReleasePolicy) (migration seeder : Text)
    → (p.migrate_on_deploy && not (is_empty migration)) ≡ true
    → p.migration_command ≡ some migration
    → (p.run_seeder_on_deploy && not (is_empty seeder)) ≡ true
    → p.seeder_command ≡ some seeder
    → (hook : Text) × (application_post_deployment_command p ≡ some hook)
      × (read_words 11 (hook ++ 32 ∷ [])
          ≡ command_words p.migration_timeout_seconds migration (
              prepend_word
                (codes "&&")
                (command_words p.seeder_timeout_seconds seeder (some ([], [])))))
      × (value_from 0 (decimal p.migration_timeout_seconds) ≡ p.migration_timeout_seconds)
      × (value_from 0 (decimal p.seeder_timeout_seconds) ≡ p.seeder_timeout_seconds)
unfolding application_post_deployment_command release_commands release_step joined_or_none
    join_commands
read_words-application_post_deployment_command p migration seeder m em s es = (
  bounded_command p.migration_timeout_seconds migration
      ++ codes " && "
      ++ bounded_command p.seeder_timeout_seconds seeder,
  simp (em, es, m, s),
  both_words p.migration_timeout_seconds p.seeder_timeout_seconds migration seeder,
  value_from-decimal p.migration_timeout_seconds,
  value_from-decimal p.seeder_timeout_seconds,
)
