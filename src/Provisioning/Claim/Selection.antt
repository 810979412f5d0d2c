-- ===== src/Provisioning/Claim/Selection.antt =====
-- Which job a worker selects.
use qubit_hosting_panel.Common.{
  ℕ, ◌≤◌, ◌≡◌, ◌↔◌, ◌≢◌, ◌⊎◌, refl, sym, subst, inl, inr, Bool, true, false, none, some, List, [],
  ◌∷◌, map, arith, ◌==◌, ==_iff, All, Option-cases,
}
use qubit_hosting_panel.Provisioning.Model.{Job, Db}
use qubit_hosting_panel.Provisioning.Claim.{claimable, earliest, select_candidate}

abbrev pub job_id : Job → ℕ
job_id j = j.id

-- The ids of a list of rows, no two the same: the primary key.
abbrev pub Distinct : List ℕ → Type 0
Distinct [] = Unit
Distinct (i ∷ is) = All (λ k. k ≢ i) is × Distinct is

module _ (p : Job → Bool) where
  -- The chosen row is the head or the choice of the tail.
  earliest-cases :
      (j : Job) (js : List Job) {k : Job}
      → earliest p (j ∷ js) ≡ some k
      → ((k ≡ j) × (p j ≡ true)) ⊎ (earliest p js ≡ some k)
  unfolding earliest
  earliest-cases j js h = elim (Option-cases (earliest p js)) [
    | inl e ↦ ground arith
    | inr (m, e) ↦ ground arith
  ]

  pub earliest-All {ℓ} :
      (P : Job → Type ℓ) (js : List Job) {k : Job} → All P js → earliest p js ≡ some k → P k
  unfolding earliest
  earliest-All P [] h e = cc
  earliest-All P (j ∷ js) h e = elim (earliest-cases j js e) [
    | inl (same, _) ↦ rw same h.0
    | inr later ↦ earliest-All P js h.1 later
  ]

  pub earliest-passes : (js : List Job) {k : Job} → earliest p js ≡ some k → p k ≡ true
  unfolding earliest
  earliest-passes [] e = cc
  earliest-passes (j ∷ js) e = elim (earliest-cases j js e) [
    | inl (same, t) ↦ rw same t
    | inr later ↦ earliest-passes js later
  ]

  pub earliest-none : (js : List Job) → earliest p js ≡ none → All (λ j. p j ≡ false) js
  unfolding earliest
  earliest-none [] e = tt
  earliest-none (j ∷ js) e = elim (Option-cases (earliest p js)) [
    | inl n ↦ (ground arith, earliest-none js n)
    | inr (m, n) ↦ ground arith
  ]

  NoLater : ℕ → List Job → Type 0
  NoLater t js = All (λ j. p j ≡ true → t ≤ j.created_at) js

  NoLater-weaken : (t u : ℕ) (js : List Job) → t ≤ u → NoLater u js → NoLater t js
  unfolding NoLater
  NoLater-weaken t u [] h n = tt
  NoLater-weaken t u (j ∷ js) h n = (λ e. omega (arith, n.0 e), NoLater-weaken t u js h n.1)

  NoLater-none : (t : ℕ) (js : List Job) → All (λ j. p j ≡ false) js → NoLater t js
  unfolding NoLater
  NoLater-none t [] h = tt
  NoLater-none t (j ∷ js) h = (λ e. cc h.0, NoLater-none t js h.1)

  earliest-NoLater : (js : List Job) {k : Job} → earliest p js ≡ some k → NoLater k.created_at js
  unfolding earliest NoLater
  earliest-NoLater [] e = cc
  earliest-NoLater (j ∷ js) {k} e = elim (Option-cases (earliest p js)) [
    | inl n ↦ (ground arith, NoLater-none k.created_at js (earliest-none js n))
    | inr (m, n) ↦ (
      ground arith,
      NoLater-weaken k.created_at m.created_at js (ground arith) (earliest-NoLater js n),
    )
  ]

  -- A row of another id than every row of the tail is no row of the tail.
  others_differ :
      (j : Job) (js : List Job)
      → All (λ k. k ≢ j.id) (map job_id js)
      → All (λ k. (k.id == j.id) ≡ true → k ≡ j) js
  others_differ j [] h = tt
  others_differ j (k ∷ js) h = (λ e. absurd (h.0 ((==_iff k.id j.id).0 e)), others_differ j js h.1)

  differs_too :
      (j : Job) (js : List Job) → All (λ k. k ≢ j.id) (map job_id js) → All (λ k. k.id ≢ j.id) js
  differs_too j [] h = tt
  differs_too j (k ∷ js) h = (h.0, differs_too j js h.1)

  -- By the primary key, the selected row is the only one of its id.
  pub earliest-key :
      (js : List Job) {k : Job}
      → Distinct (map job_id js)
      → earliest p js ≡ some k
      → All (λ j. (j.id == k.id) ≡ true → j ≡ k) js
  earliest-key [] d e = tt
  earliest-key (j ∷ js) {k} d e = elim (earliest-cases j js e) [
    | inl (same, _) ↦
        subst (λ x. All (λ i. (i.id == x.id) ≡ true → i ≡ x) (j ∷ js)) (sym same)
          (λ _. refl, others_differ j js d.0)
    | inr later ↦
        let apart : k.id ≢ j.id = earliest-All (λ i. i.id ≢ j.id) js (differs_too j js d.0) later in
        (λ g. absurd (apart (sym ((==_iff j.id k.id).0 g))), earliest-key js d.1 later)
  ]

none-earliest :
    (now : ℕ) (js : List Job)
    → All (λ j. claimable now j ≡ false) js
    → earliest (claimable now) js ≡ none
unfolding earliest
none-earliest now [] h = refl
none-earliest now (j ∷ js) h = ground (arith, none-earliest now js)

-- The selected row passes the test of the query, and no row that passes it is older.
pub record IsNext (now : ℕ) (jobs : List Job) (k : Job) : Type 0 where
  pub passes : claimable now k ≡ true
  pub oldest : All (λ j. claimable now j ≡ true → k.created_at ≤ j.created_at) jobs

-- A worker selects a job exactly when one is claimable; the job that it selects is claimable and no
-- claimable job is older.
pub select_candidate_lem :
    (now : ℕ) (db : Db)
    → ((select_candidate now db ≡ none) ↔ All (λ j. claimable now j ≡ false) db.jobs)
      × ((k : Job) → select_candidate now db ≡ some k → IsNext now db.jobs k)
unfolding select_candidate earliest-NoLater NoLater
select_candidate_lem now db = (
  (earliest-none (claimable now) db.jobs, none-earliest now db.jobs),
  λ k e. record {
    passes = earliest-passes (claimable now) db.jobs e;
    oldest = earliest-NoLater (claimable now) db.jobs e;
  },
)
