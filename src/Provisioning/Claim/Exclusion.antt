-- ===== src/Provisioning/Claim/Exclusion.antt =====
-- Two workers that saw one candidate.
use qubit_hosting_panel.Common.{ℕ, ◌≡◌, refl, none, List, [], ◌∷◌, arith}
use qubit_hosting_panel.Common.Table.{find, update_where, update_where-none}
use qubit_hosting_panel.Provisioning.Model.{Job, Db}
use qubit_hosting_panel.Provisioning.Claim.{claims, set_claimed, claim}

-- After an update by `claims` no row of that id is open.
find-claims :
    (now : ℕ) (c d : Job) (js : List Job)
    → d.id ≡ c.id
    → find (claims d) (update_where (claims c) (set_claimed now c) js) ≡ none
unfolding set_claimed
find-claims now c d [] e = refl
find-claims now c d (j ∷ js) e = ground (arith, find-claims now c d js e)

-- Once a worker has claimed a job, a second worker that selected the job earlier, whatever row it
-- saw then, claims nothing and changes nothing.
pub claim-exclusive :
    (now later : ℕ) (c d : Job) (db : Db)
    → d.id ≡ c.id
    → claim later d (claim now c db).1 ≡ (none, (claim now c db).1)
unfolding claim
claim-exclusive now later c d db e =
    let gone = find-claims now c d db.jobs e in
    ground (
      arith,
      gone,
      update_where-none (claims d) (set_claimed later d)
          (update_where (claims c) (set_claimed now c) db.jobs) gone,
    )
