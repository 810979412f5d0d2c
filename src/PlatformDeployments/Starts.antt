-- ===== src/PlatformDeployments/Starts.antt =====
-- The invariant of the target through startPlatformDeployment.
use qubit_hosting_panel.Common.{
  ◌≡◌, refl, inl, inr, true, Option, none, some, List, any, Bool-cases,
}
use qubit_hosting_panel.Common.Text.{Text, codes}
use qubit_hosting_panel.Provisioning.Pass.Actions.{Reply, ok, threw, Thrown, an_error}
use qubit_hosting_panel.PlatformDeployments.Rows.{PlatformDeployment, holds_target, update_row}
use qubit_hosting_panel.PlatformDeployments.Start.{
  StartAnswers, new_deployment, set_requested, set_request_failed, failure_of, fail_request,
  request_deployment, store_request, insert_deployment, start_target,
}
use qubit_hosting_panel.PlatformDeployments.Exclusive.{
  IsExclusive, update_where-IsExclusive, update_row-IsExclusive, append-IsExclusive,
}

-- The writes of other processes keep the index.
abbrev pub Peers : (List PlatformDeployment → List PlatformDeployment) → Type 0
Peers f = (rows : List PlatformDeployment) → IsExclusive rows → IsExclusive (f rows)

module _ (sanitize : Text → Text) (a : StartAnswers) where
  fail_request-IsExclusive :
      (t : Thrown) (rows : List PlatformDeployment)
      → IsExclusive rows
      → IsExclusive (fail_request sanitize a t rows).1
  unfolding fail_request
  fail_request-IsExclusive t rows h =
      update_where-IsExclusive (set_request_failed a.now (failure_of sanitize t))
        (record { id = λ d. refl; target = λ d. refl; deleted = λ d. refl }) _ rows (λ d e. cc) h

  request_deployment-IsExclusive :
      (reply : Reply (Option Text)) (rows : List PlatformDeployment)
      → IsExclusive rows
      → IsExclusive (request_deployment sanitize a reply rows).1
  unfolding request_deployment store_request
  request_deployment-IsExclusive (threw t) rows h = fail_request-IsExclusive t rows h
  request_deployment-IsExclusive (ok id) rows h =
      stored (update_row a.new_id (set_requested a.now id) true rows) refl
    where
      stored :
          (o : Option (List PlatformDeployment))
          → update_row a.new_id (set_requested a.now id) true rows ≡ o
          → IsExclusive (store_request sanitize a o rows).1
      stored none e = fail_request-IsExclusive (an_error (codes "duplicate key")) rows h
      stored (some rows') e =
          update_row-IsExclusive (set_requested a.now id)
            (record { id = λ d. refl; target = λ d. refl; deleted = λ d. refl }) a.new_id rows rows'
            e h

  insert_deployment-IsExclusive :
      (target : Text) (reply : Reply (Unit {0})) (rows : List PlatformDeployment)
      → Peers a.before_update
      → IsExclusive rows
      → IsExclusive (insert_deployment sanitize a target reply rows).1
  unfolding insert_deployment
  insert_deployment-IsExclusive target (threw t) rows p h = h
  insert_deployment-IsExclusive target (ok u) rows p h =
      elim (Bool-cases (any (holds_target target) rows)) [
        | inl there ↦ rw there h
        | inr free ↦ rw free (
            request_deployment-IsExclusive a.requested _
              (p _ (append-IsExclusive rows (new_deployment a target) free h)))
      ]

  pub start_target-IsExclusive :
      (target : Option Text) (rows : List PlatformDeployment)
      → Peers a.before_insert
      → Peers a.before_update
      → IsExclusive rows
      → IsExclusive (start_target sanitize a target rows).1
  unfolding start_target
  start_target-IsExclusive none rows p q h = h
  start_target-IsExclusive (some target) rows p q h =
      elim (Bool-cases (any (holds_target target) rows)) [
        | inl there ↦ rw there h
        | inr free ↦
            rw free
              (insert_deployment-IsExclusive target a.inserted (a.before_insert rows) q (p rows h))
      ]
