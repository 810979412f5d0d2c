-- ===== src/PlatformDeployments/History.antt =====
-- The invariant of the target through calls of startPlatformDeployment and refreshPlatformDeployment.
use qubit_hosting_panel.Common.{
  ◌≡◌, refl, subst, inl, inr, false, Option, none, some, List, [], ◌∷◌, All, Bool-cases,
}
use qubit_hosting_panel.Common.Text.{Text}
use qubit_hosting_panel.Provisioning.Pass.Actions.{Reply, ok, threw}
use qubit_hosting_panel.PlatformDeployments.Status.{
  is_active, is_completed, normalize_platform_deployment_status,
}
use qubit_hosting_panel.PlatformDeployments.Rows.{
  PlatformDeployment, target_application_uuid_of, update_row, update_row-made,
}
use qubit_hosting_panel.PlatformDeployments.Start.{StartAnswers, start_platform_deployment}
use qubit_hosting_panel.PlatformDeployments.Refresh.{
  ProviderDeployment, RefreshAnswers, Platform, fetch_deployment, is_earlier, set_polled,
  set_poll_error, fail_poll, audit_deployment, store_poll, record_poll, apply_poll,
  refresh_platform_deployment,
}
use qubit_hosting_panel.PlatformDeployments.Exclusive.{
  IsExclusive, KeepsKey, update_where-IsExclusive, update_row-IsExclusive,
}
use qubit_hosting_panel.PlatformDeployments.Starts.{Peers, start_target-IsExclusive}

module _ (sanitize : Text → Text) (a : RefreshAnswers) (d : PlatformDeployment) where
  fail_poll-IsExclusive :
      (s : Platform) → IsExclusive s.rows → IsExclusive (fail_poll sanitize a d s).1.rows
  unfolding fail_poll
  fail_poll-IsExclusive s h =
      update_where-IsExclusive (set_poll_error a.now)
        (record { id = λ d. refl; target = λ d. refl; deleted = λ d. refl }) _ s.rows (λ d e. e) h

  audit_deployment-IsExclusive :
      (reply : Reply (Unit {0})) (p : ProviderDeployment) (s : Platform)
      → IsExclusive s.rows
      → IsExclusive (audit_deployment sanitize a reply d p s).1.rows
  unfolding audit_deployment
  audit_deployment-IsExclusive (threw t) p s h = fail_poll-IsExclusive s h
  audit_deployment-IsExclusive (ok u) p s h = h

  store_poll-IsExclusive :
      (o : Option (List PlatformDeployment)) (p : ProviderDeployment) (s : Platform)
      → IsExclusive s.rows
      → ((rows : List PlatformDeployment) → o ≡ some rows → IsExclusive rows)
      → IsExclusive (store_poll sanitize a o d p s).1.rows
  unfolding store_poll
  store_poll-IsExclusive none p s h k = fail_poll-IsExclusive s h
  store_poll-IsExclusive (some rows) p s h k =
      elim (Bool-cases (is_completed (normalize_platform_deployment_status p.status))) [
        | inl c ↦
            rw c (audit_deployment-IsExclusive a.audited p (record s { rows = rows }) (k rows refl))
        | inr c ↦ rw c (k rows refl)
      ]

  polled-IsExclusive :
      (p : ProviderDeployment) (rows rows' : List PlatformDeployment)
      → IsExclusive rows
      → update_row d.id
          (set_polled sanitize a.now d p)
          (is_active (normalize_platform_deployment_status p.status))
          rows
        ≡ some rows'
      → IsExclusive rows'
  unfolding set_polled
  polled-IsExclusive p rows rows' h e =
      let key : KeepsKey (set_polled sanitize a.now d p) = record {
        id = λ d. refl;
        target = λ d. refl;
        deleted = λ d. refl;
      } in
      elim (Bool-cases (is_active (normalize_platform_deployment_status p.status))) [
        | inl active ↦
            update_row-IsExclusive (set_polled sanitize a.now d p) key d.id rows rows'
              (rw active at e) h
        | inr ended ↦
            subst IsExclusive
              (update_row-made d.id (set_polled sanitize a.now d p) false rows rows'
                (rw ended at e))
              (update_where-IsExclusive (set_polled sanitize a.now d p) key _ rows
                (λ x g. cc (g, ended)) h)
      ]

  record_poll-IsExclusive :
      (p : ProviderDeployment) (s : Platform)
      → IsExclusive s.rows
      → IsExclusive (record_poll sanitize a d p s).1.rows
  unfolding record_poll
  record_poll-IsExclusive p s h =
      store_poll-IsExclusive _ p s h (λ rows' e. polled-IsExclusive p s.rows rows' h e)

  apply_poll-IsExclusive :
      (reply : Reply (Option ProviderDeployment)) (s : Platform)
      → IsExclusive s.rows
      → IsExclusive (apply_poll sanitize a reply d s).1.rows
  unfolding apply_poll
  apply_poll-IsExclusive (threw t) s h = fail_poll-IsExclusive s h
  apply_poll-IsExclusive (ok none) s h = h
  apply_poll-IsExclusive (ok (some p)) s h = elim (Bool-cases (is_earlier d p)) [
    | inl e ↦ rw e h
    | inr e ↦ rw e (record_poll-IsExclusive p s h)
  ]

  refresh-IsExclusive :
      (s : Platform)
      → Peers a.meanwhile
      → IsExclusive s.rows
      → IsExclusive (refresh_platform_deployment sanitize a d s).1.rows
  unfolding refresh_platform_deployment
  refresh-IsExclusive s p h = elim (Bool-cases (is_active d.status)) [
    | inl e ↦ rw e (
        apply_poll-IsExclusive (fetch_deployment a d) (record s { rows = a.meanwhile s.rows })
          (p s.rows h))
    | inr e ↦ rw e h
  ]

-- Calls, each with what it gets from outside; a refresh has the row that its caller has read.
pub data Call : Type 0 where
  start : StartAnswers → Call
  refresh : RefreshAnswers → PlatformDeployment → Call

abbrev pub OrderlyPeers : Call → Type 0
OrderlyPeers (start a) = Peers a.before_insert × Peers a.before_update
OrderlyPeers (refresh a d) = Peers a.meanwhile

abbrev pub perform : (Text → Text) → Call → Platform → Platform
perform sanitize (start a) s = record s { rows = (start_platform_deployment sanitize a s.rows).1 }
perform sanitize (refresh a d) s = (refresh_platform_deployment sanitize a d s).1

abbrev pub perform_calls : (Text → Text) → List Call → Platform → Platform
perform_calls sanitize [] s = s
perform_calls sanitize (c ∷ cs) s = perform_calls sanitize cs (perform sanitize c s)

-- Through any sequence of starts and refreshes, with rows read at any time before and provider
-- answers of any kind, all active live deployments of a target are one row, if that was so at first
-- and the other processes' writes keep it.
pub perform_calls-IsExclusive :
    (sanitize : Text → Text) (cs : List Call) (s : Platform)
    → All OrderlyPeers cs
    → IsExclusive s.rows
    → IsExclusive (perform_calls sanitize cs s).rows
unfolding start_platform_deployment
perform_calls-IsExclusive sanitize [] s p h = h
perform_calls-IsExclusive sanitize (start a ∷ cs) s p h =
    perform_calls-IsExclusive sanitize cs _ p.1 (
      start_target-IsExclusive sanitize a (target_application_uuid_of a.configured) s.rows p.0.0
        p.0.1 h)
perform_calls-IsExclusive sanitize (refresh a d ∷ cs) s p h =
    perform_calls-IsExclusive sanitize cs _ p.1 (refresh-IsExclusive sanitize a d s p.0 h)
