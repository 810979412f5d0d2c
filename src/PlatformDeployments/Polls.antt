-- ===== src/PlatformDeployments/Polls.antt =====
-- What refreshPlatformDeployment writes.
use qubit_hosting_panel.Common.{
  ◌≡◌, ◌≤◌, ◌-◌, refl, sym, ap, subst, inl, inr, true, false, Option, none, some, List, [], arith,
  All, Bool-cases, is_some, length, length-drop, or_else,
}
use qubit_hosting_panel.Common.Text.{Text}
use qubit_hosting_panel.Common.Table.{update_where, All-update_rows, All-updated}
use qubit_hosting_panel.Provisioning.Pass.Actions.{Reply, ok, threw, Thrown}
use qubit_hosting_panel.PlatformDeployments.Status.{
  PlatformStatus, is_active, is_completed, normalize_platform_deployment_status,
}
use qubit_hosting_panel.PlatformDeployments.Rows.{
  PlatformDeployment, bounded_logs, max_log_characters, update_row, update_row-made,
}
use qubit_hosting_panel.PlatformDeployments.Refresh.{
  ProviderDeployment, RefreshAnswers, Platform, is_failed, by_id, fetch_deployment, is_earlier,
  set_polled, set_poll_error, fail_poll, audit_deployment, store_poll, record_poll, apply_poll,
  refresh_platform_deployment,
}

-- A row that the page can show: short logs, a completion time exactly when it has ended, and a message
-- when it has failed.
pub record IsSound (e : PlatformDeployment) : Type 0 where
  pub short : length e.logs ≤ max_log_characters
  pub ended : is_some e.completed_at ≡ is_completed e.status
  pub explained : is_failed e.status ≡ true → is_some e.failure_message ≡ true

bounded_logs_lem :
    (sanitize : Text → Text) (v : Option Text)
    → length (bounded_logs sanitize v) ≤ max_log_characters
unfolding bounded_logs
bounded_logs_lem sanitize v =
    let s = sanitize (or_else v []) in omega (arith, length-drop (length s - max_log_characters) s)

module _ (sanitize : Text → Text) (a : RefreshAnswers) (d : PlatformDeployment) where
  set_polled-IsSound :
      (p : ProviderDeployment) (e : PlatformDeployment) → IsSound (set_polled sanitize a.now d p e)
  unfolding set_polled
  set_polled-IsSound p e = record {
    short = bounded_logs_lem sanitize p.logs;
    ended = ground arith;
    explained = λ f. rw f refl;
  }

  set_poll_error-IsSound : (e : PlatformDeployment) → IsSound e → IsSound (set_poll_error a.now e)
  set_poll_error-IsSound e h = record { short = h.short; ended = h.ended; explained = h.explained }

  fail_poll-All :
      (s : Platform) → All IsSound s.rows → All IsSound (fail_poll sanitize a d s).1.rows
  unfolding fail_poll
  fail_poll-All s h =
      All-update_rows IsSound IsSound (by_id d.id) (set_poll_error a.now) s.rows
        (λ e _ k. set_poll_error-IsSound e k) (λ e _ k. k) h

  audit_deployment-All :
      (reply : Reply (Unit {0})) (p : ProviderDeployment) (s : Platform)
      → All IsSound s.rows
      → All IsSound (audit_deployment sanitize a reply d p s).1.rows
  unfolding audit_deployment
  audit_deployment-All (threw t) p s h = fail_poll-All s h
  audit_deployment-All (ok u) p s h = h

  store_poll-All :
      (o : Option (List PlatformDeployment)) (p : ProviderDeployment) (s : Platform)
      → All IsSound s.rows
      → ((rows : List PlatformDeployment) → o ≡ some rows → All IsSound rows)
      → All IsSound (store_poll sanitize a o d p s).1.rows
  unfolding store_poll
  store_poll-All none p s h k = fail_poll-All s h
  store_poll-All (some rows) p s h k =
      elim (Bool-cases (is_completed (normalize_platform_deployment_status p.status))) [
        | inl c ↦ rw c (audit_deployment-All a.audited p (record s { rows = rows }) (k rows refl))
        | inr c ↦ rw c (k rows refl)
      ]

  apply_poll-All :
      (reply : Reply (Option ProviderDeployment)) (s : Platform)
      → All IsSound s.rows
      → All IsSound (apply_poll sanitize a reply d s).1.rows
  unfolding apply_poll record_poll
  apply_poll-All (threw t) s h = fail_poll-All s h
  apply_poll-All (ok none) s h = h
  apply_poll-All (ok (some p)) s h = elim (Bool-cases (is_earlier d p)) [
    | inl e ↦ rw e h
    | inr e ↦ rw e (
        store_poll-All _ p s h (λ rows' o.
          let same = update_row-made d.id (set_polled sanitize a.now d p) _ s.rows rows' o in
          subst (All IsSound) same (
            All-update_rows IsSound IsSound (by_id d.id) (set_polled sanitize a.now d p) s.rows
              (λ x _ _. set_polled-IsSound p x) (λ x _ k. k) h)))
  ]

-- A refresh, whatever row its caller read before and whatever the provider answers or throws, keeps
-- every row sound: logs of at most a million units, a completion time exactly on the rows that have
-- ended, and a message on those that have failed.
pub refresh-IsSound :
    (sanitize : Text → Text) (a : RefreshAnswers) (d : PlatformDeployment) (s : Platform)
    → ((rows : List PlatformDeployment) → All IsSound rows → All IsSound (a.meanwhile rows))
    → All IsSound s.rows
    → All IsSound (refresh_platform_deployment sanitize a d s).1.rows
unfolding refresh_platform_deployment
refresh-IsSound sanitize a d s p h = elim (Bool-cases (is_active d.status)) [
  | inl e ↦ rw e (
      apply_poll-All sanitize a d (fetch_deployment a d) (record s { rows = a.meanwhile s.rows })
        (p s.rows h))
  | inr e ↦ rw e h
]

completed-inactive :
    (status : PlatformStatus) → is_completed status ≡ true → is_active status ≡ false
completed-inactive status h = ground arith

-- The rows after an ended deployment whose audit entry is refused.
abbrev refused_rows :
    (Text → Text)
    → RefreshAnswers
    → PlatformDeployment
    → ProviderDeployment
    → Platform
    → List PlatformDeployment
refused_rows sanitize a d p s =
    update_where (by_id d.id) (set_poll_error a.now)
      (update_where (by_id d.id) (set_polled sanitize a.now d p) (a.meanwhile s.rows))

refresh-refused :
    (sanitize : Text → Text) (a : RefreshAnswers) (d : PlatformDeployment) (s : Platform)
    (p : ProviderDeployment) (t : Thrown)
    → is_active d.status ≡ true
    → fetch_deployment a d ≡ ok (some p)
    → is_earlier d p ≡ false
    → is_completed (normalize_platform_deployment_status p.status) ≡ true
    → a.audited ≡ threw t
    → (refresh_platform_deployment sanitize a d s).1
      ≡ record s { rows = refused_rows sanitize a d p s }
unfolding refresh_platform_deployment apply_poll record_poll update_row store_poll audit_deployment
    fail_poll
refresh-refused sanitize a d s p t active fetched newer ended refused =
    let off = completed-inactive (normalize_platform_deployment_status p.status) ended in
    simp (active, fetched, newer, off, ended, refused)

refused_rows-ended :
    (sanitize : Text → Text) (a : RefreshAnswers) (d : PlatformDeployment) (s : Platform)
    (p : ProviderDeployment)
    → is_completed (normalize_platform_deployment_status p.status) ≡ true
    → All (λ e. by_id d.id e ≡ true → is_completed e.status ≡ true) (refused_rows sanitize a d p s)
unfolding set_polled
refused_rows-ended sanitize a d s p ended =
    let Ended = λ (e : PlatformDeployment). by_id d.id e ≡ true → is_completed e.status ≡ true in
    All-update_rows Ended Ended (by_id d.id) (set_poll_error a.now) _ (λ e _ k. k) (λ e _ k. k)
      (All-updated (λ e. is_completed e.status ≡ true) (by_id d.id) (by_id d.id)
        (set_polled sanitize a.now d p) (a.meanwhile s.rows) (λ e _. ended) (λ e k. k))

-- Where the audit log refuses the entry of a deployment that has ended, the deployment stays ended
-- without the entry, and no refresh of a row that has ended writes anything.
pub lost_audit :
    (sanitize : Text → Text) (a : RefreshAnswers) (d : PlatformDeployment) (s : Platform)
    (p : ProviderDeployment) (t : Thrown)
    → is_active d.status ≡ true
    → fetch_deployment a d ≡ ok (some p)
    → is_earlier d p ≡ false
    → is_completed (normalize_platform_deployment_status p.status) ≡ true
    → a.audited ≡ threw t
    → ((refresh_platform_deployment sanitize a d s).1.audits ≡ s.audits)
      × All
          (λ e. by_id d.id e ≡ true → is_completed e.status ≡ true)
          (refresh_platform_deployment sanitize a d s).1.rows
      × ((b : RefreshAnswers) (e : PlatformDeployment) (s' : Platform)
          → is_completed e.status ≡ true
          → refresh_platform_deployment sanitize b e s' ≡ (some e, s'))
unfolding refresh_platform_deployment
lost_audit sanitize a d s p t active fetched newer ended refused =
    let after = refresh-refused sanitize a d s p t active fetched newer ended refused in
    (
      ap (λ x. x.audits) after,
      subst (λ x. All (λ e. by_id d.id e ≡ true → is_completed e.status ≡ true) x.rows) (sym after)
          (refused_rows-ended sanitize a d s p ended),
      λ b e s' c. rw (completed-inactive e.status c) refl,
    )
