-- ===== src/Reconciliation/Fallback.antt =====
-- Which client a connection has after a run that failed as a whole.
use qubit_hosting_panel.Common.{
  ℕ, Bool, ◌≡◌, refl, sym, subst, none, some, List, [], ◌∷◌, arith, ◌==◌, length, Bool-cases, inl,
  inr,
}
use qubit_hosting_panel.Common.Text.{Text}
use qubit_hosting_panel.Common.Table.{find, update_where}
use qubit_hosting_panel.Provisioning.Pass.Actions.{Reply}
use qubit_hosting_panel.Reconciliation.Snapshot.{Json}
use qubit_hosting_panel.Reconciliation.Inventory.{ImportKind, Inventory}
use qubit_hosting_panel.Reconciliation.Runs.{
  ProviderConnection, ClientOf, environment, Failure, is_managed, managed_coolify_provider,
  import_kinds, set_health, Reconciled, reconcile_provider_connection,
}
use qubit_hosting_panel.Reconciliation.Owned.{progress_of, reconciled-finished}

unhealthy-unmanaged :
    (id now : ℕ) (fs : List Failure) (rows : List ProviderConnection)
    → length fs ≡ 5
    → find (is_managed (some id)) (update_where (λ c. c.id == id) (set_health now fs) rows) ≡ none
unfolding set_health
unhealthy-unmanaged id now fs [] h = refl
unhealthy-unmanaged id now fs (c ∷ rows) h = elim (Bool-cases (c.id == id)) [
  | inl e ↦ rw (e, h) (ground (arith, unhealthy-unmanaged id now fs rows h))
  | inr e ↦ rw e (ground (arith, e, unhealthy-unmanaged id now fs rows h))
]

-- After a run in which the listing of every kind failed, the next run of the same connection does not
-- ask that connection's provider again: it imports, for the connection, what the provider of the
-- environment lists.
pub failed_run_uses_environment :
    (sha256 string_of : Json → Text) (opens : ℕ → Bool) (id now now' : ℕ)
    (list list' : ClientOf → ImportKind → Reply (List Json)) (rows : List ProviderConnection)
    (inv inv' : Inventory) (r : Reconciled)
    → reconcile_provider_connection sha256 string_of opens id now list rows inv ≡ some r
    → length r.progress.failures ≡ length import_kinds
    → reconcile_provider_connection sha256 string_of opens id now' list' r.connections inv'
      ≡ reconcile_provider_connection sha256 string_of opens id now'
          (λ _. list' environment)
          r.connections
          inv'
unfolding reconcile_provider_connection managed_coolify_provider
failed_run_uses_environment sha256 string_of opens id now now' list list' rows inv inv' r e h =
    let made = reconciled-finished sha256 string_of opens id now list rows inv r e in
    let p = progress_of sha256 string_of id now list rows inv in
    let all_failed : length p.failures ≡ length import_kinds =
      subst (λ x. length x.progress.failures ≡ length import_kinds) (sym made) h in
    let unmanaged : find (is_managed (some id)) r.connections ≡ none =
      subst (λ x. find (is_managed (some id)) x.connections ≡ none) made
        (unhealthy-unmanaged id now p.failures rows all_failed) in
    rw unmanaged refl
