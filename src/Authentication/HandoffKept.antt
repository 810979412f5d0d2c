-- ===== src/Authentication/HandoffKept.antt =====
-- Invariants of the handoffs through the requests about them, for one hash that some handoff has.
use qubit_hosting_panel.Common.{
  ℕ, ◌≡◌, subst, Bool, true, false, not, ◌&&◌, ◌||◌, Option, none, some, List, [], ◌∷◌, ◌++◌, any,
  Bool-cases, inl, inr,
}
use qubit_hosting_panel.Common.Text.{Text, codes, text_eq, text_eq_sound}
use qubit_hosting_panel.Common.Table.{update_where}
use qubit_hosting_panel.Sessions.{AuthenticatedSession}
use qubit_hosting_panel.Authentication.Model.{AuthenticationHandoff}
use qubit_hosting_panel.Authentication.Handoffs.{
  HandoffRequest, is_database_target, insert_handoff, create_handoff, new_handoff,
  is_consumable_handoff, set_consumed, consume_handoff,
}
use qubit_hosting_panel.Authentication.HandoffSteps.{
  HandoffStep, create_step, consume_step, HandoffServer, HandoffTables, take_handoff_step,
  take_handoff_steps,
}

abbrev pub named : Text → AuthenticationHandoff → Bool
named hash h = text_eq h.token_hash hash

-- A property that another handoff and a consumption keep, and that has a handoff of the hash.
pub record Keeps (hash : Text) (I : List AuthenticationHandoff → Type 0) : Type 0 where
  pub there : (rows : List AuthenticationHandoff) → I rows → any (named hash) rows ≡ true
  pub appended :
      (h : AuthenticationHandoff) (rows : List AuthenticationHandoff)
      → named hash h ≡ false
      → I rows
      → I (rows ++ h ∷ [])
  pub consumed :
      (p : AuthenticationHandoff → Bool) (now : ℕ) (rows : List AuthenticationHandoff)
      → I rows
      → I (update_where p (set_consumed now) rows)

-- Rows of which one has a hash and none has another: the two differ.
absent-other :
    (hash other : Text) (rows : List AuthenticationHandoff)
    → any (named hash) rows ≡ true
    → any (named other) rows ≡ false
    → text_eq other hash ≡ false
absent-other hash other rows t n = elim (Bool-cases (text_eq other hash)) [
  | inl g ↦
      let same : other ≡ hash = text_eq_sound other hash g in
      let absent : any (named hash) rows ≡ false = subst (λ x. any (named x) rows ≡ false) same n in
      cc (absent, t)
  | inr g ↦ g
]

module _ (w : HandoffServer) (hash : Text) (I : List AuthenticationHandoff → Type 0)
    (keeps : Keeps hash I) where
  insert_handoff-keeps :
      (a : AuthenticatedSession) (r : HandoffRequest) (rows : List AuthenticationHandoff)
      → I rows
      → I (insert_handoff w.sha256 a r rows).1
  unfolding insert_handoff
  insert_handoff-keeps a r rows t = elim (Bool-cases (any (named (w.sha256 r.token)) rows)) [
    | inl e ↦ rw e t
    | inr e ↦ rw e (
        keeps.appended (new_handoff w.sha256 a r) rows
          (absent-other hash (w.sha256 r.token) rows (keeps.there rows t) e) t)
  ]

  create_handoff-keeps :
      (a : Option AuthenticatedSession) (r : HandoffRequest) (rows : List AuthenticationHandoff)
      → I rows
      → I (create_handoff w.sha256 a r rows).1
  unfolding create_handoff
  create_handoff-keeps none r rows t = t
  create_handoff-keeps (some a) r rows t =
      elim (Bool-cases (
        not (is_database_target r.target_path)
        && not (r.urls.separate_domain && r.urls.panel_domain_ready))) [
          | inl e ↦ rw e t
          | inr e ↦
              elim (Bool-cases (text_eq r.target_path (codes "/admin/overview") && not r.admin)) [
                | inl f ↦ rw (e, f) t
                | inr f ↦
                    elim (Bool-cases (
                      (text_eq r.target_path (codes "/dashboard")
                        || is_database_target r.target_path)
                      && not r.customer)) [
                        | inl g ↦ rw (e, f, g) t
                        | inr g ↦ rw (e, f, g) (insert_handoff-keeps a r rows t)
                      ]
              ]
        ]

  take_handoff_step-keeps :
      (x : HandoffStep) (s : HandoffTables) → I s.0 → I (take_handoff_step w x s).0
  unfolding take_handoff_step consume_handoff
  take_handoff_step-keeps (create_step a r) (rows, acc) t = create_handoff-keeps a r rows t
  take_handoff_step-keeps (consume_step token origin md fresh now) (rows, acc) t =
      keeps.consumed (is_consumable_handoff (w.sha256 token) origin now) now rows t

  pub take_handoff_steps-keeps :
      (xs : List HandoffStep) (s : HandoffTables) → I s.0 → I (take_handoff_steps w xs s).0
  unfolding take_handoff_steps
  take_handoff_steps-keeps [] s t = t
  take_handoff_steps-keeps (x ∷ xs) s t =
      take_handoff_steps-keeps xs _ (take_handoff_step-keeps x s t)
