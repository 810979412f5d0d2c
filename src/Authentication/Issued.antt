-- ===== src/Authentication/Issued.antt =====
-- The handoff that a request has created, through further requests.
use qubit_hosting_panel.Common.{
  ◌+◌, ◌≤◌, ◌≡◌, refl, true, false, not, ◌&&◌, ◌||◌, some, List, [], ◌∷◌, ◌++◌, arith, any, All,
  All-append, All-imp, any-All, Bool-cases, inl, inr,
}
use qubit_hosting_panel.Common.Text.{Text, codes, text_eq, text_eq_refl}
use qubit_hosting_panel.Common.Table.{
  count_where, count-append, count_none, count-update_where, any-append, any-update_where,
  All-update_rows,
}
use qubit_hosting_panel.Sessions.{AuthenticatedSession}
use qubit_hosting_panel.Authentication.Model.{AuthenticationHandoff}
use qubit_hosting_panel.Authentication.Handoffs.{
  handoff_created, HandoffRequest, is_database_target, target_origin_of, new_handoff,
  insert_handoff, create_handoff, set_consumed,
}
use qubit_hosting_panel.Authentication.HandoffSteps.{HandoffServer}
use qubit_hosting_panel.Authentication.HandoffKept.{named, Keeps}

module _ (w : HandoffServer) (a : AuthenticatedSession) (r : HandoffRequest) where
  -- Its session's user, its target and its lifetime of two minutes.
  abbrev pub IsOf : AuthenticationHandoff → Type 0
  IsOf h =
      named (w.sha256 r.token) h ≡ true
      → (h.expires_at ≡ r.now + 120000)
        × (h.target_origin ≡ target_origin_of r)
        × (h.target_path ≡ r.target_path)
        × (h.user_id ≡ a.user_id)

  pub record IsIssued (rows : List AuthenticationHandoff) : Type 0 where
    pub sound : All IsOf rows
    pub alone : count_where (named (w.sha256 r.token)) rows ≤ 1
    pub kept : any (named (w.sha256 r.token)) rows ≡ true

  pub IsIssued-Keeps : Keeps (w.sha256 r.token) IsIssued
  IsIssued-Keeps = record {
    there = λ rows s. s.kept;
    appended = λ h rows n s. record {
      sound = All-append IsOf rows (h ∷ []) s.sound (λ g. absurd (cc (n, g)), tt);
      alone = ground (arith, s.alone, n, count-append (named (w.sha256 r.token)) rows (h ∷ []));
      kept = ground (arith, s.kept, any-append (named (w.sha256 r.token)) rows (h ∷ []));
    };
    consumed = λ p now rows s. record {
      sound = All-update_rows IsOf IsOf p (set_consumed now) rows (λ h _ k. k) (λ h _ k. k) s.sound;
      alone = omega (
        arith,
        s.alone,
        count-update_where (named (w.sha256 r.token)) p (set_consumed now) rows (λ h _ n. n),
      );
      kept = ground (
        arith,
        s.kept,
        any-update_where (named (w.sha256 r.token)) p (set_consumed now) rows (λ h e. refl),
      );
    };
  }

  inserted-IsIssued :
      (rows : List AuthenticationHandoff) (origin token : Text)
      → (insert_handoff w.sha256 a r rows).0 ≡ handoff_created origin token
      → IsIssued (insert_handoff w.sha256 a r rows).1
  unfolding insert_handoff
  inserted-IsIssued rows origin token c = elim (Bool-cases (any (named (w.sha256 r.token)) rows)) [
    | inl e ↦ cc (rw e at c)
    | inr e ↦
        let old : List AuthenticationHandoff = new_handoff w.sha256 a r ∷ [] in
        let issued : IsIssued (rows ++ old) = record {
          sound =
              All-append IsOf rows old
                (All-imp (λ h. named (w.sha256 r.token) h ≡ false) IsOf
                  (λ h n g. absurd (cc (n, g))) rows (any-All (named (w.sha256 r.token)) rows e))
                (λ _. (refl, refl, refl, refl), tt);
          alone = ground (
            arith,
            count-append (named (w.sha256 r.token)) rows old,
            count_none (named (w.sha256 r.token)) (named (w.sha256 r.token)) rows (λ h n. n) e,
          );
          kept = ground (
            arith,
            text_eq_refl (w.sha256 r.token),
            any-append (named (w.sha256 r.token)) rows old,
          );
        } in
        rw e issued
  ]

  pub created-IsIssued :
      (rows : List AuthenticationHandoff) (origin token : Text)
      → (create_handoff w.sha256 (some a) r rows).0 ≡ handoff_created origin token
      → IsIssued (create_handoff w.sha256 (some a) r rows).1
  unfolding create_handoff
  created-IsIssued rows origin token c =
      elim (Bool-cases (
        not (is_database_target r.target_path)
        && not (r.urls.separate_domain && r.urls.panel_domain_ready))) [
          | inl e ↦ cc (rw e at c)
          | inr e ↦
              elim (Bool-cases (text_eq r.target_path (codes "/admin/overview") && not r.admin)) [
                | inl f ↦ cc (rw (e, f) at c)
                | inr f ↦
                    elim (Bool-cases (
                      (text_eq r.target_path (codes "/dashboard")
                        || is_database_target r.target_path)
                      && not r.customer)) [
                        | inl g ↦ cc (rw (e, f, g) at c)
                        | inr g ↦
                            rw (e, f, g) (inserted-IsIssued rows origin token (rw (e, f, g) at c))
                      ]
              ]
        ]
