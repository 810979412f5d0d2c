-- ===== src/Authentication/Handed.antt =====
-- What a handoff gives, and what it gives again.
use qubit_hosting_panel.Common.{
  ◌+◌, ◌<◌, sym, ◌∙◌, Option-cases, ℕ, ◌≤◌, ◌≡◌, refl, ap, Bool, true, Option, none, some, List, [],
  ◌∷◌, arith, any, any_imp, All, All-append, is_some, inl, inr,
}
use qubit_hosting_panel.Common.Text.{Text, text_eq, text_eq_sound}
use qubit_hosting_panel.Common.Table.{
  find, find_sound, find-any, update_where, count_where, only_one, any-update_where, any-append,
  All-update_rows, All-find,
}
use qubit_hosting_panel.Sessions.{AuthenticatedSession, RequestMetadata}
use qubit_hosting_panel.Authentication.Model.{User, Accounts, AuthenticationHandoff}
use qubit_hosting_panel.Authentication.Codes.{Fresh, create_session}
use qubit_hosting_panel.Authentication.Verification.{is_active_user}
use qubit_hosting_panel.Authentication.Handoffs.{
  handoff_invalid, established, handoff_created, target_origin_of, established_answer, establish,
  HandoffRequest, create_handoff, is_consumable_handoff, set_consumed, establish_for,
  consume_handoff,
}
use qubit_hosting_panel.Authentication.HandoffSteps.{
  HandoffStep, create_step, consume_step, HandoffServer, HandoffTables, take_handoff_step,
  take_handoff_steps, consume_of,
}
use qubit_hosting_panel.Authentication.HandoffKept.{named, Keeps, take_handoff_steps-keeps}
use qubit_hosting_panel.Authentication.Issued.{IsOf, IsIssued, IsIssued-Keeps, created-IsIssued}

-- Every handoff with the hash is consumed, and there is one, so that the unique index lets no other in.
pub record IsTaken (hash : Text) (rows : List AuthenticationHandoff) : Type 0 where
  pub consumed : All (λ h. text_eq h.token_hash hash ≡ true → is_some h.consumed_at ≡ true) rows
  pub kept : any (λ h. text_eq h.token_hash hash) rows ≡ true

module _ (w : HandoffServer) (hash : Text) where
  IsTaken-Keeps : Keeps hash (IsTaken hash)
  IsTaken-Keeps = record {
    there = λ rows t. t.kept;
    appended = λ h rows n t. record {
      consumed =
          All-append (λ g. named hash g ≡ true → is_some g.consumed_at ≡ true) rows (h ∷ [])
            t.consumed (λ g. absurd (cc (n, g)), tt);
      kept = ground (arith, t.kept, any-append (named hash) rows (h ∷ []));
    };
    consumed = λ p now rows t. record {
      consumed =
          All-update_rows (λ g. named hash g ≡ true → is_some g.consumed_at ≡ true)
            (λ g. named hash g ≡ true → is_some g.consumed_at ≡ true) p (set_consumed now) rows
            (λ g _ _ _. refl) (λ g _ k. k) t.consumed;
      kept =
          ground
            (arith, t.kept, any-update_where (named hash) p (set_consumed now) rows (λ g e. refl));
    };
  }

  taken-none :
      (origin : Text) (now : ℕ) (rows : List AuthenticationHandoff)
      (o : Option AuthenticationHandoff)
      → IsTaken hash rows
      → find (is_consumable_handoff hash origin now) rows ≡ o
      → o ≡ none
  taken-none origin now rows none t e = refl
  taken-none origin now rows (some h) t e =
      let p = is_consumable_handoff hash origin now in
      let met = find_sound p rows e in
      let used =
        All-find (λ h. text_eq h.token_hash hash ≡ true → is_some h.consumed_at ≡ true) p rows
          t.consumed e in
      absurd (ground (arith, met, used))

module _ (w : HandoffServer) where
  -- What a session that was given tells of its handoff.
  established-found :
      (md : RequestMetadata) (fresh : Fresh) (now : ℕ) (o : Option AuthenticationHandoff)
      (acc : Accounts) (path : Text) (user sid : ℕ)
      → (establish_for w.crypto w.settings w.secrets md fresh now o acc).0
        ≡ established path user sid
      → (h : AuthenticationHandoff) × (o ≡ some h) × (path ≡ h.target_path) × (user ≡ h.user_id)
  unfolding establish_for establish
  established-found md fresh now none acc path user sid e = cc
  established-found md fresh now (some h) acc path user sid e =
      elim (Option-cases (find (is_active_user h.user_id) acc.users)) [
        | inl n ↦ cc (rw n at e)
        | inr (u, n) ↦
            let met = find_sound (is_active_user h.user_id) acc.users n in
            let (p, q) =
              answered h u
                (create_session w.crypto w.settings w.secrets md now fresh u.id u.token_version acc)
                (rw n at e) in
            (h, refl, p, ground (arith, met, q))
      ]
    where
      answered :
          (h : AuthenticationHandoff) (u : User) (o : Option Accounts)
          → (established_answer h u fresh acc o).0 ≡ established path user sid
          → (path ≡ h.target_path) × (user ≡ u.id)
      answered h u none e = cc
      answered h u (some b) e = (ground (arith, e), ground (arith, e))

  found-IsTaken :
      (token origin : Text) (now : ℕ) (rows : List AuthenticationHandoff)
      (h : AuthenticationHandoff)
      → count_where (λ g. text_eq g.token_hash (w.sha256 token)) rows ≤ 1
      → find (is_consumable_handoff (w.sha256 token) origin now) rows ≡ some h
      → IsTaken
          (w.sha256 token)
          (update_where (is_consumable_handoff (w.sha256 token) origin now) (set_consumed now) rows)
  found-IsTaken token origin now rows h one e =
      let p : AuthenticationHandoff → Bool = is_consumable_handoff (w.sha256 token) origin now in
      let named : AuthenticationHandoff → Bool = λ g. text_eq g.token_hash (w.sha256 token) in
      let all_met = only_one named p rows (λ g m. ground (arith, m)) one (find-any p rows e) in
      record {
        consumed =
            All-update_rows (λ g. named g ≡ true → p g ≡ true)
              (λ g. named g ≡ true → is_some g.consumed_at ≡ true) p (set_consumed now) rows
              (λ g _ _ _. refl) (λ g n k m. cc (n, k m)) all_met;
        kept = ground (
          arith,
          any-update_where named p (set_consumed now) rows (λ g m. refl),
          any_imp p named rows (λ g m. ground (arith, m)) (find-any p rows e),
        );
      }

taken-invalid :
    (w : HandoffServer) (token origin : Text) (md : RequestMetadata) (fresh : Fresh) (now : ℕ)
    (s : HandoffTables)
    → IsTaken (w.sha256 token) s.0
    → consume_of w token origin md fresh now s ≡ handoff_invalid
unfolding consume_handoff establish_for
taken-invalid w token origin md fresh now (rows, acc) t =
    ap (λ o. (establish_for w.crypto w.settings w.secrets md fresh now o acc).0)
      (taken-none w (w.sha256 token) origin now rows
        (find (is_consumable_handoff (w.sha256 token) origin now) rows) t refl)

-- A handoff that was created gives at most one session, whatever is asked before and afterwards. The
-- session is given less than two minutes after the creation, at the origin that the handoff was
-- created for, for its path and to its user, and from then on the handoff is refused.
pub handed_over_once :
    (w : HandoffServer) (a : AuthenticatedSession) (r : HandoffRequest) (s : HandoffTables)
    (target token : Text) (xs ys : List HandoffStep) (origin : Text) (md : RequestMetadata)
    (fresh : Fresh) (now : ℕ) (path : Text) (user sid : ℕ) (origin' : Text) (md' : RequestMetadata)
    (fresh' : Fresh) (later : ℕ)
    → (create_handoff w.sha256 (some a) r s.0).0 ≡ handoff_created target token
    → consume_of w r.token origin md fresh now
        (take_handoff_steps w (create_step (some a) r ∷ xs) s)
      ≡ established path user sid
    → (now < r.now + 120000)
      × (target_origin_of r ≡ origin)
      × (path ≡ r.target_path)
      × (user ≡ a.user_id)
      × (consume_of w r.token origin' md' fresh' later (
            take_handoff_steps w
              (consume_step r.token origin md fresh now ∷ ys)
              (take_handoff_steps w (create_step (some a) r ∷ xs) s))
          ≡ handoff_invalid)
unfolding consume_handoff take_handoff_steps take_handoff_step
handed_over_once w a r (rows, acc) target token xs ys origin md fresh now path user sid origin' md'
      fresh' later c e =
    let hash = w.sha256 r.token in
    let p = is_consumable_handoff hash origin now in
    let before : HandoffTables =
      take_handoff_steps w xs (take_handoff_step w (create_step (some a) r) (rows, acc)) in
    let issued =
      take_handoff_steps-keeps w hash (IsIssued w a r) (IsIssued-Keeps w a r) xs
        (take_handoff_step w (create_step (some a) r) (rows, acc))
        (created-IsIssued w a r rows target token c) in
    let (h, found, path_of, user_of) =
      established-found w md fresh now (find p before.0) before.1 path user sid e in
    let met = find_sound p before.0 found in
    let (expires, at, for, of) =
      All-find (IsOf w a r) p before.0 issued.sound found (ground (arith, met)) in
    let consumed = take_handoff_step w (consume_step r.token origin md fresh now) before in
    let taken =
      take_handoff_steps-keeps w hash (IsTaken hash) (IsTaken-Keeps w hash) ys consumed
        (found-IsTaken w r.token origin now before.0 h issued.alone found) in
    let same : h.target_origin ≡ origin =
      text_eq_sound h.target_origin origin (ground (arith, met)) in
    (
      ground (arith, met, expires),
      sym at ∙ same,
      path_of ∙ for,
      user_of ∙ of,
      taken-invalid w r.token origin' md' fresh' later (take_handoff_steps w ys consumed) taken,
    )
