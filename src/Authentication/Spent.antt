-- ===== src/Authentication/Spent.antt =====
-- A refresh token after its use, and two uses at once.
use qubit_hosting_panel.Common.{
  ℕ, ◌≡◌, refl, sym, subst, true, false, some, List, [], ◌∷◌, arith, ◌==◌, any, All, Bool-cases,
  inl, inr,
}
use qubit_hosting_panel.Common.Text.{Text, text_eq}
use qubit_hosting_panel.Common.Table.{All-update_rows}
use qubit_hosting_panel.Sessions.{Session, RequestMetadata}
use qubit_hosting_panel.Authentication.Model.{User}
use qubit_hosting_panel.Authentication.Tokens.{
  RefreshPlan, TokenAnswer, refreshed, refresh_claims, refresh_token_invalid, rotate, refresh,
  hash_taken, finish_refresh, begin_refresh, set_rotated,
}
use qubit_hosting_panel.Authentication.Rotation.{
  TokenRequest, ask_refresh, TokenServer, hash_of, serve_token, serve_tokens, Lacks, Spares,
  finish-Lacks, rotate-found, serve_tokens-Lacks, lacking-refused,
}

-- The session of a hash is the only one, as the unique index demands.
abbrev pub OnlyOne : Text → ℕ → Session → Type 0
OnlyOne hash id t = text_eq t.refresh_token_hash hash ≡ true → (t.id == id) ≡ true

abbrev pub plan_of : TokenServer → Text → Text → ℕ → List Session → RefreshPlan
plan_of w token rotated now rows =
    begin_refresh w.issue_access_token w.crypto w.settings w.refresh_secret token rotated now
      w.users rows

abbrev pub finish_of :
    TokenServer → RefreshPlan → Text → ℕ → RequestMetadata → List Session → List Session
finish_of w plan token now md rows = (finish_refresh w.issue_access_token plan token now md rows).1

abbrev pub answer_of :
    TokenServer → RefreshPlan → Text → ℕ → RequestMetadata → List Session → TokenAnswer
answer_of w plan token now md rows = (finish_refresh w.issue_access_token plan token now md rows).0

module _ (w : TokenServer) where
  rotated-Lacks :
      (old : Text) (s : Session) (u : User) (h token : Text) (now : ℕ) (md : RequestMetadata)
      (rows : List Session)
      → text_eq h old ≡ false
      → any (hash_taken h s) rows ≡ false
      → All (OnlyOne old s.id) rows
      → All (Lacks old) (finish_refresh w.issue_access_token (rotate s u h) token now md rows).1
  unfolding finish_refresh
  rotated-Lacks old s u h token now md rows e f one = rw f (
      All-update_rows (OnlyOne old s.id) (Lacks old) (λ t. t.id == s.id) (set_rotated h now md s)
        rows (λ t _ _. e)
        (λ t n o. elim (Bool-cases (text_eq t.refresh_token_hash old)) [
          | inl x ↦ absurd (ground (arith, n, o x))
          | inr x ↦ x
        ])
        one)

  lacking-untaken :
      (hash : Text) (s : Session) (rows : List Session)
      → All (Lacks hash) rows
      → any (hash_taken hash s) rows ≡ false
  lacking-untaken hash s [] l = refl
  lacking-untaken hash s (t ∷ rows) l = ground (arith, l.0, lacking-untaken hash s rows l.1)

  rotated-OnlyOne :
      (s : Session) (u : User) (h token : Text) (now : ℕ) (md : RequestMetadata)
      (rows : List Session)
      → All (Lacks h) rows
      → All
          (OnlyOne h s.id)
          (finish_refresh w.issue_access_token (rotate s u h) token now md rows).1
  unfolding finish_refresh
  rotated-OnlyOne s u h token now md rows l = rw (lacking-untaken h s rows l) (
      All-update_rows (Lacks h) (OnlyOne h s.id) (λ t. t.id == s.id) (set_rotated h now md s) rows
        (λ t e _ _. e) (λ t _ k e. cc (k, e)) l)

  rotated-refreshed :
      (s : Session) (u : User) (h token access : Text) (now : ℕ) (md : RequestMetadata)
      (rows : List Session)
      → any (hash_taken h s) rows ≡ false
      → w.issue_access_token (refresh_claims s u) ≡ some access
      → (finish_refresh w.issue_access_token (rotate s u h) token now md rows).0
        ≡ refreshed access token
  unfolding finish_refresh
  rotated-refreshed s u h token access now md rows f i = rw (f, i) refl

-- A refresh token that has been exchanged is refused from then on, whatever the server is asked in
-- between, unless a token with its hash is drawn again.
pub spent_for_good :
    (w : TokenServer) (token rotated old h : Text) (now : ℕ) (md : RequestMetadata)
    (rows : List Session) (s : Session) (u : User) (rs : List TokenRequest) (next : Text)
    (later : ℕ) (md' : RequestMetadata)
    → plan_of w token rotated now rows ≡ rotate s u h
    → hash_of w token ≡ some old
    → text_eq h old ≡ false
    → any (hash_taken h s) rows ≡ false
    → All (OnlyOne old s.id) rows
    → All (Spares w old) rs
    → (serve_token w
        (ask_refresh token next later md')
        (serve_tokens w rs (serve_token w (ask_refresh token rotated now md) rows).1)).0
      ≡ refresh_token_invalid
unfolding serve_token refresh
spent_for_good w token rotated old h now md rows s u rs next later md' p e n f one k =
    lacking-refused w old token next later md' _ e (
      serve_tokens-Lacks w old rs _ k (
        subst (λ x. All (Lacks old) (finish_of w x rotated now md rows)) (sym p)
          (rotated-Lacks w old s u h rotated now md rows n f one)))

-- Two refreshes with one token that both read the session before either writes both succeed, where the
-- server issues access tokens for the session and the two new tokens have hashes of their own; but the
-- new token of the first is refused at once.
pub refresh_together :
    (w : TokenServer) (token r1 r2 h1 h2 access : Text) (now : ℕ) (md : RequestMetadata)
    (rows : List Session) (s : Session) (u : User) (next : Text) (later : ℕ) (md' : RequestMetadata)
    → plan_of w token r1 now rows ≡ rotate s u h1
    → plan_of w token r2 now rows ≡ rotate s u h2
    → text_eq h2 h1 ≡ false
    → text_eq h1 h2 ≡ false
    → All (Lacks h1) rows
    → All (Lacks h2) rows
    → w.issue_access_token (refresh_claims s u) ≡ some access
    → (answer_of w (plan_of w token r1 now rows) r1 now md rows ≡ refreshed access r1)
      × (answer_of w
            (plan_of w token r2 now rows)
            r2
            now
            md
            (finish_of w (plan_of w token r1 now rows) r1 now md rows)
          ≡ refreshed access r2)
      × ((serve_token w (ask_refresh r1 next later md') (
            finish_of w
              (plan_of w token r2 now rows)
              r2
              now
              md
              (finish_of w (plan_of w token r1 now rows) r1 now md rows))).0
          ≡ refresh_token_invalid)
refresh_together w token r1 r2 h1 h2 access now md rows s u next later md' p1 p2 n n' l1 l2 i =
    let (_, made) = rotate-found w h1 _ (hash_of w r1) now w.users rows s u h1 p1 in
    let one = rotated-OnlyOne w s u h1 r1 now md rows l1 in
    let spare =
      finish-Lacks w h2 (rotate s u h1) r1 now md rows
        (λ s' u' h' e.
          let same : h1 ≡ h' = ground arith in subst (λ x. text_eq x h2 ≡ false) same n')
        l2 in
    let free = lacking-untaken w h2 s _ spare in
    rw (p1, p2)
      (
        rotated-refreshed w s u h1 r1 access now md rows (lacking-untaken w h1 s rows l1) i,
        rotated-refreshed w s u h2 r2 access now md _ free i,
        lacking-refused w h1 r1 next later md' _ made
            (rotated-Lacks w h1 s u h2 r2 now md _ n free one),
      )
