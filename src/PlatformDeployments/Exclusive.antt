-- ===== src/PlatformDeployments/Exclusive.antt =====
-- The active deployments of a target.
use qubit_hosting_panel.Common.{
  ℕ, ◌≡◌, refl, sym, subst, inl, inr, Bool, true, false, not, ◌&&◌, some, List, [], ◌∷◌, ◌++◌,
  arith, ◌==◌, any, any-All, All, All-append, Bool-cases,
}
use qubit_hosting_panel.Common.Text.{Text, text_eq, text_eq_sound}
use qubit_hosting_panel.Common.Table.{update_where, All-update_rows}
use qubit_hosting_panel.PlatformDeployments.Status.{is_active}
use qubit_hosting_panel.PlatformDeployments.Rows.{
  PlatformDeployment, holds_target, blocked, update_row,
}

-- Every target has one id that all its active live rows carry.
abbrev pub Owner : Text → List PlatformDeployment → Type 0
Owner t rows = (id : ℕ) × All (λ d. holds_target t d ≡ true → d.id ≡ id) rows

pub record IsExclusive (rows : List PlatformDeployment) : Type 0 where
  pub owner : (t : Text) → Owner t rows

-- The columns that an update leaves alone.
pub record KeepsKey (f : PlatformDeployment → PlatformDeployment) : Type 0 where
  pub id : (d : PlatformDeployment) → (f d).id ≡ d.id
  pub target : (d : PlatformDeployment) → (f d).target_application_uuid ≡ d.target_application_uuid
  pub deleted : (d : PlatformDeployment) → (f d).deleted ≡ d.deleted

module _ {ℓ κ} {A : Type 0} (P : A → Type ℓ) (Q : A → Type κ) where
  All-both : (xs : List A) → All P xs → All Q xs → All (λ x. P x × Q x) xs
  All-both [] h k = tt
  All-both (x ∷ xs) h k = ((h.0, k.0), All-both xs h.1 k.1)

module _ {A : Type 0} (p : A → Bool) (Q : A → Type 0) where
  All-of_false : (xs : List A) → All (λ x. p x ≡ false) xs → All (λ x. p x ≡ true → Q x) xs
  All-of_false [] h = tt
  All-of_false (x ∷ xs) h = (λ e. absurd (ground arith), All-of_false xs h.1)

module _ (f : PlatformDeployment → PlatformDeployment) (k : KeepsKey f) where
  holds_target-KeepsKey :
      (t : Text) (d : PlatformDeployment)
      → holds_target t (f d)
        ≡ (text_eq d.target_application_uuid t && is_active (f d).status && not d.deleted)
  holds_target-KeepsKey t d = simp (k.target d, k.deleted d)

  -- An update that makes no row active.
  Owner-update_where :
      (p : PlatformDeployment → Bool) (rows : List PlatformDeployment) (t : Text)
      → ((d : PlatformDeployment) → is_active (f d).status ≡ true → is_active d.status ≡ true)
      → Owner t rows
      → Owner t (update_where p f rows)
  Owner-update_where p rows t weak (id, all) = (
    id,
    All-update_rows _ _ p f rows
        (λ d _ one holds.
          let before : holds_target t d ≡ true =
            ground (arith, weak d, holds_target-KeepsKey t d) in
          simp (k.id d) (one before))
        (λ d _ one. one) all,
  )

  pub update_where-IsExclusive :
      (p : PlatformDeployment → Bool) (rows : List PlatformDeployment)
      → ((d : PlatformDeployment) → is_active (f d).status ≡ true → is_active d.status ≡ true)
      → IsExclusive rows
      → IsExclusive (update_where p f rows)
  update_where-IsExclusive p rows weak h = record {
    owner = λ t. Owner-update_where p rows t weak (h.owner t);
  }

  -- An update that makes a row active and that the index lets through.
  Owner-update_row :
      (i : ℕ) (rows rows' : List PlatformDeployment) (t : Text)
      → update_row i f true rows ≡ some rows'
      → Owner t rows
      → Owner t rows'
  unfolding update_row
  Owner-update_row i rows rows' t e (id, all) =
      let free : any (λ d. d.id == i && not d.deleted && blocked i d.target_application_uuid rows)
            rows
          ≡ false =
        ground arith in
      let same : update_where (λ d. d.id == i) f rows ≡ rows' = ground arith in
      subst (Owner t) same (elim (Bool-cases (blocked i t rows)) [
        | inl there ↦ (
          id,
          All-update_rows
              (λ d.
                (holds_target t d ≡ true → d.id ≡ id)
                × ((d.id == i && not d.deleted && blocked i d.target_application_uuid rows)
                    ≡ false))
              _ (λ d. d.id == i) f rows
              (λ d met one holds. absurd (
                let equal =
                  text_eq_sound d.target_application_uuid t
                    (ground (arith, holds_target-KeepsKey t d)) in
                let there' = subst (λ x. blocked i x rows ≡ true) (sym equal) there in
                ground (arith, holds_target-KeepsKey t d)))
              (λ d _ one. one.0) (All-both _ _ rows all (any-All _ rows free)),
        )
        | inr alone ↦ (
          i,
          All-update_rows (λ d. (not (d.id == i) && holds_target t d) ≡ false) _ (λ d. d.id == i) f
              rows (λ d met _ holds. ground (arith, k.id d)) (λ d other one holds. ground arith)
              (any-All _ rows alone),
        )
      ])

  pub update_row-IsExclusive :
      (i : ℕ) (rows rows' : List PlatformDeployment)
      → update_row i f true rows ≡ some rows'
      → IsExclusive rows
      → IsExclusive rows'
  update_row-IsExclusive i rows rows' e h = record {
    owner = λ t. Owner-update_row i rows rows' t e (h.owner t);
  }

Owner-append :
    (rows : List PlatformDeployment) (d : PlatformDeployment) (t : Text)
    → any (holds_target d.target_application_uuid) rows ≡ false
    → Owner t rows
    → Owner t (rows ++ d ∷ [])
Owner-append rows d t free (id, all) = elim (Bool-cases (text_eq d.target_application_uuid t)) [
  | inl e ↦
      let same = text_eq_sound d.target_application_uuid t e in
      let none_holds = subst (λ x. any (holds_target x) rows ≡ false) same free in
      (
        d.id,
        All-append _ rows (d ∷ []) (All-of_false _ _ rows (any-All _ rows none_holds))
            (λ _. refl, tt),
      )
  | inr e ↦ (id, All-append _ rows (d ∷ []) all (λ holds. absurd (ground arith), tt))
]

-- An insert that the index lets through.
pub append-IsExclusive :
    (rows : List PlatformDeployment) (d : PlatformDeployment)
    → any (holds_target d.target_application_uuid) rows ≡ false
    → IsExclusive rows
    → IsExclusive (rows ++ d ∷ [])
append-IsExclusive rows d free h = record { owner = λ t. Owner-append rows d t free (h.owner t) }
