-- ===== src/Provisioning/Pass/Names.antt =====
-- What a provider resource is called.
use qubit_hosting_panel.Common.{
  ℕ, ◌≤◌, ◌≡◌, refl, inl, inr, ◌⊎◌, Bool, true, false, Option, [], ◌∷◌, arith, ◌==◌, if◌then◌else◌,
  All, All-append, All-reverse, All-take, length, take, length-take, length-append, Bool-cases,
  or_else, coalesce,
}
use qubit_hosting_panel.Common.Text.{to_lower, Text, codes}
use qubit_hosting_panel.Provisioning.Pass.Name.{
  is_slug_unit, replace_runs, drop_dash, slug, resource_name,
}

-- A lower-case letter or a digit of ASCII, or a dash.
abbrev pub IsNameUnit : ℕ → Type 0
IsNameUnit c = (is_slug_unit c ≡ true) ⊎ (c ≡ b'-')

replace_runs-All : (r : Bool) (s : Text) → All IsNameUnit (replace_runs r s)
unfolding replace_runs
replace_runs-All r [] = tt
replace_runs-All r (c ∷ s) = elim (Bool-cases (is_slug_unit c)) [
  | inl e ↦ rw e (inl e, replace_runs-All false s)
  | inr e ↦ rw e (dropped r (replace_runs-All true s))
]
  where
    dropped :
        (b : Bool)
        → All IsNameUnit (replace_runs true s)
        → All IsNameUnit (if b then replace_runs true s else b'-' ∷ replace_runs true s)
    dropped true h = h
    dropped false h = (inr refl, h)

drop_dash-All : (s : Text) → All IsNameUnit s → All IsNameUnit (drop_dash s)
unfolding drop_dash
drop_dash-All [] h = tt
drop_dash-All (c ∷ s) h = elim (Bool-cases (c == b'-')) [ inl e ↦ rw e h.1 | inr e ↦ rw e h ]

slug-All : (s : Text) → All IsNameUnit (slug s)
unfolding slug
slug-All s = All-reverse IsNameUnit _ (
    drop_dash-All _
      (All-reverse IsNameUnit _ (drop_dash-All _ (replace_runs-All false (to_lower s)))))

-- Whatever an application and a workspace are called, the name of the provider resource has 49 units
-- at most, and each is a lower-case letter, a digit or a dash, if the units of the id are.
pub resource_name_lem :
    (application workspace : Option Text) (uuid : Text)
    → All IsNameUnit uuid
    → (length (resource_name application workspace uuid) ≤ 49)
      × All IsNameUnit (resource_name application workspace uuid)
unfolding resource_name
resource_name_lem application workspace uuid h =
    let s = slug (or_else (coalesce application workspace) (codes "workspace")) in
    (
      omega (
        arith,
        length-append (take 40 s) (b'-' ∷ take 8 uuid),
        length-take 40 s,
        length-take 8 uuid,
      ),
      All-append IsNameUnit (take 40 s) (b'-' ∷ take 8 uuid)
          (All-take IsNameUnit 40 s
            (slug-All (or_else (coalesce application workspace) (codes "workspace"))))
          (inr refl, All-take IsNameUnit 8 uuid h),
    )
