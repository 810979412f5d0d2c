-- ===== src/Provisioning/Pass/Name.antt =====
-- `resourceName` of `processProvisioningJobs` in src/services/provisioning/provisioningService.ts.
use qubit_hosting_panel.Common.{
  ℕ, Bool, true, false, ◌&&◌, ◌||◌, Option, [], ◌∷◌, ◌++◌, reverse, ◌==◌, leb, if◌then◌else◌, take,
  or_else, coalesce,
}
use qubit_hosting_panel.Common.Text.{Text, codes, to_lower}

unfoldable pub is_slug_unit : ℕ → Bool
is_slug_unit c = (leb b'a' c && leb c b'z') || (leb b'0' c && leb c b'9')

-- `.replace(/[^a-z0-9]+/g, "-")`: the flag says that the last unit was replaced.
unfoldable pub replace_runs : Bool → Text → Text
replace_runs replaced [] = []
replace_runs replaced (c ∷ s) =
    let kept = c ∷ replace_runs false s in
    let dashed = b'-' ∷ replace_runs true s in
    let dropped = replace_runs true s in
    if is_slug_unit c then kept else (if replaced then dropped else dashed)

unfoldable pub drop_dash : Text → Text
drop_dash [] = []
drop_dash (c ∷ s) = if c == b'-' then s else c ∷ s

-- `.replace(/^-|-$/g, "")`
unfoldable pub trim_dashes : Text → Text
unfolding drop_dash
trim_dashes s = reverse (drop_dash (reverse (drop_dash s)))

unfoldable pub slug : Text → Text
unfolding to_lower replace_runs is_slug_unit trim_dashes
slug s = trim_dashes (replace_runs false (to_lower s))

-- `String(metadata?.name ?? input.workspaceName ?? "workspace")`, cut to 40 units, and the first
-- eight of the workspace's id.
unfoldable pub resource_name : Option Text → Option Text → Text → Text
unfolding slug
resource_name application workspace uuid =
    take 40 (slug (or_else (coalesce application workspace) (codes "workspace")))
    ++ b'-' ∷ take 8 uuid
