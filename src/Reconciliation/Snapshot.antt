-- ===== src/Reconciliation/Snapshot.antt =====
-- src/services/hosting/providerReconciliationService.ts: the provider's payloads as JSON, without their
-- secrets, and the states that they report.
use qubit_hosting_panel.Common.{
  Bool, true, false, not, ◌&&◌, ◌||◌, Option, none, some, List, [], ◌∷◌, ◌==◌, any, drop,
  if◌then◌else◌,
}
use qubit_hosting_panel.Common.Text.{
  Text, codes, text_eq, trim, to_lower, starts_with, contains, ascii_upper,
}
use qubit_hosting_panel.Provisioning.Model.{ResourceStatus}

-- A number is the text that prints it.
mutual
  pub data Json : Type 0 where
    null : Json
    boolean : Bool → Json
    number : Text → Json
    string : Text → Json
    array : Items → Json
    object : Fields → Json

  pub data Items : Type 0 where
    no_items : Items
    item : Json → Items → Items

  pub data Fields : Type 0 where
    no_fields : Fields
    field : Text → Json → Fields → Fields

-- `private.?key`, anywhere; `.` is no line break.
abbrev pub ends_private : Text → Bool
ends_private [] = false
ends_private (c ∷ s) =
    starts_with (codes "KEY") (c ∷ s)
    || (not (c == 10 || c == 13 || c == 0x2028 || c == 0x2029) && starts_with (codes "KEY") s)

unfoldable pub has_private_key : Text → Bool
has_private_key [] = false
has_private_key (c ∷ s) =
    (starts_with (codes "PRIVATE") (c ∷ s) && ends_private (drop 7 (c ∷ s))) || has_private_key s

abbrev pub secret_words : List Text
secret_words = codes "PASSWORD" ∷ codes "TOKEN" ∷ codes "SECRET" ∷ codes "CREDENTIAL" ∷ []

-- `SECRET_KEY.test(key)`
unfoldable pub is_secret_key : Text → Bool
is_secret_key key =
    any (λ w. contains w (ascii_upper key)) secret_words || has_private_key (ascii_upper key)

unfoldable pub keep_field : Bool → Text → Json → Fields → Fields
keep_field true key v rest = rest
keep_field false key v rest = field key v rest

-- `sanitizeProviderSnapshot`
unfoldable mutual
  pub sanitize : Json → Json
  sanitize null = null
  sanitize (boolean b) = boolean b
  sanitize (number n) = number n
  sanitize (string s) = string s
  sanitize (array xs) = array (sanitize_items xs)
  sanitize (object fs) = object (sanitize_fields fs)

  pub sanitize_items : Items → Items
  sanitize_items no_items = no_items
  sanitize_items (item x xs) = item (sanitize x) (sanitize_items xs)

  pub sanitize_fields : Fields → Fields
  sanitize_fields no_fields = no_fields
  sanitize_fields (field key v fs) =
      keep_field (is_secret_key key) key (sanitize v) (sanitize_fields fs)

-- No key at any depth names a secret.
unfoldable mutual
  pub is_clean : Json → Bool
  is_clean null = true
  is_clean (boolean b) = true
  is_clean (number n) = true
  is_clean (string s) = true
  is_clean (array xs) = is_clean_items xs
  is_clean (object fs) = is_clean_fields fs

  pub is_clean_items : Items → Bool
  is_clean_items no_items = true
  is_clean_items (item x xs) = is_clean x && is_clean_items xs

  pub is_clean_fields : Fields → Bool
  is_clean_fields no_fields = true
  is_clean_fields (field key v fs) = not (is_secret_key key) && is_clean v && is_clean_fields fs

-- The property of a payload, whose names are different.
unfoldable pub get : Text → Fields → Option Json
get key no_fields = none
get key (field k v fs) = if text_eq k key then some v else get key fs

abbrev pub property : Text → Json → Option Json
property key (object fs) = get key fs
property key _ = none

abbrev pub printed : Option Json → Option Text
printed (some (string s)) = some s
printed (some (number n)) = some n
printed _ = none

abbrev pub first_of : List (Option Text) → Option Text
first_of [] = none
first_of (none ∷ rest) = first_of rest
first_of (some t ∷ rest) = some t

-- `identity`, where an empty text is falsy for its caller.
unfoldable pub identity : Json → Option Text
identity j = first_of (
    printed (property (codes "uuid") j)
    ∷ printed (property (codes "id") j)
    ∷ printed (property (codes "deployment_uuid") j)
    ∷ [])

abbrev pub present_identity : Option Text → Option Text
present_identity (some (c ∷ s)) = some (c ∷ s)
present_identity _ = none

-- `typeof item.status === 'string' ? item.status : null`
abbrev pub as_string : Option Json → Option Text
as_string (some (string s)) = some s
as_string _ = none

abbrev pub names_any : List Text → Text → Bool
names_any words s = any (λ w. contains w s) words

-- `providerWorkspaceResourceStatus`
unfoldable pub provider_workspace_resource_status : Text → ResourceStatus
provider_workspace_resource_status status =
    let normalized = to_lower (trim status) in
    if names_any
      (codes "unhealthy"
        ∷ codes "failed"
        ∷ codes "failure"
        ∷ codes "dead"
        ∷ codes "error"
        ∷ codes "cancel"
        ∷ [])
      normalized
    then ResourceStatus.failed
    else (if names_any
          (codes "starting"
            ∷ codes "restarting"
            ∷ codes "building"
            ∷ codes "queued"
            ∷ codes "pending"
            ∷ codes "deploying"
            ∷ [])
          normalized
        then ResourceStatus.provisioning
        else (if names_any
              (codes "running" ∷ codes "healthy" ∷ codes "finished" ∷ codes "success" ∷ [])
              normalized
            then ResourceStatus.running
            else (if names_any
                  (codes "stopped" ∷ codes "exited" ∷ codes "paused" ∷ codes "inactive" ∷ [])
                  normalized
                then ResourceStatus.stopped
                else ResourceStatus.unknown)))
