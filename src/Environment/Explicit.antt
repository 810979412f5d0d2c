-- ===== src/Environment/Explicit.antt =====
-- What becomes of the variables that the customer wrote.
use qubit_hosting_panel.Common.{
  ◌≡◌, refl, inl, inr, true, false, ◌&&◌, Option, none, some, List, [], ◌∷◌, arith, Pointwise,
  Pointwise-refl, Bool-cases, map,
}
use qubit_hosting_panel.Common.Text.{Text}
use qubit_hosting_panel.Environment.{
  FrameworkDatabaseConnection, Variable, is_database_connection_environment_key, blank,
  fill_variable, database_connection_url, resolve_managed_database_environment_variables,
  single_connection,
}

-- A variable before and after the resolution, with the URL that may be filled in.
pub record Resolves (url : Option Text) (v w : Variable) : Type 0 where
  pub key : w.key ≡ v.key
  pub scope : w.scope ≡ v.scope
  pub explicit : blank v ≡ false → w ≡ v
  pub ordinary : is_database_connection_environment_key v.key ≡ false → w ≡ v
  pub filled :
      blank v ≡ true
      → is_database_connection_environment_key v.key ≡ true
      → (u : Text) → url ≡ some u
      → w.value ≡ u

abbrev pub url_of : (Text → Text) → Option FrameworkDatabaseConnection → Option Text
url_of encode none = none
url_of encode (some c) = some (database_connection_url encode c)

fill_variable-Resolves : (url : Text) (v : Variable) → Resolves (some url) v (fill_variable url v)
unfolding fill_variable
fill_variable-Resolves url v =
    elim (Bool-cases (blank v && is_database_connection_environment_key v.key)) [
      | inl e ↦ rw e (record {
        key = refl;
        scope = refl;
        explicit = λ n. absurd (ground arith);
        ordinary = λ n. absurd (ground arith);
        filled = λ b k u h. cc;
      })
      | inr e ↦ rw e (record {
        key = refl;
        scope = refl;
        explicit = λ n. refl;
        ordinary = λ n. refl;
        filled = λ b k u h. absurd (ground arith);
      })
    ]

map-Resolves :
    (url : Text) (vs : List Variable)
    → Pointwise (Resolves (some url)) vs (map (fill_variable url) vs)
map-Resolves url [] = tt
map-Resolves url (v ∷ vs) = (fill_variable-Resolves url v, map-Resolves url vs)

connection-Resolves :
    (encode : Text → Text) (vs : List Variable) (o : Option FrameworkDatabaseConnection)
    → Pointwise
        (Resolves (url_of encode o))
        vs
        (resolve_managed_database_environment_variables encode vs o)
unfolding resolve_managed_database_environment_variables
connection-Resolves encode vs none =
    Pointwise-refl (Resolves none)
      (λ v. record {
        key = refl;
        scope = refl;
        explicit = λ n. refl;
        ordinary = λ n. refl;
        filled = λ b k u h. cc;
      })
      vs
connection-Resolves encode vs (some c) = map-Resolves (database_connection_url encode c) vs

-- Of the variables that a customer configured, each keeps its key and scope; a value that is not blank
-- and a value under an ordinary key stay as they are; and a blank value under a conventional
-- connection key becomes the URL exactly where one connection is bound.
pub single_connection-Resolves :
    (encode : Text → Text) (vs : List Variable) (bs : List (Text × FrameworkDatabaseConnection))
    → Pointwise
        (Resolves (url_of encode (single_connection bs)))
        vs
        (resolve_managed_database_environment_variables encode vs (single_connection bs))
single_connection-Resolves encode vs bs = connection-Resolves encode vs (single_connection bs)
