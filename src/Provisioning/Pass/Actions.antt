-- ===== src/Provisioning/Pass/Actions.antt =====
-- The state of a pass, the exceptions that end it, and what the outside answers to it.
use qubit_hosting_panel.Common.{ℕ, ◌≡◌, refl, Option, [], ◌∷◌, ◌++◌}
use qubit_hosting_panel.Common.Text.{Text, codes}
use qubit_hosting_panel.Provisioning.Model.{ProviderJobStatus, Effect, Db}

-- `error instanceof Error`, with its message, or anything else.
pub data Thrown : Type 0 where
  an_error : Text → Thrown
  a_value : Thrown

abbrev pub message_of : Thrown → Text
message_of (an_error m) = m
message_of a_value = codes "Unknown provisioning error."

pub data Reply (A : Type 0) : Type 0 where
  ok : A → Reply A
  threw : Thrown → Reply A

pub data Outcome (A : Type 0) : Type 0 where
  done : A → Outcome A
  failed : Thrown → Outcome A
  -- `TerminalProvisioningError`
  gave_up : Text → Outcome A

abbrev pub Work : Type 0 → Type 0
Work A = Db → Outcome A × Db

abbrev continue : {A B : Type 0} → Outcome A → (A → Work B) → Work B
continue (done x) f db = f x db
continue (failed t) f db = (failed t, db)
continue (gave_up m) f db = (gave_up m, db)

infixl 10 ◌>>=◌ ◌>>◌
-- What an action wrote before it threw stays written.
abbrev pub ◌>>=◌ : {A B : Type 0} → Work A → (A → Work B) → Work B
◌>>=◌ m f db = continue (m db).0 f (m db).1

abbrev pub ◌>>◌ : {A B : Type 0} → Work A → Work B → Work B
m >> n = m >>= λ _. n

abbrev pub pure : {A : Type 0} → A → Work A
pure x db = (done x, db)

abbrev pub ask : {A : Type 0} → Reply A → Work A
ask (ok x) db = (done x, db)
ask (threw t) db = (failed t, db)

abbrev pub change : (Db → Db) → Work (Unit {0})
change f db = (done tt, f db)

abbrev pub give_up : {A : Type 0} → Work A
give_up db = (gave_up (codes "The provider reports that deployment failed."), db)

abbrev pub emit : Effect → Work (Unit {0})
emit e db = (done tt, record db { effects = db.effects ++ e ∷ [] })

-- `ProviderJob`
pub record ProviderJob : Type 0 where
  pub id : Text
  pub public_url : Option Text
  pub status : ProviderJobStatus

-- What one round of the worker gets from outside: the time, the writes of other processes between
-- the select and the update, the answers of the credential store and of the provider, the id of a
-- new row, and the text of an identifier.
pub record Answers : Type 0 where
  pub now : ℕ
  pub meanwhile : Db → Db
  pub connect : Reply (Unit {0})
  pub bindings : Reply (Unit {0})
  pub variables : Reply (Unit {0})
  pub submitted : Reply ProviderJob
  pub polled : Reply ProviderJobStatus
  pub new_id : ℕ
  pub uuid : ℕ → Text

module _ {ℓ} {A B : Type 0} (P : Db → Type ℓ) (f : A → Work B) where
  continue-keeps :
      (o : Outcome A) (db : Db)
      → P db
      → ((x : A) → o ≡ done x → P (f x db).1)
      → P (continue o f db).1
  continue-keeps (done x) db h k = k x refl
  continue-keeps (failed t) db h k = h
  continue-keeps (gave_up m) db h k = h

  -- What an action keeps, and what follows its value keeps, the two in a row keep.
  pub bind-keeps :
      (m : Work A) (db : Db)
      → P (m db).1
      → ((x : A) → (m db).0 ≡ done x → P (f x (m db).1).1)
      → P ((m >>= f) db).1
  bind-keeps m db h k = continue-keeps (m db).0 (m db).1 h k
