-- ===== src/Authentication/Writes.antt =====
-- The writes of requestOtp, resendOtp and verifyOtp of src/controllers/AuthController.ts, in any
-- order: what a request read before its write is part of the write, however long ago it was read.
use qubit_hosting_panel.Common.{
  ℕ, ◌≡◌, Option, none, some, List, [], ◌∷◌, arith, Bool-cases, inl, inr,
}
use qubit_hosting_panel.Common.Text.{Text}
use qubit_hosting_panel.Sessions.{RequestMetadata, Session}
use qubit_hosting_panel.Authentication.Model.{
  User, Customer, Accounts, OtpSettings, Crypto, is_active,
}
use qubit_hosting_panel.Authentication.Codes.{
  RequestOtpInput, Secrets, Fresh, DevelopmentRuntime, with_sessions, with_customers, insert_hashed,
  create_session, ensure_customer,
}
use qubit_hosting_panel.Authentication.Requests.{Sender, request_otp}
use qubit_hosting_panel.Authentication.Resends.{ResendPlan, finish_resend}
use qubit_hosting_panel.Authentication.Verification.{
  Verification, provisioned, authenticate_user, finish_verification,
}

pub data Write : Type 0 where
  write_request :
      DevelopmentRuntime → RequestOtpInput → RequestMetadata → Sender → Fresh → ℕ → Write
  write_resend : ResendPlan → Write
  write_verification : RequestMetadata → Fresh → ℕ → Verification → Write

module _ (k : Crypto) (env : OtpSettings) (secrets : Secrets) where
  unfoldable pub perform_write : Write → Accounts → Accounts
  perform_write (write_request runtime input md send fresh now) acc =
      (request_otp k env secrets runtime input md send fresh now acc).1
  perform_write (write_resend plan) acc = (finish_resend plan acc).1
  perform_write (write_verification md fresh now v) acc =
      (finish_verification k env secrets md fresh now v acc).1

  unfoldable pub perform_writes : List Write → Accounts → Accounts
  perform_writes [] acc = acc
  perform_writes (w ∷ ws) acc = perform_writes ws (perform_write w acc)

-- The challenges and the events are as before.
pub record SameCodes (a b : Accounts) : Type 0 where
  pub challenges : b.challenges ≡ a.challenges
  pub events : b.events ≡ a.events

module _ (k : Crypto) (env : OtpSettings) (secrets : Secrets) where
  with_sessions-SameCodes :
      (acc acc' : Accounts) (o : Option (List Session))
      → with_sessions acc o ≡ some acc'
      → SameCodes acc acc'
  with_sessions-SameCodes acc acc' none h = cc
  with_sessions-SameCodes acc acc' (some rows) h = record {
    challenges = ground arith;
    events = ground arith;
  }

  insert_hashed-SameCodes :
      (md : RequestMetadata) (now id user version : ℕ) (hash : Option Text) (acc acc' : Accounts)
      → insert_hashed k env md now id user version hash acc ≡ some acc'
      → SameCodes acc acc'
  unfolding insert_hashed
  insert_hashed-SameCodes md now id user version none acc acc' h = cc
  insert_hashed-SameCodes md now id user version (some hash) acc acc' h =
      with_sessions-SameCodes acc acc' _ h

  pub create_session-SameCodes :
      (md : RequestMetadata) (now : ℕ) (fresh : Fresh) (user version : ℕ) (acc acc' : Accounts)
      → create_session k env secrets md now fresh user version acc ≡ some acc'
      → SameCodes acc acc'
  unfolding create_session
  create_session-SameCodes md now fresh user version acc acc' h =
      insert_hashed-SameCodes md now fresh.session_id user version _ acc acc' h

  with_customers-SameCodes :
      (acc acc' : Accounts) (o : Option (List Customer))
      → with_customers acc o ≡ some acc'
      → SameCodes acc acc'
  with_customers-SameCodes acc acc' none h = cc
  with_customers-SameCodes acc acc' (some rows) h = record {
    challenges = ground arith;
    events = ground arith;
  }

  pub ensure_customer-SameCodes :
      (id user : ℕ) (acc acc' : Accounts)
      → ensure_customer k env id user acc ≡ some acc'
      → SameCodes acc acc'
  unfolding ensure_customer
  ensure_customer-SameCodes id user acc acc' h = with_customers-SameCodes acc acc' _ h

  provisioned-SameCodes :
      (u u' : User) (acc acc' : Accounts) (o : Option Accounts)
      → ((b : Accounts) → o ≡ some b → SameCodes acc b)
      → provisioned k env secrets u o ≡ some (u', acc')
      → SameCodes acc acc'
  provisioned-SameCodes u u' acc acc' none s h = cc
  provisioned-SameCodes u u' acc acc' (some b) s h =
      let same : b ≡ acc' = ground arith in s acc' (ground arith)

  pub authenticate_user-SameCodes :
      (fresh : Fresh) (now : ℕ) (acc acc' : Accounts) (o : Option (User × List User)) (u' : User)
      → authenticate_user k env secrets fresh now acc o ≡ some (u', acc')
      → SameCodes acc acc'
  unfolding authenticate_user
  authenticate_user-SameCodes fresh now acc acc' none u' h = cc
  authenticate_user-SameCodes fresh now acc acc' (some (u, users)) u' h =
      elim (Bool-cases (is_active u.status)) [
        | inl e ↦
            provisioned-SameCodes u u' acc acc' _
              (λ b g.
                let s = ensure_customer-SameCodes fresh.customer_id u.id _ b g in
                record { challenges = s.challenges; events = s.events })
              (rw e at h)
        | inr e ↦ cc (rw e at h)
      ]
