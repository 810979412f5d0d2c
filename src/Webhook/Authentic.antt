-- ===== src/Webhook/Authentic.antt =====
-- Who may send a notification.
use qubit_hosting_panel.Common.{
  ℕ, ◌≡◌, ◌≢◌, refl, sym, ap, if◌then◌else◌, inl, inr, true, not, ◌&&◌, Option, none, some, [],
  arith, or_else, Bool-cases,
}
use qubit_hosting_panel.Common.Text.{Text, text_eq_sound, is_empty}
use qubit_hosting_panel.Provisioning.Model.{Resource, Build, Db}
use qubit_hosting_panel.Webhook.{
  CoolifyWebhookRequest, is_test, WebhookResponse, valid_secret, is_authentic, find_application,
  reconcile_event, receive_application, receive,
}

valid_secret_sound : (s t : Text) → valid_secret s t ≡ true → s ≡ t
unfolding valid_secret
valid_secret_sound s t h = text_eq_sound s t (ground arith)

reconcile-not_refused :
    (now : ℕ) (q : CoolifyWebhookRequest) (o : Option (Build × Resource)) (db : Db)
    → (reconcile_event now q o db).0 ≢ WebhookResponse.not_found
unfolding reconcile_event
reconcile-not_refused now q none db h = cc
reconcile-not_refused now q (some (b, r)) db h = cc

not_refused :
    (now : ℕ) (q : CoolifyWebhookRequest) (db : Db)
    → (if is_test q.event
        then (WebhookResponse.verified, db)
        else receive_application now q q.application_uuid db).0
      ≢ WebhookResponse.not_found
unfolding receive_application
not_refused now q db h = elim (Bool-cases (is_test q.event)) [
  | inl e ↦ absurd (let g = rw e at h in cc)
  | inr e ↦ by_application q.application_uuid (rw e at h)
]
  where
    by_application :
        (uuid : Option Text) → (receive_application now q uuid db).0 ≢ WebhookResponse.not_found
    by_application none g = cc
    by_application (some u) g =
        reconcile-not_refused now q (find_application u db.builds db.resources) db g

-- Without the configured secret a notification is answered as an unknown address and changes nothing;
-- any other answer shows that a secret is configured and that the caller sent exactly it.
pub receive-authentic :
    (expected actual : Option Text) (now : ℕ) (q : CoolifyWebhookRequest) (db : Db)
    → ((receive expected actual now q db).0 ≡ WebhookResponse.not_found
        → (receive expected actual now q db).1 ≡ db)
      × ((receive expected actual now q db).0 ≢ WebhookResponse.not_found
          → expected ≡ some (or_else actual []))
unfolding receive is_authentic
receive-authentic none actual now q db = (λ _. refl, λ n. absurd (n refl))
receive-authentic (some e) actual now q db =
    elim (Bool-cases (not (is_empty e) && valid_secret (or_else actual []) e)) [
      | inl good ↦
          let same : e ≡ or_else actual [] =
            sym (valid_secret_sound (or_else actual []) e (ground arith)) in
          (rw good (λ h. absurd (not_refused now q db h)), λ _. ap (λ x. some x) same)
      | inr bad ↦ (rw bad (λ _. refl), λ n. absurd (n (rw bad refl)))
    ]
