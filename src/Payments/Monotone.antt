-- ===== src/Payments/Monotone.antt =====
-- What the results of providers cannot undo.
use qubit_hosting_panel.Common.{
  ℕ, ◌≡◌, refl, ap, ◌∙◌, inl, inr, Bool, true, some, List, [], ◌∷◌, ◌++◌, arith, any, Option-cases,
  Bool-cases, Pointwise, Pointwise-refl, Pointwise-trans,
}
use qubit_hosting_panel.Common.Text.{text_eq_refl}
use qubit_hosting_panel.Common.Table.{Pointwise-update_where}
use qubit_hosting_panel.Payments.{
  PaymentProviderCode, VerifiedPayment, PaymentAttempt, WebhookEvent, Checkout, Payments, same_code,
  is_event, event_key_of, find_attempt, is_verified_attempt, is_purchased, open_attempt,
  open_checkout, set_attempt, set_checkout, record_result, apply_provider_result, accepted,
}

-- A verified attempt and a purchased checkout are final.
pub record KeepsAttempt (a b : PaymentAttempt) : Type 0 where
  pub final : is_verified_attempt a.status ≡ true → b ≡ a

pub record KeepsCheckout (c d : Checkout) : Type 0 where
  pub final : is_purchased c.status ≡ true → d ≡ c

pub record Keeps (s t : Payments) : Type 0 where
  pub attempts : Pointwise KeepsAttempt s.attempts t.attempts
  pub checkouts : Pointwise KeepsCheckout s.checkouts t.checkouts

Keeps-refl : (s : Payments) → Keeps s s
Keeps-refl s = record {
  attempts = Pointwise-refl KeepsAttempt (λ a. record { final = λ _. refl }) s.attempts;
  checkouts = Pointwise-refl KeepsCheckout (λ c. record { final = λ _. refl }) s.checkouts;
}

Keeps-trans : (s t u : Payments) → Keeps s t → Keeps t u → Keeps s u
Keeps-trans s t u f g = record {
  attempts =
      Pointwise-trans KeepsAttempt
        (λ a b c h k. record {
          final = λ e.
              let same = h.final e in
              k.final (ap (λ (x : PaymentAttempt). is_verified_attempt x.status) same ∙ e) ∙ same;
        })
        _ _ _ f.attempts g.attempts;
  checkouts =
      Pointwise-trans KeepsCheckout
        (λ a b c h k. record {
          final = λ e.
              let same = h.final e in
              k.final (ap (λ (x : Checkout). is_purchased x.status) same ∙ e) ∙ same;
        })
        _ _ _ f.checkouts g.checkouts;
}

record_result-Keeps :
    (now : ℕ) (code : PaymentProviderCode) (a : PaymentAttempt) (r : VerifiedPayment) (s : Payments)
    → Keeps s (record_result now code a r s)
unfolding record_result
record_result-Keeps now code a r s = elim (Bool-cases (any (is_event code r) s.events)) [
  | inl e ↦ rw e (Keeps-refl s)
  | inr e ↦ rw e (record {
    attempts =
        Pointwise-update_where KeepsAttempt (open_attempt a.id) (set_attempt now a r) s.attempts
          (λ b o. record { final = λ v. absurd (ground arith) })
          (λ b. record { final = λ _. refl });
    checkouts =
        Pointwise-update_where KeepsCheckout (open_checkout a.checkout_id) (set_checkout now a r)
          s.checkouts (λ c o. record { final = λ v. absurd (ground arith) })
          (λ c. record { final = λ _. refl });
  })
]

pub apply-found :
    (now : ℕ) (code : PaymentProviderCode) (r : VerifiedPayment) (s : Payments) {a : PaymentAttempt}
    → find_attempt code r s ≡ some a
    → apply_provider_result now code r s ≡ (some (accepted a r), record_result now code a r s)
unfolding apply_provider_result
apply-found now code r s e = rw (e, apply_provider_result)

apply-Keeps :
    (now : ℕ) (code : PaymentProviderCode) (r : VerifiedPayment) (s : Payments)
    → Keeps s (apply_provider_result now code r s).1
unfolding apply_provider_result
apply-Keeps now code r s = elim (Option-cases (find_attempt code r s)) [
  | inl e ↦ rw (e, apply_provider_result) (Keeps-refl s)
  | inr (a, e) ↦ rw (e, apply_provider_result) (record_result-Keeps now code a r s)
]

-- A message of a provider, and when it arrives.
pub record Message : Type 0 where
  pub now : ℕ
  pub code : PaymentProviderCode
  pub result : VerifiedPayment

abbrev pub apply_all : List Message → Payments → Payments
apply_all [] s = s
apply_all (m ∷ ms) s = apply_all ms (apply_provider_result m.now m.code m.result s).1

-- Whatever messages arrive, in whatever order and however often, a verified attempt keeps its row and
-- a checkout whose purchase is complete keeps its row.
pub apply_all-Keeps : (ms : List Message) (s : Payments) → Keeps s (apply_all ms s)
apply_all-Keeps [] s = Keeps-refl s
apply_all-Keeps (m ∷ ms) s =
    let t = (apply_provider_result m.now m.code m.result s).1 in
    Keeps-trans s t (apply_all ms t) (apply-Keeps m.now m.code m.result s) (apply_all-Keeps ms t)

any-append_last :
    (p : WebhookEvent → Bool) (es : List WebhookEvent) (e : WebhookEvent)
    → p e ≡ true
    → any p (es ++ e ∷ []) ≡ true
any-append_last p [] e h = rw h
any-append_last p (f ∷ es) e h = ground (arith, any-append_last p es e h)

same_code_refl : (c : PaymentProviderCode) → same_code c c ≡ true
same_code_refl PaymentProviderCode.mock = refl
same_code_refl PaymentProviderCode.payu = refl
same_code_refl PaymentProviderCode.razorpay = refl

recorded :
    (now : ℕ) (code : PaymentProviderCode) (a : PaymentAttempt) (r : VerifiedPayment) (s : Payments)
    → any (is_event code r) (record_result now code a r s).events ≡ true
unfolding record_result
recorded now code a r s = elim (Bool-cases (any (is_event code r) s.events)) [
  | inl e ↦ rw (e, e)
  | inr e ↦ rw e (
      any-append_last (is_event code r) s.events _
        (rw (same_code_refl code, text_eq_refl (event_key_of r))))
]

record_result-seen :
    (now : ℕ) (code : PaymentProviderCode) (a : PaymentAttempt) (r : VerifiedPayment) (s : Payments)
    → any (is_event code r) s.events ≡ true
    → record_result now code a r s ≡ s
unfolding record_result
record_result-seen now code a r s e = rw e

apply-seen :
    (now : ℕ) (code : PaymentProviderCode) (r : VerifiedPayment) (s : Payments)
    → any (is_event code r) s.events ≡ true
    → (apply_provider_result now code r s).1 ≡ s
unfolding apply_provider_result
apply-seen now code r s h = elim (Option-cases (find_attempt code r s)) [
  | inl e ↦ rw (e, apply_provider_result)
  | inr (a, e) ↦ rw (e, apply_provider_result) (record_result-seen now code a r s h)
]

-- A provider's message that was applied to an attempt changes nothing when it is delivered again.
pub apply-apply :
    (now later : ℕ) (code : PaymentProviderCode) (r : VerifiedPayment) (s : Payments)
    (a : PaymentAttempt)
    → find_attempt code r s ≡ some a
    → (apply_provider_result later code r (apply_provider_result now code r s).1).1
      ≡ (apply_provider_result now code r s).1
apply-apply now later code r s a e =
    let t = record_result now code a r s in
    rw (apply-found now code r s e) (apply-seen later code r t (recorded now code a r s))
