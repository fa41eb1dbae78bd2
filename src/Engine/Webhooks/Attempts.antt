-- ===== src/Engine/Webhooks/Attempts.antt =====
-- engine/webhooks.py, `_deliver_one`: the attempts of a delivery.
use mathlib.Core.List.{append-nil, append_assoc}
use groupware_migrator.Base.{
  ℕ, ◌≤◌, String, ◌≡◌, refl, sym, ◌∙◌, inl, inr, true, false, some, List, [], ◌∷◌, ◌++◌, map, arith,
  Bool-cases, nat_eq, string_eq, length,
}
use groupware_migrator.State.Schema.{WebhookRow, DeliveryRow}
use groupware_migrator.State.Webhooks.{append_webhook_delivery}
use groupware_migrator.Engine.Webhooks.{
  Answer, status_of, error_of, is_final, attempts, Delivery, deliver_attempt, deliver_from,
  deliver_one,
}

module _ (post : String → ℕ → Answer) (event_type body : String) where
  -- the row that records an attempt
  abbrev pub delivery_row : WebhookRow → ℕ → ℕ → DeliveryRow
  delivery_row hook now n = record {
    webhook_id = hook.id;
    event_type = event_type;
    payload_json = body;
    response_status = some (status_of (post hook.url n));
    error = error_of (post hook.url n);
    attempt = n;
    delivered_at = now;
  }

  -- The attempts are made in order, all but the last have an answer that is not final, and the last of
  -- them has a final answer or is the last that there is.
  pub data AreMade (hook : WebhookRow) : List ℕ → List ℕ → Type 0 where
    nothing_left : AreMade hook [] []
    final_answer :
        (n : ℕ) (rest : List ℕ)
        → is_final (post hook.url n) ≡ true
        → AreMade hook (n ∷ rest) (n ∷ [])
    another :
        (n : ℕ) (rest made : List ℕ)
        → is_final (post hook.url n) ≡ false
        → AreMade hook rest made
        → AreMade hook (n ∷ rest) (n ∷ made)

  deliver_from-AreMade :
      (hook : WebhookRow) (ns : List ℕ) (d : Delivery)
      → (made : List ℕ) × AreMade hook ns made
        × ((deliver_from post event_type body hook ns d).store.webhook_deliveries
            ≡ d.store.webhook_deliveries ++ map (delivery_row hook d.store.clock) made)
  unfolding deliver_from deliver_attempt append_webhook_delivery
  deliver_from-AreMade hook [] d = ([], nothing_left, sym (append-nil d.store.webhook_deliveries))
  deliver_from-AreMade hook (n ∷ rest) d = elim (Bool-cases (is_final (post hook.url n))) [
    | inl e ↦ (n ∷ [], final_answer n rest e, rw e refl)
    | inr e ↦
        let (made, are, rows) =
          deliver_from-AreMade hook rest (deliver_attempt post event_type body hook n d) in
        (
          n ∷ made,
          another n rest made e are,
          rw e (
              rows
              ∙ append_assoc d.store.webhook_deliveries (delivery_row hook d.store.clock n ∷ [])
                  (map (delivery_row hook d.store.clock) made)),
        )
  ]

  -- A delivery makes at least one attempt and at most three, numbered from 1, and writes a row for each: it
  -- goes on after a failure or a status of 500 or more, and stops at any other answer.
  pub deliver_one-AreMade :
      (hook : WebhookRow) (d : Delivery)
      → (made : List ℕ) × AreMade hook attempts made
        × (1 ≤ length made)
        × (length made ≤ 3)
        × ((deliver_one post event_type body hook d).store.webhook_deliveries
            ≡ d.store.webhook_deliveries ++ map (delivery_row hook d.store.clock) made)
  unfolding deliver_one
  deliver_one-AreMade hook d =
      let (made, are, rows) = deliver_from-AreMade hook attempts d in
      (made, are, some_made 1 (2 ∷ 3 ∷ []) made are, few_made attempts made are, rows)
    where
      some_made : (n : ℕ) (rest made : List ℕ) → AreMade hook (n ∷ rest) made → 1 ≤ length made
      some_made n rest made (final_answer _ _ e) = omega arith
      some_made n rest made (another _ _ _ e are) = omega arith

      few_made : (ns made : List ℕ) → AreMade hook ns made → length made ≤ length ns
      few_made _ _ nothing_left = omega arith
      few_made _ _ (final_answer n rest e) = omega arith
      few_made _ _ (another n rest made e are) = omega (arith, few_made rest made are)
