-- ===== src/State/Webhooks.antt =====
-- engine/state.py: the operations on the `webhooks` and `webhook_deliveries` tables.
use groupware_migrator.Base.{
  ℕ, String, Bool, true, false, ◌&&◌, Option, none, some, List, [], ◌∷◌, ◌++◌, if◌then◌else◌, ◌==◌,
  nat_eq, string_eq, take, find_where, select_where, update_where, any_where, delete_where,
  integrity_error, Result, ok, err, ℤ,
}
use groupware_migrator.State.Schema.{WebhookRow, DeliveryRow, Store}
use groupware_migrator.State.Accounts.{newest_first, safe_limit, member}

abbrev pub webhook_is : String → WebhookRow → Bool
webhook_is webhook_id row = row.id == webhook_id

-- `events or ["job.completed", "job.failed"]`
abbrev pub subscribed : Option (List String) → List String
subscribed none = "job.completed" ∷ "job.failed" ∷ []
subscribed (some []) = "job.completed" ∷ "job.failed" ∷ []
subscribed (some (e ∷ events)) = e ∷ events

unfoldable pub create_webhook :
    String → Option String → String → String → String → Option (List String) → Store → Result Store
create_webhook id user_id label url secret events s =
    if any_where (webhook_is id) s.webhooks
    then err (integrity_error "UNIQUE constraint failed: webhooks.id")
    else ok (record s {
      webhooks =
          s.webhooks
          ++ record {
            id = id;
            user_id = user_id;
            label = label;
            url = url;
            secret = secret;
            events = subscribed events;
            is_active = true;
            created_at = s.clock;
            last_delivery_at = none;
            last_delivery_status = none;
          }
            ∷ [];
    })

unfoldable pub get_webhook : String → Store → Option WebhookRow
get_webhook webhook_id s = find_where (webhook_is webhook_id) s.webhooks

unfoldable pub delete_webhook : String → Store → Store × Bool
delete_webhook webhook_id s = (
  record s { webhooks = delete_where (webhook_is webhook_id) s.webhooks },
  any_where (webhook_is webhook_id) s.webhooks,
)

-- `user_id = ?`, or no condition where no user is given
abbrev pub belongs_to : Option String → Option String → Bool
belongs_to none owner = true
belongs_to (some user_id) none = false
belongs_to (some user_id) (some owner) = owner == user_id

abbrev pub wants : String → Option String → WebhookRow → Bool
wants event_type user_id row =
    row.is_active && belongs_to user_id row.user_id && member event_type row.events

unfoldable pub list_webhooks_for_event : String → Option String → Store → List WebhookRow
list_webhooks_for_event event_type user_id s = select_where (wants event_type user_id) s.webhooks

unfoldable pub append_webhook_delivery :
    String → String → String → Option ℕ → Option String → ℕ → Store → Store
append_webhook_delivery webhook_id event_type payload_json response_status error attempt s =
    record s {
      webhook_deliveries =
          s.webhook_deliveries
          ++ record {
            webhook_id = webhook_id;
            event_type = event_type;
            payload_json = payload_json;
            response_status = response_status;
            error = error;
            attempt = attempt;
            delivered_at = s.clock;
          }
            ∷ [];
      webhooks =
          update_where (webhook_is webhook_id)
            (λ row. record row {
              last_delivery_at = some s.clock;
              last_delivery_status = response_status;
            })
            s.webhooks;
    }

unfoldable pub list_webhook_deliveries : String → ℤ → Store → List DeliveryRow
unfolding newest_first safe_limit
list_webhook_deliveries webhook_id limit s = take (safe_limit limit 200) (
    newest_first
      (select_where (λ (row : DeliveryRow). row.webhook_id == webhook_id) s.webhook_deliveries))
