-- ===== src/Engine/Webhooks.antt =====
-- engine/webhooks.py: the delivery of events to webhooks.
pub mod Attempts
use groupware_migrator.Base.{
  ℕ, zero, suc, ◌+◌, String, Bool, false, ◌&&◌, ◌||◌, Option, none, some, List, [], ◌∷◌, ltb, leb,
  if◌then◌else◌,
}
use groupware_migrator.State.Schema.{WebhookRow, Store}
use groupware_migrator.State.Webhooks.{append_webhook_delivery, list_webhooks_for_event}

-- How a POST ends: `urlopen` returns a response, or raises an `HTTPError` with a code, or raises
-- another exception.
pub data Answer : Type 0 where
  response : (status : ℕ) → Answer
  http_error : (code : ℕ) (text : String) → Answer
  failure : (text : String) → Answer

-- `status` and `error` as they are written to the table
abbrev pub status_of : Answer → ℕ
status_of (response status) = status
status_of (http_error code text) = code
status_of (failure text) = 0

abbrev pub error_of : Answer → Option String
error_of (response status) = none
error_of (http_error code text) = some text
error_of (failure text) = some text

-- After an exception that is no `HTTPError` the loop goes on; else it ends at a status of success and at
-- one below 500.
unfoldable pub is_final : Answer → Bool
is_final (response status) = leb 200 status && ltb status 300 || ltb status 500
is_final (http_error code text) = leb 200 code && ltb code 300 || ltb code 500
is_final (failure text) = false

-- `range(1, _MAX_ATTEMPTS + 1)`
abbrev pub attempts : List ℕ
attempts = 1 ∷ 2 ∷ 3 ∷ []

-- `_RETRY_DELAYS[attempt - 1]`
unfoldable pub delay_before : ℕ → ℕ
delay_before zero = 0
delay_before (suc zero) = 0
delay_before (suc (suc zero)) = 5
delay_before (suc (suc (suc n))) = 15

-- what a delivery changes: the tables, and the seconds that its thread has slept
pub record Delivery : Type 0 where
  pub store : Store
  pub slept : ℕ

-- `post url n` is how the n-th request to the address ends; `body` is the JSON text of the envelope.
module _ (post : String → ℕ → Answer) (event_type body : String) where
  unfoldable pub deliver_attempt : WebhookRow → ℕ → Delivery → Delivery
  unfolding delay_before
  deliver_attempt hook attempt d = record {
    store =
        append_webhook_delivery hook.id event_type body (some (status_of (post hook.url attempt)))
          (error_of (post hook.url attempt)) attempt d.store;
    slept = d.slept + delay_before attempt;
  }

  unfoldable pub deliver_from : WebhookRow → List ℕ → Delivery → Delivery
  unfolding deliver_attempt is_final
  deliver_from hook [] d = d
  deliver_from hook (n ∷ rest) d =
      let next = deliver_from hook rest (deliver_attempt hook n d) in
      if is_final (post hook.url n) then deliver_attempt hook n d else next

  unfoldable pub deliver_one : WebhookRow → Delivery → Delivery
  unfolding deliver_from
  deliver_one hook d = deliver_from hook attempts d

  unfoldable pub deliver_all : List WebhookRow → Delivery → Delivery
  unfolding deliver_one
  deliver_all [] d = d
  deliver_all (hook ∷ hooks) d = deliver_all hooks (deliver_one hook d)

  -- `fire`, to the end of the thread that it starts
  unfoldable pub fire : Option String → Store → Delivery
  unfolding deliver_all list_webhooks_for_event
  fire user_id s =
      deliver_all (list_webhooks_for_event event_type user_id s) (record { store = s; slept = 0 })
