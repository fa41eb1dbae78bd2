-- ===== src/Engine/Mailer.antt =====
-- engine/mailer.py, `MailDeliveryManager.fire`: to whom a message about a job is sent.
use groupware_migrator.Base.{
  String, Bool, false, ◌&&◌, Option, none, some, if◌then◌else◌, ◌==◌, nat_eq, string_eq,
}
use groupware_migrator.State.Schema.{UserRow, NotificationPrefsRow, Store}
use groupware_migrator.State.Accounts.{get_user_by_id, get_notification_prefs}

-- `_EVENT_TOGGLE`, with `prefs.get(toggle)`: an event of another kind has no toggle.
unfoldable pub wants_mail : String → NotificationPrefsRow → Bool
wants_mail event_type prefs =
    if event_type == "job.completed"
    then prefs.on_completed
    else if event_type == "job.failed"
    then prefs.on_failed
    else if event_type == "job.cancelled"
    then prefs.on_cancelled
    else false

abbrev address_of : Option UserRow → Option String
address_of none = none
address_of (some user) = if user.email == "" then none else some user.email

-- The address to which the thread delivers, if one is started. `is_configured` says whether the
-- environment names a mail server.
unfoldable pub fire : Bool → String → Option String → Store → Option String
unfolding wants_mail
fire is_configured event_type none s = none
fire is_configured event_type (some user_id) s =
    if is_configured && wants_mail event_type (get_notification_prefs user_id s)
    then address_of (get_user_by_id user_id s)
    else none
