-- ===== src/Domain/Workload.antt =====
-- models/domain.py: the inference and the validation of a workload.
use groupware_migrator.Base.{
  ◌||◌, ◌>>◌, String, Bool, true, false, ◌≡◌, refl, ◌↔◌, arith, Result, ok, err, value_error,
  if◌then◌else◌,
}
use groupware_migrator.Domain.Types.{
  SourceProtocol, DestinationProtocol, SourceKind, DestinationKind, WorkloadType, mail, calendar,
  tasks, contacts, notes,
}

-- `source_protocol is SourceProtocol.CARDDAV`, and so on
unfoldable pub is_source : SourceProtocol → SourceKind → Bool
is_source SourceProtocol.imap (SourceKind.known SourceProtocol.imap) = true
is_source SourceProtocol.pop3 (SourceKind.known SourceProtocol.pop3) = true
is_source SourceProtocol.caldav (SourceKind.known SourceProtocol.caldav) = true
is_source SourceProtocol.carddav (SourceKind.known SourceProtocol.carddav) = true
is_source SourceProtocol.msgraph (SourceKind.known SourceProtocol.msgraph) = true
is_source SourceProtocol.ews (SourceKind.known SourceProtocol.ews) = true
is_source _ _ = false

unfoldable pub is_destination : DestinationProtocol → DestinationKind → Bool
is_destination DestinationProtocol.imap (DestinationKind.known DestinationProtocol.imap) = true
is_destination DestinationProtocol.caldav (DestinationKind.known DestinationProtocol.caldav) = true
is_destination DestinationProtocol.carddav (DestinationKind.known DestinationProtocol.carddav) =
    true
is_destination _ _ = false

unfoldable pub infer_workload : SourceKind → DestinationKind → WorkloadType
unfolding is_source is_destination
infer_workload s d =
    if is_source SourceProtocol.carddav s || is_destination DestinationProtocol.carddav d
    then contacts
    else if is_source SourceProtocol.caldav s || is_destination DestinationProtocol.caldav d
    then calendar
    else mail

-- one `if ... raise` of the validation
abbrev require : Bool → String → Result (Unit {0})
require true why = ok tt
require false why = err (value_error why)

-- the branch of each workload, once both protocols are known
validate_known : WorkloadType → SourceKind → DestinationKind → Result (Unit {0})
unfolding is_source is_destination
validate_known mail s d = do
  require
      (is_source SourceProtocol.imap s
        || is_source SourceProtocol.pop3 s
        || is_source SourceProtocol.msgraph s
        || is_source SourceProtocol.ews s)
      "Mail workload requires IMAP, POP3, MS Graph, or EWS source protocol."
  require (is_destination DestinationProtocol.imap d)
      "Mail workload requires IMAP destination protocol."
validate_known calendar s d = do
  require (is_source SourceProtocol.caldav s || is_source SourceProtocol.ews s)
      "Calendar workload requires CalDAV or EWS source protocol."
  require (is_destination DestinationProtocol.caldav d)
      "Calendar workload requires CalDAV destination protocol."
validate_known tasks s d = do
  require (is_source SourceProtocol.caldav s || is_source SourceProtocol.ews s)
      "Tasks workload requires CalDAV or EWS source protocol."
  require (is_destination DestinationProtocol.caldav d)
      "Tasks workload requires CalDAV destination protocol."
validate_known contacts s d = do
  require (is_source SourceProtocol.carddav s || is_source SourceProtocol.ews s)
      "Contacts workload requires CardDAV or EWS source protocol."
  require (is_destination DestinationProtocol.carddav d)
      "Contacts workload requires CardDAV destination protocol."
validate_known notes s d = do
  require (is_source SourceProtocol.caldav s)
      "Notes workload currently expects CalDAV source protocol."
  require (is_destination DestinationProtocol.caldav d)
      "Notes workload currently expects CalDAV destination protocol."

-- A plugin protocol on either side is not validated.
unfoldable pub validate_workload_protocols :
    WorkloadType → SourceKind → DestinationKind → Result (Unit {0})
unfolding validate_known
validate_workload_protocols w (SourceKind.plugin s) d = ok tt
validate_workload_protocols w (SourceKind.known s) (DestinationKind.plugin d) = ok tt
validate_workload_protocols w (SourceKind.known s) (DestinationKind.known d) =
    validate_known w (SourceKind.known s) (DestinationKind.known d)

-- The pairs of protocols between which each kind of data can be migrated.
pub data Supported : WorkloadType → SourceProtocol → DestinationProtocol → Type 0 where
  mail_imap : Supported mail SourceProtocol.imap DestinationProtocol.imap
  mail_pop3 : Supported mail SourceProtocol.pop3 DestinationProtocol.imap
  mail_msgraph : Supported mail SourceProtocol.msgraph DestinationProtocol.imap
  mail_ews : Supported mail SourceProtocol.ews DestinationProtocol.imap
  calendar_caldav : Supported calendar SourceProtocol.caldav DestinationProtocol.caldav
  calendar_ews : Supported calendar SourceProtocol.ews DestinationProtocol.caldav
  tasks_caldav : Supported tasks SourceProtocol.caldav DestinationProtocol.caldav
  tasks_ews : Supported tasks SourceProtocol.ews DestinationProtocol.caldav
  contacts_carddav : Supported contacts SourceProtocol.carddav DestinationProtocol.carddav
  contacts_ews : Supported contacts SourceProtocol.ews DestinationProtocol.carddav
  notes_caldav : Supported notes SourceProtocol.caldav DestinationProtocol.caldav

abbrev Accepts : WorkloadType → SourceProtocol → DestinationProtocol → Type 0
Accepts w s d = validate_workload_protocols w (SourceKind.known s) (DestinationKind.known d) ≡ ok tt

ruleset supported = (
  mail_imap, mail_pop3, mail_msgraph, mail_ews, calendar_caldav, calendar_ews, tasks_caldav,
  tasks_ews, contacts_carddav, contacts_ews, notes_caldav,
)

Accepts→Supported :
    (w : WorkloadType) (s : SourceProtocol) (d : DestinationProtocol)
    → Accepts w s d
    → Supported w s d
unfolding validate_workload_protocols
Accepts→Supported w s d h = grind (arith, supported)

Supported→Accepts :
    {w : WorkloadType} {s : SourceProtocol} {d : DestinationProtocol}
    → Supported w s d
    → Accepts w s d
unfolding validate_workload_protocols
Supported→Accepts mail_imap = refl
Supported→Accepts _ = refl

-- For two known protocols the validation passes exactly on the supported combinations.
pub validate-Supported :
    (w : WorkloadType) (s : SourceProtocol) (d : DestinationProtocol)
    → (validate_workload_protocols w (SourceKind.known s) (DestinationKind.known d) ≡ ok tt)
      ↔ Supported w s d
validate-Supported w s d = (Accepts→Supported w s d, Supported→Accepts)

-- If any workload is accepted between two known protocols, then the inferred workload is accepted too.
pub infer-accepted :
    (w : WorkloadType) (s : SourceProtocol) (d : DestinationProtocol)
    → validate_workload_protocols w (SourceKind.known s) (DestinationKind.known d) ≡ ok tt
    → validate_workload_protocols
        (infer_workload (SourceKind.known s) (DestinationKind.known d))
        (SourceKind.known s)
        (DestinationKind.known d)
      ≡ ok tt
unfolding validate_workload_protocols infer_workload
infer-accepted w s d h = ground arith
