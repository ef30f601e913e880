-- ===== src/Notifications/Events.antt =====
-- `parse_alert_event`, `_load_recipients` and the loop `run` of app/workers/notification_sender.py.
-- `json.loads` and `uuid.UUID` are parameters that give nothing where they raise.
use iotaps.Common.{ℕ, String, Bool, Option, none, some, List, [], ◌∷◌, if◌then◌else◌, ◌==◌}
use iotaps.Common.Rows.{keep}
use iotaps.Json.{Value, string, Fields, Floats, get, show, or_else}
use iotaps.Webhooks.Event.{Raw, encoded, mapping, other, as_object, is_text, shown, get_or}
use iotaps.Notifications.Channels.{Recipient, email, in_app, member, is_given, build}
use iotaps.Notifications.Sender.{NotificationEvent, DeliveryClients, process_event}

-- The columns of `users` that are read here.
pub record User : Type 0 where
  pub id : ℕ
  pub org_id : ℕ
  pub email : Option String

module _ {N : Type 0} (floats : Floats N) where
  unfoldable pub alert_at : String → Fields N → NotificationEvent N
  alert_at org_id obj = record {
    org_id = show floats (get_or floats "org_id" obj (string org_id));
    title = get "title" obj;
    body = or_else floats (get "message" obj) (get "body" obj);
    device_id = shown floats "device_id" obj;
    rule_id = shown floats "rule_id" obj;
  }

  unfoldable pub parse_alert : String → Fields N → Option (NotificationEvent N)
  unfolding alert_at
  parse_alert org_id obj =
      if is_text "alert" (get "type" obj) then some (alert_at org_id obj) else none

  unfoldable pub loaded_alert : String → Option (Value N) → Option (NotificationEvent N)
  loaded_alert org_id none = none
  loaded_alert org_id (some value) = elim (as_object value) [
    | none ↦ none
    | some obj ↦ parse_alert org_id obj
  ]

  unfoldable pub parse_alert_event :
      (loads : String → Option (Value N)) → String → Raw N → Option (NotificationEvent N)
  unfolding loaded_alert parse_alert
  parse_alert_event loads org_id (encoded s) = loaded_alert org_id (loads s)
  parse_alert_event loads org_id (mapping fs) = parse_alert org_id fs
  parse_alert_event loads org_id other = none

-- In the application always, by email where the user has one.
unfoldable pub recipient_of : (show_id : ℕ → String) → User → Recipient
unfolding is_given build
recipient_of show_id user =
    build (show_id user.id)
      (member in_app ∷ (if is_given user.email then member email ∷ [] else [])) none user.email none

unfoldable pub recipients_of : (show_id : ℕ → String) → List User → List Recipient
unfolding recipient_of
recipients_of show_id [] = []
recipients_of show_id (user ∷ users) = recipient_of show_id user ∷ recipients_of show_id users

module _ (uuid : String → Option ℕ) (show_id : ℕ → String) where
  -- Nothing where the organization is no identifier.
  unfoldable pub load_recipients :
      {N : Type 0} → List User → NotificationEvent N → Option (List Recipient)
  unfolding is_given recipients_of
  load_recipients users event =
      if is_given (some event.org_id)
      then elim (uuid event.org_id) [
        | none ↦ none
        | some org ↦ some (recipients_of show_id (keep (λ user. user.org_id == org) users))
      ]
      else some []

-- What the source answers in one turn of the loop.
pub data Polled (N : Type 0) : Type 0 where
  raised : Polled N
  idle : Polled N
  arrived : NotificationEvent N → Polled N

module _ {N W : Type 0} (floats : Floats N) (clients : DeliveryClients N W)
    (persist_in_app : Option (NotificationEvent N → Recipient → W → Bool × W))
    (load : NotificationEvent N → Option (List Recipient)) where
  -- Whatever raises is caught.
  unfoldable pub handle : NotificationEvent N → W → W
  unfolding process_event
  handle event w = elim (load event) [
    | none ↦ w
    | some recipients ↦ (process_event floats clients persist_in_app event recipients w).1
  ]

  -- One turn after the other, until `stop_event` is set.
  unfoldable pub run : List (Polled N) → W → W
  unfolding handle
  run [] w = w
  run (raised ∷ rest) w = run rest w
  run (idle ∷ rest) w = run rest w
  run (arrived event ∷ rest) w = run rest (handle event w)
