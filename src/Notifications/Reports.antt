-- ===== src/Notifications/Reports.antt =====
-- What app/workers/notification_sender.py sends, and to whom.
use iotaps.Common.{
  ℕ, ◌+◌, ◌≡◌, refl, String, Bool, true, false, Option, some, List, [], ◌∷◌, arith, if◌then◌else◌,
  inl, inr, Bool-cases,
}
use iotaps.Common.Rows.{keep, count_where, count_where-append}
use iotaps.Json.{Value, object, Floats, get, show}
use iotaps.Rules.Predicate.{Action}
use iotaps.Rules.Plan.{TelemetryEvent}
use iotaps.Webhooks.Event.{encoded, as_object, is_text, get_or, notify_message}
use iotaps.Webhooks.Policy.{has_key}
use iotaps.Notifications.Channels.{
  Channel, telegram, email, push, in_app, same_channel, channel_order, Recipient, is_deliverable,
  channels_to_deliver, is_given, build, coerce_channel, coerce_channels, is_enabled, address_for,
}
use iotaps.Notifications.Sender.{
  NotificationEvent, DeliveryClients, DeliveryReport, empty_report, noted, compose_text, send,
  deliver_over, deliver_to_recipient, process_event, process_from,
}
use iotaps.Notifications.Events.{
  User, alert_at, parse_alert, loaded_alert, parse_alert_event, load_recipients, recipient_of,
  handle, arrived, run,
}

-- How often a report names a channel.
abbrev pub mentions : Channel → DeliveryReport → ℕ
mentions ch report =
    count_where (same_channel ch) report.delivered + count_where (same_channel ch) report.failed

mentions-noted :
    (sent : Bool) (ch at : Channel) (report : DeliveryReport)
    → mentions ch (noted sent at report)
      ≡ count_where (same_channel ch) (at ∷ []) + mentions ch report
unfolding noted
mentions-noted true ch at report =
    ground (arith, count_where-append (same_channel ch) report.delivered (at ∷ []))
mentions-noted false ch at report =
    ground (arith, count_where-append (same_channel ch) report.failed (at ∷ []))

-- Each channel that has a place in the canonical order has one.
once_in_order :
    (p : Channel → Bool) (ch : Channel)
    → count_where (same_channel ch) (keep p channel_order) ≡ (if p ch then 1 else 0)
unfolding same_channel
once_in_order p telegram = ground arith
once_in_order p email = ground arith
once_in_order p push = ground arith
once_in_order p in_app = ground arith

module _ {N W : Type 0} (floats : Floats N) (clients : DeliveryClients N W)
    (persist : Option (NotificationEvent N → Recipient → W → Bool × W)) where
  mentions-deliver_over :
      (event : NotificationEvent N) (r : Recipient) (text : String) (ch : Channel)
      (channels : List Channel) (report : DeliveryReport) (w : W)
      → mentions ch (deliver_over floats clients persist event r text channels report w).0
        ≡ count_where (same_channel ch) channels + mentions ch report
  unfolding deliver_over
  mentions-deliver_over event r text ch [] report w = ground arith
  mentions-deliver_over event r text ch (at ∷ rest) report w =
      let sent = (send floats clients persist event r text at w).0 in
      let w' = (send floats clients persist event r text at w).1 in
      ground (
        arith,
        mentions-deliver_over event r text ch rest (noted sent at report) w',
        mentions-noted sent ch at report,
      )

  -- An alert whose title and body are texts, where they are given, is reported once for each channel
  -- that the recipient enabled and has an address on, either as delivered or as failed, and for no
  -- other channel, whatever the senders do.
  pub reported_once :
      (event : NotificationEvent N) (r : Recipient) (text : String) (w : W)
      → compose_text floats event ≡ some text
      → (report : DeliveryReport) × (w' : W) × (deliver_to_recipient floats clients persist event r
            w
          ≡ some (report, w'))
        × ((ch : Channel) → mentions ch report ≡ (if is_deliverable r ch then 1 else 0))
  unfolding deliver_to_recipient channels_to_deliver
  reported_once event r text w h =
      let start =
        deliver_over floats clients persist event r text (channels_to_deliver r) empty_report w in
      (
        start.0,
        start.1,
        rw (deliver_to_recipient, h) refl,
        λ ch. ground (
          arith,
          mentions-deliver_over event r text ch (channels_to_deliver r) empty_report w,
          once_in_order (is_deliverable r) ch,
        ),
      )

  -- An alert that the action of a rule publishes carries no organization: where `json.loads` reads
  -- back what was published, it is parsed with an empty organization, has no recipients, and nothing
  -- is sent.
  pub alert_without_recipients :
      (id : ℕ → Value N) (loads : String → Option (Value N)) (uuid : String → Option ℕ)
      (show_id : ℕ → String) (users : List User) (action : Action N) (sample : TelemetryEvent N)
      (message : String) (w : W)
      → loads message ≡ some (object (notify_message floats id action sample))
      → (event : NotificationEvent N) × (parse_alert_event floats loads "" (encoded message)
          ≡ some event)
        × (load_recipients uuid show_id users event ≡ some [])
        × (run floats clients persist (load_recipients uuid show_id users) (arrived event ∷ []) w
            ≡ w)
  unfolding parse_alert_event loaded_alert parse_alert alert_at notify_message load_recipients run
      handle process_event process_from show get_or has_key is_text as_object get is_given
  alert_without_recipients id loads uuid show_id users action sample message w read =
      rw read (_, refl, refl, refl)

-- A recipient of the deployed worker gets an alert by email, where the user has an address, and in the
-- application: no user is loaded with an address on the other channels.
pub loaded_channels :
    (show_id : ℕ → String) (user : User)
    → is_given (some (show_id user.id)) ≡ true
    → channels_to_deliver (recipient_of show_id user)
      ≡ (if is_given user.email then email ∷ in_app ∷ [] else in_app ∷ [])
unfolding channels_to_deliver is_deliverable recipient_of build coerce_channels coerce_channel
    is_enabled same_channel address_for
loaded_channels show_id user h = elim (Bool-cases (is_given user.email)) [
  | inl e ↦ ground (arith, e, h)
  | inr e ↦ ground (arith, e, h)
]
