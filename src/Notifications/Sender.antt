-- ===== src/Notifications/Sender.antt =====
-- `deliver_to_recipient` and `process_event` of app/workers/notification_sender.py. The senders and
-- the writer of the in-app row are parameters over a state of theirs: a call answers whether it
-- returned, and false where it raised.
use Prim.Native.String.{◌++◌ as concat}
use iotaps.Common.{
  ℕ, ◌+◌, String, Bool, true, false, Option, none, some, List, [], ◌∷◌, ◌++◌, if◌then◌else◌, length,
}
use iotaps.Json.{Value, null, boolean, number, string, array, object, Floats, truthy, or_else}
use iotaps.Notifications.Channels.{
  Channel, telegram, email, push, in_app, Recipient, channels_to_deliver,
}

-- `title` and `body` are whatever the JSON gives.
pub record NotificationEvent (N : Type 0) : Type 0 where
  pub org_id : String
  pub title : Value N
  pub body : Value N
  pub device_id : Option String
  pub rule_id : Option String

-- The parts that `str.join` is given, which raises where one is no text.
unfoldable pub join : {N : Type 0} → List (Value N) → Option (List String)
join [] = some []
join (string s ∷ rest) = elim (join rest) [ none ↦ none | some parts ↦ some (s ∷ parts) ]
join (null ∷ rest) = none
join (boolean b ∷ rest) = none
join (number n ∷ rest) = none
join (array s ∷ rest) = none
join (object fs ∷ rest) = none

-- The parts with a line break between each two.
unfoldable pub lines : List String → String
lines [] = ""
lines (s ∷ []) = s
lines (s ∷ t ∷ rest) = concat s (concat "\n" (lines (t ∷ rest)))

pub record DeliveryClients (N W : Type 0) : Type 0 where
  pub send_telegram : Option (String → String → W → Bool × W)
  pub send_email : Option (String → Value N → Value N → W → Bool × W)
  pub send_push : Option (String → Value N → Value N → W → Bool × W)

pub record DeliveryReport : Type 0 where
  pub delivered : List Channel
  pub failed : List Channel

abbrev pub empty_report : DeliveryReport
empty_report = record { delivered = []; failed = [] }

-- `value or ""`
unfoldable pub or_blank : Option String → String
or_blank none = ""
or_blank (some s) = s

unfoldable pub noted : Bool → Channel → DeliveryReport → DeliveryReport
noted true ch report = record report { delivered = report.delivered ++ (ch ∷ []) }
noted false ch report = record report { failed = report.failed ++ (ch ∷ []) }

module _ {N : Type 0} (floats : Floats N) where
  unfoldable pub parts : NotificationEvent N → List (Value N)
  parts event =
      (if truthy floats event.title then event.title ∷ [] else [])
      ++ (if truthy floats event.body then event.body ∷ [] else [])

  -- Nothing where the title or the body is no text.
  unfoldable pub compose_text : NotificationEvent N → Option String
  unfolding parts join lines
  compose_text event = elim (join (parts event)) [ none ↦ none | some ps ↦ some (lines ps) ]

  module _ {W : Type 0} (clients : DeliveryClients N W)
      (persist_in_app : Option (NotificationEvent N → Recipient → W → Bool × W)) where
    -- The body of the `try`: an unwired channel raises.
    unfoldable pub send : NotificationEvent N → Recipient → String → Channel → W → Bool × W
    unfolding or_blank
    send event r text telegram w = elim clients.send_telegram [
      | none ↦ (false, w)
      | some f ↦ f (or_blank r.telegram_chat_id) text w
    ]
    send event r text email w = elim clients.send_email [
      | none ↦ (false, w)
      | some f ↦
          f (or_blank r.email) (or_else floats event.title (string ""))
            (or_else floats event.body (string "")) w
    ]
    send event r text push w = elim clients.send_push [
      | none ↦ (false, w)
      | some f ↦
          f (or_blank r.push_token) (or_else floats event.title (string ""))
            (or_else floats event.body (string "")) w
    ]
    send event r text in_app w = elim persist_in_app [
      | none ↦ (false, w)
      | some persist ↦ persist event r w
    ]

    unfoldable pub deliver_over :
        NotificationEvent N
        → Recipient
        → String
        → List Channel
        → DeliveryReport
        → W
        → DeliveryReport × W
    unfolding send noted
    deliver_over event r text [] report w = (report, w)
    deliver_over event r text (ch ∷ rest) report w =
        let (sent, w') = send event r text ch w in
        deliver_over event r text rest (noted sent ch report) w'

    -- Nothing where it raises, before anything is sent.
    unfoldable pub deliver_to_recipient :
        NotificationEvent N → Recipient → W → Option (DeliveryReport × W)
    unfolding compose_text deliver_over channels_to_deliver
    deliver_to_recipient event r w = elim (compose_text event) [
      | none ↦ none
      | some text ↦ some (deliver_over event r text (channels_to_deliver r) empty_report w)
    ]

    -- The number of channels delivered, if no recipient raises, and the state that is left.
    unfoldable pub process_from : NotificationEvent N → List Recipient → ℕ → W → Option ℕ × W
    unfolding deliver_to_recipient
    process_from event [] total w = (some total, w)
    process_from event (r ∷ rest) total w = elim (deliver_to_recipient event r w) [
      | none ↦ (none, w)
      | some (report, w') ↦ process_from event rest (total + length report.delivered) w'
    ]

    unfoldable pub process_event : NotificationEvent N → List Recipient → W → Option ℕ × W
    unfolding process_from
    process_event event recipients w = process_from event recipients 0 w
