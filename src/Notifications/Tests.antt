-- ===== src/Notifications/Tests.antt =====
-- An alert to a recipient with three channels, one of which is not wired.
use iotaps.Common.{
  ℕ, suc, ◌≡◌, refl, Bool, true, false, not, if◌then◌else◌, Option, none, some, [], ◌∷◌, ltb, leb,
  ◌==◌,
}
use iotaps.Common.Text.{is_word}
use iotaps.Json.{string, Floats, truthy}
use iotaps.Notifications.Channels.{
  Channel, email, in_app, push, Recipient, member, spelled, coerce_channel, coerce_channels, build,
  is_enabled, address_for, is_given, same_channel, is_deliverable, channels_to_deliver,
}
use iotaps.Notifications.Sender.{
  NotificationEvent, DeliveryClients, DeliveryReport, parts, join, lines, compose_text, send, noted,
  deliver_over, deliver_to_recipient,
}
use iotaps.Notifications.Reports.{mentions, reported_once}

abbrev whole : Floats ℕ
whole = record {
  gt = λ a b. ltb b a;
  ge = λ a b. leb b a;
  lt = ltb;
  le = leb;
  eq = λ a b. a == b;
  ne = λ a b. not (a == b);
  nought = 0;
  clamp = λ a. a;
  thousandth = λ a. a;
  show_number = λ a. "0";
  show_object = λ fs. "{}";
}

abbrev hot : NotificationEvent ℕ
hot = record {
  org_id = "7";
  title = string "Hot";
  body = string "40 degrees";
  device_id = none;
  rule_id = none;
}

abbrev reader : Recipient
reader = record {
  user_id = "1";
  enabled_channels = email ∷ push ∷ in_app ∷ [];
  telegram_chat_id = some "3";
  email = some "user@example.org";
  push_token = some "token";
}

-- Calls are counted; a push fails.
abbrev clients : DeliveryClients ℕ ℕ
clients = record {
  send_telegram = none;
  send_email = some (λ to subject body w. (true, suc w));
  send_push = some (λ token title body w. (false, suc w));
}

abbrev saved : Option (NotificationEvent ℕ → Recipient → ℕ → Bool × ℕ)
saved = some (λ event r w. (true, suc w))

two_of_three :
    deliver_to_recipient whole clients saved hot reader 0
    ≡ some (record { delivered = email ∷ in_app ∷ []; failed = push ∷ [] }, 3)
unfolding deliver_to_recipient compose_text parts truthy join lines channels_to_deliver
    is_deliverable is_enabled address_for is_given same_channel deliver_over send noted
two_of_three = refl

preferences_are_coerced :
    (build "1"
      (spelled " Email" ∷ spelled "fax" ∷ member push ∷ [])
      none
      none
      none).enabled_channels
    ≡ email ∷ push ∷ []
unfolding build coerce_channels coerce_channel is_word
preferences_are_coerced = refl

reported_once_example :
    (report : DeliveryReport) × (w : ℕ) × (deliver_to_recipient whole clients saved hot reader 0
      ≡ some (report, w))
    × ((ch : Channel) → mentions ch report ≡ (if is_deliverable reader ch then 1 else 0))
unfolding compose_text parts truthy join lines
reported_once_example = reported_once whole clients saved hot reader "Hot\n40 degrees" 0 refl
