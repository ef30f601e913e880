-- ===== src/Notifications/Channels.antt =====
-- The channels of app/workers/notification_sender.py, and which of them reach a recipient.
use text.Mathlib.Text.{◌==◌ as str_eq}
use iotaps.Common.{
  String, Bool, true, false, not, ◌&&◌, ◌||◌, Option, none, some, List, [], ◌∷◌, if◌then◌else◌,
}
use iotaps.Common.Rows.{keep}
use iotaps.Common.Text.{is_word}

pub data Channel : Type 0 where
  telegram email push in_app : Channel

unfoldable pub same_channel : Channel → Channel → Bool
same_channel telegram telegram = true
same_channel telegram email = false
same_channel telegram push = false
same_channel telegram in_app = false
same_channel email telegram = false
same_channel email email = true
same_channel email push = false
same_channel email in_app = false
same_channel push telegram = false
same_channel push email = false
same_channel push push = true
same_channel push in_app = false
same_channel in_app telegram = false
same_channel in_app email = false
same_channel in_app push = false
same_channel in_app in_app = true

abbrev pub channel_order : List Channel
channel_order = telegram ∷ email ∷ push ∷ in_app ∷ []

-- A channel as a preference names it: a member of the enum, or another value by its text.
pub data Named : Type 0 where
  member : Channel → Named
  spelled : String → Named

unfoldable pub coerce_channel : Named → Option Channel
coerce_channel (member ch) = some ch
coerce_channel (spelled s) =
    if is_word s "telegram"
    then some telegram
    else if is_word s "email"
    then some email
    else if is_word s "push"
    then some push
    else if is_word s "in_app"
    then some in_app
    else none

-- `ch in channels`
unfoldable pub is_enabled : Channel → List Channel → Bool
is_enabled ch [] = false
is_enabled ch (x ∷ xs) = same_channel ch x || is_enabled ch xs

-- `enabled_channels` is only asked for its members.
pub record Recipient : Type 0 where
  pub user_id : String
  pub enabled_channels : List Channel
  pub telegram_chat_id : Option String
  pub email : Option String
  pub push_token : Option String

unfoldable pub coerce_channels : List Named → List Channel
unfolding coerce_channel
coerce_channels [] = []
coerce_channels (c ∷ cs) =
    let rest = coerce_channels cs in elim (coerce_channel c) [ none ↦ rest | some ch ↦ ch ∷ rest ]

unfoldable pub build : String → List Named → (chat address token : Option String) → Recipient
unfolding coerce_channels
build user_id channels chat address token = record {
  user_id = user_id;
  enabled_channels = coerce_channels channels;
  telegram_chat_id = chat;
  email = address;
  push_token = token;
}

unfoldable pub address_for : Recipient → Channel → Option String
address_for r telegram = r.telegram_chat_id
address_for r email = r.email
address_for r push = r.push_token
address_for r in_app = some r.user_id

-- `bool(value)` of a text that may be missing.
unfoldable pub is_given : Option String → Bool
is_given none = false
is_given (some s) = not (str_eq s "")

unfoldable pub is_deliverable : Recipient → Channel → Bool
unfolding is_enabled address_for is_given
is_deliverable r ch = is_enabled ch r.enabled_channels && is_given (address_for r ch)

unfoldable pub channels_to_deliver : Recipient → List Channel
unfolding is_deliverable
channels_to_deliver r = keep (is_deliverable r) channel_order
