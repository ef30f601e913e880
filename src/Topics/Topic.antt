-- ===== src/Topics/Topic.antt =====
-- Building, splitting, matching and parsing topics.
use iotaps.Common.{
  ℕ, Bool, true, false, not, ◌||◌, ◌&&◌, Option, none, some, List, [], ◌∷◌, ◌++◌, ◌==◌,
  if◌then◌else◌,
}
use iotaps.Common.Text.{codes, same_codes}
pub use iotaps.Common.Text.{Text}
use iotaps.Plans.Quota.{MessageType}

abbrev pub slash : ℕ
slash = 47

abbrev pub topic_root : Text
topic_root = codes "iotaps"

-- `MessageType(…).value`
unfoldable pub type_name : MessageType → Text
type_name MessageType.telemetry = codes "telemetry"
type_name MessageType.command = codes "command"
type_name MessageType.ack = codes "ack"
type_name MessageType.status = codes "status"

unfoldable pub topic : Text → Text → MessageType → Text
topic org device type = topic_root ++ slash ∷ (org ++ slash ∷ (device ++ slash ∷ type_name type))

unfoldable pub token_command_topic : Text → Text
token_command_topic token = topic_root ++ slash ∷ (token ++ slash ∷ type_name MessageType.command)

unfoldable pub org_acl_pattern : Text → Text
org_acl_pattern org = topic_root ++ slash ∷ (org ++ slash ∷ codes "#")

abbrev pub push : ℕ → List Text → List Text
push c [] = (c ∷ []) ∷ []
push c (w ∷ ws) = (c ∷ w) ∷ ws

-- `text.split("/")`
unfoldable pub split : Text → List Text
split [] = [] ∷ []
split (c ∷ s) = let rest = split s in if c == slash then [] ∷ rest else push c rest

abbrev pub is_hash : Text → Bool
is_hash part = same_codes part (codes "#")

abbrev pub is_plus : Text → Bool
is_plus part = same_codes part (codes "+")

-- The loop of `topic_matches_filter` over the parts of the filter.
unfoldable pub match_parts : List Text → List Text → Bool
match_parts [] [] = true
match_parts [] (t ∷ ts) = false
match_parts (f ∷ fs) [] = is_hash f
match_parts (f ∷ fs) (t ∷ ts) =
    let rest = match_parts fs ts in is_hash f || (is_plus f || same_codes f t) && rest

unfoldable pub topic_matches_filter : Text → Text → Bool
topic_matches_filter topic_filter topic = match_parts (split topic_filter) (split topic)

unfoldable pub org_can_access : Text → Text → Bool
org_can_access org topic = topic_matches_filter (org_acl_pattern org) topic

pub record ParsedTopic : Type 0 where
  pub org_id : Text
  pub device_id : Text
  pub message_type : MessageType

-- `MessageType(segment)`
unfoldable pub message_type_of : Text → Option MessageType
message_type_of t =
    if same_codes t (codes "telemetry")
    then some MessageType.telemetry
    else if same_codes t (codes "command")
    then some MessageType.command
    else if same_codes t (codes "ack")
    then some MessageType.ack
    else if same_codes t (codes "status")
    then some MessageType.status
    else none

abbrev pub is_empty : Text → Bool
is_empty [] = true
is_empty (c ∷ s) = false

abbrev pub parsed : Text → Text → Option MessageType → Option ParsedTopic
parsed org device none = none
parsed org device (some type) =
    some (record { org_id = org; device_id = device; message_type = type })

unfoldable pub parse_parts : List Text → Option ParsedTopic
parse_parts (root ∷ token ∷ type ∷ []) =
    if not (same_codes root topic_root) || is_empty token
    then none
    else parsed token token (message_type_of type)
parse_parts (root ∷ org ∷ device ∷ type ∷ []) =
    if not (same_codes root topic_root) || is_empty org || is_empty device
    then none
    else parsed org device (message_type_of type)
parse_parts _ = none

unfoldable pub parse_topic : Text → Option ParsedTopic
parse_topic [] = none
parse_topic (c ∷ s) = parse_parts (split (c ∷ s))
