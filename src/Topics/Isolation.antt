-- ===== src/Topics/Isolation.antt =====
-- What an organization's pattern covers, and what a topic parses to.
use iotaps.Common.{◌≡◌, refl, ap, ◌∙◌, false, some, [], ◌∷◌, ◌++◌, arith}
use iotaps.Common.Text.{codes, same_codes}
use iotaps.Plans.Quota.{MessageType}
use iotaps.Topics.Topic.{
  Text, slash, topic_root, type_name, topic, org_acl_pattern, split, is_hash, is_plus, match_parts,
  topic_matches_filter, org_can_access, is_empty, message_type_of, parse_parts, parse_topic,
}
use iotaps.Topics.Segments.{has_slash, split-joined, split_whole, split-topic}

split-pattern :
    (org : Text)
    → has_slash org ≡ false
    → split (org_acl_pattern org) ≡ topic_root ∷ org ∷ codes "#" ∷ []
unfolding org_acl_pattern
split-pattern org h =
    split-joined topic_root (org ++ slash ∷ codes "#") refl
    ∙ ap (λ x. topic_root ∷ x)
        (split-joined org (codes "#") h ∙ ap (λ x. org ∷ x) (split_whole (codes "#") refl))

-- A caller of one organization can access a topic exactly if it is its own organization's, for
-- organizations and devices whose ids have no slash, and a caller whose id is no wildcard.
pub org_can_access_lem :
    (org other device : Text) (type : MessageType)
    → has_slash org ≡ false
    → is_hash org ≡ false
    → is_plus org ≡ false
    → has_slash other ≡ false
    → has_slash device ≡ false
    → org_can_access org (topic other device type) ≡ same_codes org other
unfolding org_can_access topic_matches_filter
org_can_access_lem org other device type ho hh hp hother hd =
    rw (split-pattern org ho, split-topic other device type hother hd)
      (unfold match_parts in ground (arith, hh, hp))

named_type : (type : MessageType) → message_type_of (type_name type) ≡ some type
unfolding message_type_of type_name
named_type MessageType.telemetry = refl
named_type MessageType.command = refl
named_type MessageType.ack = refl
named_type MessageType.status = refl

parse_topic-split : (t : Text) → is_empty t ≡ false → parse_topic t ≡ parse_parts (split t)
unfolding parse_topic
parse_topic-split [] h = absurd (ground arith)
parse_topic-split (c ∷ s) h = refl

parse_four :
    (org device : Text) (type : MessageType)
    → is_empty org ≡ false
    → is_empty device ≡ false
    → parse_parts (topic_root ∷ org ∷ device ∷ type_name type ∷ [])
      ≡ some (record { org_id = org; device_id = device; message_type = type })
unfolding parse_parts
parse_four org device type eo ed = rw (eo, ed, named_type type)

-- A topic that is built from ids that are not empty and have no slash parses back into its parts.
pub parse-topic :
    (org device : Text) (type : MessageType)
    → has_slash org ≡ false
    → has_slash device ≡ false
    → is_empty org ≡ false
    → is_empty device ≡ false
    → parse_topic (topic org device type)
      ≡ some (record { org_id = org; device_id = device; message_type = type })
parse-topic org device type ho hd eo ed =
    parse_topic-split (topic org device type) (unfold topic in refl)
    ∙ ap parse_parts (split-topic org device type ho hd)
    ∙ parse_four org device type eo ed
