-- ===== src/Topics/Tests.antt =====
-- Topics of one device.
use iotaps.Common.{◌≡◌, ◌↔◌, refl, true, false}
use iotaps.Common.Text.{codes}
use iotaps.Plans.Quota.{MessageType}
use iotaps.Topics.Topic.{topic, split, topic_matches_filter, org_can_access}
use iotaps.Topics.Wildcards.{Covers, topic_matches_filter-Covers}
use iotaps.Topics.Isolation.{org_can_access_lem}

org_can_access_lem_example :
    org_can_access (codes "org1") (topic (codes "org2") (codes "dev") MessageType.ack) ≡ false
org_can_access_lem_example =
    org_can_access_lem (codes "org1") (codes "org2") (codes "dev") MessageType.ack refl refl refl
      refl refl

topic_matches_filter-Covers_example :
    (topic_matches_filter (codes "iotaps/+/dev/#") (codes "iotaps/org1/dev/ack/x") ≡ true)
    ↔ Covers (split (codes "iotaps/+/dev/#")) (split (codes "iotaps/org1/dev/ack/x"))
unfolding split
topic_matches_filter-Covers_example =
    topic_matches_filter-Covers (codes "iotaps/+/dev/#") (codes "iotaps/org1/dev/ack/x")
      (refl, (refl, (refl, tt)))
