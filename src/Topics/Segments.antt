-- ===== src/Topics/Segments.antt =====
-- What splitting gives of texts that were joined.
use iotaps.Common.{◌≡◌, refl, ap, ◌∙◌, Bool, false, ◌||◌, [], ◌∷◌, ◌++◌, arith, ◌==◌}
use iotaps.Plans.Quota.{MessageType}
use iotaps.Topics.Topic.{Text, slash, topic_root, type_name, topic, split}

abbrev pub has_slash : Text → Bool
has_slash [] = false
has_slash (c ∷ s) = c == slash || has_slash s

pub split-joined :
    (part rest : Text) → has_slash part ≡ false → split (part ++ slash ∷ rest) ≡ part ∷ split rest
unfolding split
split-joined [] rest h = refl
split-joined (c ∷ s) rest h = ground (arith, split-joined s rest)

pub split_whole : (part : Text) → has_slash part ≡ false → split part ≡ part ∷ []
unfolding split
split_whole [] h = refl
split_whole (c ∷ s) h = ground (arith, split_whole s)

pub type-has_slash : (type : MessageType) → has_slash (type_name type) ≡ false
unfolding type_name
type-has_slash MessageType.telemetry = refl
type-has_slash MessageType.command = refl
type-has_slash MessageType.ack = refl
type-has_slash MessageType.status = refl

pub split-topic :
    (org device : Text) (type : MessageType)
    → has_slash org ≡ false
    → has_slash device ≡ false
    → split (topic org device type) ≡ topic_root ∷ org ∷ device ∷ type_name type ∷ []
unfolding topic
split-topic org device type ho hd =
    split-joined topic_root (org ++ slash ∷ (device ++ slash ∷ type_name type)) refl
    ∙ ap (λ x. topic_root ∷ x)
        (split-joined org (device ++ slash ∷ type_name type) ho
          ∙ ap (λ x. org ∷ x)
              (split-joined device (type_name type) hd
                ∙ ap (λ x. device ∷ x) (split_whole (type_name type) (type-has_slash type))))
