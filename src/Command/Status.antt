-- ===== src/Command/Status.antt =====
-- The life of a command: `CommandStatus`, `CommandEvent`, `LEGAL_TRANSITIONS` and `next_status` of
-- app/services/command_service.py.
use iotaps.Common.{Bool, true, false, Option, none, some, List, [], ◌∷◌}

pub data CommandStatus : Type 0 where
  sent queued confirmed unacknowledged : CommandStatus

pub data CommandEvent : Type 0 where
  issue_online issue_offline ack timeout reconnect_flush : CommandEvent

-- `TERMINAL_STATUSES`
unfoldable pub is_terminal : CommandStatus → Bool
is_terminal CommandStatus.confirmed = true
is_terminal CommandStatus.unacknowledged = true
is_terminal _ = false

-- The table `LEGAL_TRANSITIONS` and its lookup; `none` as the source is a command not yet issued.
unfoldable pub next_status : Option CommandStatus → CommandEvent → Option CommandStatus
next_status none CommandEvent.issue_online = some CommandStatus.sent
next_status none CommandEvent.issue_offline = some CommandStatus.queued
next_status (some CommandStatus.queued) CommandEvent.reconnect_flush = some CommandStatus.sent
next_status (some CommandStatus.sent) CommandEvent.ack = some CommandStatus.confirmed
next_status (some CommandStatus.sent) CommandEvent.timeout = some CommandStatus.unacknowledged
next_status _ _ = none

-- The events of one command, each applied to the status that the one before it left.
unfoldable pub follow : Option CommandStatus → List CommandEvent → Option CommandStatus
follow current [] = current
follow current (e ∷ es) = elim (next_status current e) [ none ↦ none | some s ↦ follow (some s) es ]
