-- ===== src/Command/World.antt =====
-- What app/services/command_service.py reads and writes: the records and queues in Redis, the
-- tables of devices and MQTT credentials, the broker, the timers. Identifiers (UUIDs, tokens) are
-- only compared, so they are numbers; a float value is carried along unchanged, as a number.
use iotaps.Common.{
  ℕ, ◌+◌, ltb, ◌==◌, String, Bool, true, false, not, ◌&&◌, Option, none, some, List, [], ◌∷◌, ◌++◌,
  if◌then◌else◌,
}
use iotaps.Common.Store.{Store, put}
use iotaps.Common.Exec.{Result, Exec}
use iotaps.Command.Status.{CommandStatus, is_terminal}

pub record CommandRecord : Type 0 where
  pub command_id : ℕ
  pub device_id : ℕ
  pub org_id : ℕ
  pub kind : String
  pub value : Option ℕ
  pub target : Option String
  pub status : CommandStatus
  pub created_at : ℕ
  pub updated_at : ℕ

-- A record as Redis holds it, with the `ex` that it was set with.
pub record Saved : Type 0 where
  pub held : CommandRecord
  pub ttl : ℕ

-- The JSON pushed to a device's command queue.
pub record QueuedCommand : Type 0 where
  pub command_id : ℕ
  pub kind : String
  pub value : Option ℕ
  pub target : Option String

-- The JSON published to the device.
pub record Payload : Type 0 where
  pub command_id : ℕ
  pub kind : String
  pub target : Option String
  pub value : Option ℕ

-- `token_command_topic` and `command_topic`
pub data Topic : Type 0 where
  token_topic : ℕ → Topic
  device_topic : ℕ → ℕ → Topic

pub record Credential : Type 0 where
  pub token : ℕ
  pub device_id : ℕ
  pub revoked : Bool

pub record StatusEvent : Type 0 where
  pub device_id : ℕ
  pub command_id : ℕ
  pub status : CommandStatus

pub record AuditEntry : Type 0 where
  pub org_id : ℕ
  pub device_id : ℕ
  pub command_id : ℕ
  pub status : CommandStatus

pub record World : Type 0 where
  pub records : Store Saved
  pub queues : ℕ → List QueuedCommand
  -- when a queue runs out
  pub queue_ends : Store ℕ
  pub online : List ℕ
  pub token_cache : Store ℕ
  pub credentials : List Credential
  pub devices : Store ℕ
  pub broker : List (Topic × Payload)
  pub events : List StatusEvent
  pub timers : List (ℕ × ℕ)
  pub audit : List AuditEntry

-- The first of `RPUSH`, `LTRIM` and `EXPIRE` that raises, if one does.
pub data QueueCalls : Type 0 where
  push_raises trim_raises expire_raises queue_works : QueueCalls

-- What one call finds outside: the time, the new id, and which outside calls succeed.
pub record Env : Type 0 where
  pub now : ℕ
  pub fresh_id : ℕ
  -- the publisher accepts a message, or raises
  pub accepts : Topic → Payload → Bool
  -- the best-effort fan-out of status events goes through
  pub fan_out : Bool
  -- the credential lookup of a flush goes through
  pub db_up : Bool
  -- how far the push on the queue gets
  pub queue_calls : QueueCalls

pub data CommandError : Type 0 where
  invalid_command_type missing_command_value not_authorized publish_failed : CommandError
  queue_failed command_not_found : CommandError

abbrev pub M : Type 0 → Type 0
M A = Exec World CommandError A

abbrev text_present : Option String → Bool
text_present none = false
text_present (some String.[]) = false
text_present (some (String.◌∷◌ c s)) = true

-- `_command_mqtt_payload`: an empty target is left out.
unfoldable pub command_mqtt_payload : CommandRecord → Payload
command_mqtt_payload r = record {
  command_id = r.command_id;
  kind = r.kind;
  target = if text_present r.target then r.target else none;
  value = r.value;
}

-- When a record runs out: its `ex` is counted from its last change, which is when it was saved.
unfoldable pub runs_out : Saved → ℕ
runs_out s = s.held.updated_at + s.ttl

unfoldable pub still_held : ℕ → Option Saved → Option Saved
unfolding runs_out
still_held now none = none
still_held now (some s) = if ltb now (runs_out s) then some s else none

unfoldable pub still_queued : ℕ → Option ℕ → List QueuedCommand → List QueuedCommand
still_queued now none q = q
still_queued now (some until) q = if ltb now until then q else []

-- Redis drops the records and the queues whose time is over. A call at a time finds what is left then.
unfoldable pub lapse : ℕ → World → World
unfolding still_held still_queued
lapse now w = record w {
  records = λ id. still_held now (w.records id);
  queues = λ d. still_queued now (w.queue_ends d) (w.queues d);
}

-- `_load_record`, of what Redis still holds.
unfoldable pub load_record : ℕ → World → Option CommandRecord
load_record id w = elim (w.records id) [ none ↦ none | some s ↦ some s.held ]

-- `_save_record`: a finished command is kept an hour, another two days.
unfoldable pub save_record : CommandRecord → World → World
save_record r w = record w {
  records =
      put r.command_id (record { held = r; ttl = if is_terminal r.status then 3600 else 172800 })
        w.records;
}

-- `_with_status`
unfoldable pub with_status : CommandRecord → CommandStatus → ℕ → CommandRecord
with_status r s now = record r { status = s; updated_at = now }

-- `_publish_status_event`: a failure is logged and swallowed.
unfoldable pub publish_status_event : Env → CommandRecord → World → World
publish_status_event env r w =
    if env.fan_out
    then record w {
      events =
          w.events
          ++ record { device_id = r.device_id; command_id = r.command_id; status = r.status } ∷ [];
    }
    else w

-- `publisher(topic, payload)`
unfoldable pub publish : Env → Topic → Payload → M Unit
publish env t p w =
    if env.accepts t p
    then (Result.ok tt, record w { broker = w.broker ++ (t, p) ∷ [] })
    else (Result.err CommandError.publish_failed, w)

-- A live credential by its token, and the token of a device's first live credential.
unfoldable pub device_of_token : ℕ → List Credential → Option ℕ
device_of_token t [] = none
device_of_token t (c ∷ cs) =
    if c.token == t && not c.revoked then some c.device_id else device_of_token t cs

unfoldable pub token_of_device : ℕ → List Credential → Option ℕ
token_of_device d [] = none
token_of_device d (c ∷ cs) =
    if c.device_id == d && not c.revoked then some c.token else token_of_device d cs

-- A queue that is emptied is gone, with its time.
unfoldable pub ends_with : ℕ → List QueuedCommand → Store ℕ → Store ℕ
ends_with d [] ends = λ j. if j == d then none else ends j
ends_with d (q ∷ rest) ends = ends

-- A device's command queue: `RPUSH`/`LTRIM` and `LPOP` act on one key.
unfoldable pub set_queue : ℕ → List QueuedCommand → World → World
unfolding ends_with
set_queue d q w = record w {
  queues = λ j. if j == d then q else w.queues j;
  queue_ends = ends_with d q w.queue_ends;
}
