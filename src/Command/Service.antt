-- ===== src/Command/Service.antt =====
-- The operations of app/services/command_service.py over the `World`: `confirm_command`,
-- `expire_command`, the acknowledgement timers, `flush_queued_commands`, and `issue_command` and
-- `get_command` of `CommandService`.
use text.Mathlib.Text.{◌==◌ as str_eq}
use iotaps.Common.{
  ℕ, ◌+◌, ◌-◌, ◌==◌, ltb, String, Bool, true, false, not, ◌&&◌, ◌||◌, Option, none, some, List, [],
  ◌∷◌, ◌++◌, length, drop, contains, if◌then◌else◌,
}
use iotaps.Common.Store.{put}
use iotaps.Common.Exec.{ok, err, pure, raise, gets, modify, or_raise, ◌>>=◌, ◌>>◌}
use iotaps.Command.Status.{CommandStatus, CommandEvent, next_status}
use iotaps.Command.World.{
  CommandRecord, QueuedCommand, QueueCalls, push_raises, trim_raises, expire_raises, queue_works,
  Topic, token_topic, device_topic, World, Env, CommandError, M, command_mqtt_payload, load_record,
  save_record, with_status, publish_status_event, publish, device_of_token, token_of_device,
  set_queue,
}

-- The record after a legal event, and nothing if it is missing or the event is illegal.
unfoldable pub advanced : Env → CommandEvent → ℕ → World → Option CommandRecord
unfolding load_record with_status next_status
advanced env e id w = elim (load_record id w) [
  | none ↦ none
  | some r ↦ elim (next_status (some r.status) e) [
    | none ↦ none
    | some s ↦ some (with_status r s env.now)
  ]
]

-- Save an advanced record and announce it.
unfoldable pub settle : Env → Option CommandRecord → World → Option CommandRecord × World
unfolding save_record publish_status_event
settle env none w = (none, w)
settle env (some r) w = (some r, publish_status_event env r (save_record r w))

unfoldable pub confirm_command : Env → ℕ → World → Option CommandRecord × World
unfolding advanced settle
confirm_command env id w = settle env (advanced env CommandEvent.ack id w) w

unfoldable pub expire_command : Env → ℕ → World → Option CommandRecord × World
unfolding advanced settle
expire_command env id w = settle env (advanced env CommandEvent.timeout id w) w

-- `schedule_ack_timeout`
unfoldable pub schedule_ack_timeout : ℕ → ℕ → World → World
schedule_ack_timeout id seconds w = record w { timers = w.timers ++ (id, seconds) ∷ [] }

-- The queue key of a flush: the device of the token, or the token where there is none.
unfoldable pub queue_device : Env → ℕ → World → ℕ
unfolding device_of_token
queue_device env token w =
    if env.db_up
    then elim (device_of_token token w.credentials) [ none ↦ token | some d ↦ d ]
    else token

-- One popped command: publish it, save it as sent and announce it.
unfoldable pub send_popped : Env → Topic → CommandRecord → M Unit
unfolding publish save_record publish_status_event command_mqtt_payload
send_popped env topic r = do
  publish env topic (command_mqtt_payload r)
  modify (save_record r)
  modify (publish_status_event env r)

-- The `while True: LPOP` of `flush_queued_commands`; the list is what the queue holds.
unfoldable pub flush_from : Env → Topic → ℕ → List QueuedCommand → M (List CommandRecord)
unfolding advanced send_popped set_queue
flush_from env topic d [] = do modify (set_queue d []); pure []
flush_from env topic d (q ∷ rest) = do
  modify (set_queue d rest)
  found ← gets (advanced env CommandEvent.reconnect_flush q.command_id)
  elim found [
    | none ↦ flush_from env topic d rest
    | some r ↦ do send_popped env topic r; later ← flush_from env topic d rest; pure (r ∷ later)
  ]

unfoldable pub flush_queued_commands : Env → ℕ → M (List CommandRecord)
unfolding queue_device flush_from
flush_queued_commands env token w =
    let d = queue_device env token w in flush_from env (token_topic token) d (w.queues d) w

-- `_COMMAND_TYPES`
unfoldable pub is_command_type : String → Bool
is_command_type t = str_eq t "on" || str_eq t "off" || str_eq t "value"

abbrev is_none : Option ℕ → Bool
is_none none = true
is_none (some _) = false

-- The tenant of the caller; a super admin bypasses it.
pub record TenantScope : Type 0 where
  pub org_id : ℕ
  pub bypass : Bool

-- The organization of a device that exists and that the caller's tenant owns.
unfoldable pub owned_device : TenantScope → ℕ → World → Option ℕ
owned_device scope id w = elim (w.devices id) [
  | none ↦ none
  | some org ↦ if scope.bypass || org == scope.org_id then some org else none
]

-- `TenantScope.get(Device, device_id)`, which returns the device's organization.
unfoldable pub scope_get : TenantScope → ℕ → M ℕ
unfolding owned_device
scope_get scope id w = or_raise (owned_device scope id w) CommandError.not_authorized w

-- The topic of an online device: by the cached token, else by its credential's, which is cached.
unfoldable pub resolve_topic : ℕ → ℕ → M Topic
unfolding token_of_device
resolve_topic d org w = elim (w.token_cache d) [
  | some t ↦ (ok (token_topic t), w)
  | none ↦ elim (token_of_device d w.credentials) [
    | some t ↦ (ok (token_topic t), record w { token_cache = put d t w.token_cache })
    | none ↦ (ok (device_topic org d), w)
  ]
]

-- `RPUSH` and `LTRIM -100 -1`: the newest hundred stay.
abbrev pub max_queued : ℕ
max_queued = 100

unfoldable pub keep_newest : ℕ → List QueuedCommand → List QueuedCommand
keep_newest n q = drop (length q - n) q

abbrev pub queue_ttl : ℕ
queue_ttl = 604800

-- Whatever raises, the push is not taken back.
unfoldable pub enqueue_as : QueueCalls → ℕ → QueuedCommand → ℕ → M Unit
unfolding keep_newest set_queue
enqueue_as push_raises d q now w = (err CommandError.queue_failed, w)
enqueue_as trim_raises d q now w =
    (err CommandError.queue_failed, set_queue d (w.queues d ++ q ∷ []) w)
enqueue_as expire_raises d q now w =
    (err CommandError.queue_failed, set_queue d (keep_newest max_queued (w.queues d ++ q ∷ [])) w)
enqueue_as queue_works d q now w = (
  ok tt,
  record (set_queue d (keep_newest max_queued (w.queues d ++ q ∷ [])) w) {
    queue_ends = put d (now + queue_ttl) w.queue_ends;
  },
)

-- The queue entry of a record.
abbrev pub entry : CommandRecord → QueuedCommand
entry r = record { command_id = r.command_id; kind = r.kind; value = r.value; target = r.target }

unfoldable pub enqueue : Env → CommandRecord → M Unit
unfolding enqueue_as
enqueue env r = enqueue_as env.queue_calls r.device_id (entry r) env.now

unfoldable pub deliver_online : Env → ℕ → CommandRecord → M Unit
unfolding resolve_topic publish command_mqtt_payload save_record schedule_ack_timeout
deliver_online env ack_timeout r = do
  topic ← resolve_topic r.device_id r.org_id
  publish env topic (command_mqtt_payload r)
  modify (save_record r)
  modify (if ltb 0 ack_timeout then schedule_ack_timeout r.command_id ack_timeout else λ w. w)

unfoldable pub deliver_offline : Env → CommandRecord → M Unit
unfolding enqueue save_record
deliver_offline env r = do enqueue env r; modify (save_record r)

-- The record that `issue_command` creates.
unfoldable pub new_record : Env → ℕ → ℕ → String → Option ℕ → Option String → Bool → CommandRecord
new_record env d org kind value target online = record {
  command_id = env.fresh_id;
  device_id = d;
  org_id = org;
  kind = kind;
  value = if str_eq kind "value" then value else none;
  target = target;
  status = if online then CommandStatus.sent else CommandStatus.queued;
  created_at = env.now;
  updated_at = env.now;
}

-- `_log_command`, committed with the session.
unfoldable pub log_command : CommandRecord → World → World
log_command r w = record w {
  audit =
      w.audit
      ++ record {
        org_id = r.org_id;
        device_id = r.device_id;
        command_id = r.command_id;
        status = r.status;
      }
        ∷ [];
}

-- The checks on the request: an unknown type, then a value that is missing.
unfoldable pub validate_command : String → Option ℕ → Option CommandError
unfolding is_command_type
validate_command kind value =
    if not (is_command_type kind)
    then some CommandError.invalid_command_type
    else if str_eq kind "value" && is_none value
    then some CommandError.missing_command_value
    else none

abbrev raise_some : Option CommandError → M Unit
raise_some none = pure tt
raise_some (some e) = raise e

unfoldable pub dispatch : Env → ℕ → Bool → CommandRecord → M Unit
unfolding deliver_online deliver_offline
dispatch env ack_timeout true r = deliver_online env ack_timeout r
dispatch env ack_timeout false r = deliver_offline env r

-- The end of `issue_command`: announce, log and return the record.
unfoldable pub finish_issue : Env → CommandRecord → M CommandRecord
unfolding publish_status_event log_command
finish_issue env r = do modify (publish_status_event env r); modify (log_command r); pure r

unfoldable pub issue_command :
    Env → TenantScope → ℕ → String → Option ℕ → Option String → ℕ → M CommandRecord
unfolding validate_command scope_get new_record dispatch finish_issue
issue_command env scope d kind value target ack_timeout = do
  raise_some (validate_command kind value)
  org ← scope_get scope d
  online ← gets (λ w. contains d w.online)
  let r = new_record env d org kind value target online
  dispatch env ack_timeout online r
  finish_issue env r

unfoldable pub get_command : TenantScope → ℕ → ℕ → M CommandRecord
unfolding scope_get load_record
get_command scope d id = do
  org ← scope_get scope d
  found ← gets (load_record id)
  elim found [
    | none ↦ raise CommandError.command_not_found
    | some r ↦ if r.device_id == d then pure r else raise CommandError.command_not_found
  ]
