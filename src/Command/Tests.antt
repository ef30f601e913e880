-- ===== src/Command/Tests.antt =====
-- The command service on one device (id 3, organization 5, token 7).
use iotaps.Common.{ℕ, ◌≡◌, ◌⊎◌, refl, true, false, none, some, [], ◌∷◌, arith, if◌then◌else◌, ◌==◌}
use iotaps.Common.Store.{empty, put}
use iotaps.Common.Exec.{err}
use iotaps.Command.Status.{CommandStatus, is_terminal}
use iotaps.Command.Lifecycle.{Advances}
use iotaps.Command.World.{
  Saved, queue_works, lapse, World, Env, CommandError, load_record, with_status, token_topic,
}
use iotaps.Command.Service.{
  TenantScope, issue_command, confirm_command, flush_queued_commands, new_record, queue_device,
  validate_command, owned_device, advanced,
}
use iotaps.Command.Evolution.{IsFiled}
use iotaps.Command.Reach.{Run, RanOut, Run-Advances, Step, here, next}
use iotaps.Command.Flush.{flush_loses_refused}
use iotaps.Command.Offline.{issue_flush_delivers, issue_flush_drops}

abbrev start : World
start = record {
  records = empty;
  queues = λ d. [];
  queue_ends = empty;
  online = [];
  token_cache = empty;
  credentials = record { token = 7; device_id = 3; revoked = false } ∷ [];
  devices = put 3 5 empty;
  broker = [];
  events = [];
  timers = [];
  audit = [];
}

abbrev calm : ℕ → Env
calm now = record {
  now = now;
  fresh_id = 100;
  accepts = λ t p. true;
  fan_out = true;
  db_up = true;
  queue_calls = queue_works;
}

abbrev owner : TenantScope
owner = record { org_id = 5; bypass = false }

abbrev queued_on : World
queued_on = (issue_command (calm 1) owner 3 "on" none none 0 start).1

-- One stored record.
abbrev stored : CommandStatus → Saved
stored s = record {
  held = record {
    command_id = 100;
    device_id = 3;
    org_id = 5;
    kind = "on";
    value = none;
    target = none;
    status = s;
    created_at = 1;
    updated_at = 1;
  };
  ttl = 3600;
}

abbrev holding : CommandStatus → World
holding s = record start { records = put 100 (stored s) empty }

holding-IsFiled : (s : CommandStatus) → IsFiled (holding s)
unfolding put
holding-IsFiled s id r h = ground arith

start-IsFiled : IsFiled start
start-IsFiled id s h = ground arith

flush_sends_it :
    (flush_queued_commands (calm 2) 7 queued_on).1.broker
    ≡ (token_topic 7, record { command_id = 100; kind = "on"; target = none; value = none }) ∷ []
unfolding flush_queued_commands issue_command put
flush_sends_it = refl

late_ack :
    Run
      (holding CommandStatus.unacknowledged)
      (confirm_command (calm 9) 100 (holding CommandStatus.unacknowledged)).1
late_ack = next here (Step.confirm (calm 9) 100 (holding CommandStatus.unacknowledged))

Run-Advances_example :
    RanOut 100 late_ack
    ⊎ ((s' : Saved) × ((confirm_command
              (calm 9)
              100
              (holding CommandStatus.unacknowledged)).1.records
            100
          ≡ some s')
        × Advances CommandStatus.unacknowledged s'.held.status
        × (is_terminal CommandStatus.unacknowledged ≡ true
            → s'.held.status ≡ CommandStatus.unacknowledged))
unfolding put
Run-Advances_example =
    Run-Advances (holding CommandStatus.unacknowledged)
      (confirm_command (calm 9) 100 (holding CommandStatus.unacknowledged)).1 100
      (stored CommandStatus.unacknowledged) late_ack (holding-IsFiled CommandStatus.unacknowledged)
      refl

abbrev pending : World
pending = record (holding CommandStatus.queued) {
  queues = λ d.
      if d == 3
      then record { command_id = 100; kind = "on"; value = none; target = none } ∷ []
      else [];
}

pending-IsFiled : IsFiled pending
pending-IsFiled = holding-IsFiled CommandStatus.queued

abbrev offline_broker : Env
offline_broker = record (calm 2) { accepts = λ t p. false }

flush_loses_refused_example :
    let (res, w') = flush_queued_commands offline_broker 7 pending in
    (res ≡ err CommandError.publish_failed)
    × (w'.queues 3 ≡ [])
    × (w'.records ≡ pending.records)
    × (w'.broker ≡ [])
unfolding queue_device advanced put
flush_loses_refused_example =
    flush_loses_refused offline_broker 7
      (record { command_id = 100; kind = "on"; value = none; target = none }) []
      (with_status (stored CommandStatus.queued).held CommandStatus.sent 2) pending refl refl refl

-- After two days the flush finds no record, and sends nothing.
too_late : (flush_queued_commands (calm 200000) 7 (lapse 200000 queued_on)).1.broker ≡ []
unfolding flush_queued_commands issue_command put lapse is_terminal
too_late = refl

issue_flush_delivers_example :
    let w'' = (flush_queued_commands (calm 3600) 7 (lapse 3600 queued_on)).1 in
    (load_record 100 w''
      ≡ some (with_status (new_record (calm 1) 3 5 "on" none none false) CommandStatus.sent 3600))
    × (w''.queues 3 ≡ [])
unfolding validate_command owned_device put queue_device issue_command lapse
issue_flush_delivers_example =
    issue_flush_delivers (calm 1) owner 3 5 "on" none none 0 start refl refl refl refl (calm 3600) 7
      start-IsFiled refl (λ t p. refl) (omega arith) refl

issue_flush_drops_example :
    let w'' = (flush_queued_commands (calm 200000) 7 (lapse 200000 queued_on)).1 in
    (load_record 100 w'' ≡ none) × (w''.queues 3 ≡ [])
unfolding validate_command owned_device put queue_device issue_command lapse
issue_flush_drops_example =
    issue_flush_drops (calm 1) owner 3 5 "on" none none 0 start refl refl refl refl (calm 200000) 7
      start-IsFiled refl (λ t p. refl) (omega arith) (omega arith) refl
