-- ===== src/Command/Acks.antt =====
-- `confirm_command` and `expire_command`, record by record.
use iotaps.Common.{
  ℕ, ◌≡◌, refl, Bool, true, false, Option, none, some, arith, ◌==◌, if◌then◌else◌, Option-cases,
  inl, inr,
}
use iotaps.Common.Store.{put}
use iotaps.Command.Status.{CommandStatus, CommandEvent, next_status}
use iotaps.Command.World.{
  CommandRecord, World, Env, load_record, save_record, with_status, publish_status_event,
}
use iotaps.Command.Service.{advanced, settle, confirm_command, expire_command}
use iotaps.Command.Evolution.{IsFiled}

abbrev is_sent : CommandStatus → Bool
is_sent CommandStatus.sent = true
is_sent _ = false

-- A sent record with its outcome, and any other as it is.
abbrev pub resolved : CommandStatus → ℕ → Option CommandRecord → Option CommandRecord
resolved s now none = none
resolved s now (some r) = if is_sent r.status then some (with_status r s now) else some r

-- The record that a call returns: the one it changed, and nothing for any other.
abbrev pub answer : CommandStatus → ℕ → Option CommandRecord → Option CommandRecord
answer s now none = none
answer s now (some r) = if is_sent r.status then some (with_status r s now) else none

advanced-ack :
    (env : Env) (id : ℕ) (w : World)
    → advanced env CommandEvent.ack id w ≡ answer CommandStatus.confirmed env.now (load_record id w)
unfolding advanced next_status load_record
advanced-ack env id w = ground arith

advanced-timeout :
    (env : Env) (id : ℕ) (w : World)
    → advanced env CommandEvent.timeout id w
      ≡ answer CommandStatus.unacknowledged env.now (load_record id w)
unfolding advanced next_status load_record
advanced-timeout env id w = ground arith

settle-result : (env : Env) (o : Option CommandRecord) (w : World) → (settle env o w).0 ≡ o
unfolding settle
settle-result env none w = refl
settle-result env (some r) w = refl

load-settle :
    (env : Env) (s : CommandStatus) (id j : ℕ) (w : World)
    → IsFiled w
    → load_record j (settle env (answer s env.now (load_record id w)) w).1
      ≡ (if j == id then resolved s env.now (load_record id w) else load_record j w)
unfolding settle load_record save_record publish_status_event put with_status
load-settle env s id j w f = elim (Option-cases (w.records id)) [
  | inl missing ↦ ground arith
  | inr (r, found) ↦ ground (arith, f id r found)
]

-- An acknowledgement or an expired timer changes the record with its id if that is sent, to
-- confirmed or to unacknowledged, and no record besides; the call returns the changed record.
pub resolve_commands :
    (env : Env) (id : ℕ) (w : World)
    → IsFiled w
    → ((confirm_command env id w).0 ≡ answer CommandStatus.confirmed env.now (load_record id w))
      × ((expire_command env id w).0
          ≡ answer CommandStatus.unacknowledged env.now (load_record id w))
      × ((j : ℕ)
          → load_record j (confirm_command env id w).1 ≡ (
              if j == id
              then resolved CommandStatus.confirmed env.now (load_record id w)
              else load_record j w))
      × ((j : ℕ)
          → load_record j (expire_command env id w).1 ≡ (
              if j == id
              then resolved CommandStatus.unacknowledged env.now (load_record id w)
              else load_record j w))
unfolding confirm_command expire_command
resolve_commands env id w f = (
  rw (settle-result env (advanced env CommandEvent.ack id w) w) (advanced-ack env id w),
  rw (settle-result env (advanced env CommandEvent.timeout id w) w) (advanced-timeout env id w),
  λ j. rw advanced-ack (load-settle env CommandStatus.confirmed id j w f),
  λ j. rw advanced-timeout (load-settle env CommandStatus.unacknowledged id j w f),
)
