-- ===== src/Command/Issue.antt =====
-- What `issue_command` does, branch by branch.
use iotaps.Common.{
  ℕ, ◌≡◌, refl, ◌⊎◌, inl, inr, Bool, true, false, String, Option, none, some, arith, contains,
  Option-cases,
}
use iotaps.Common.Exec.{Result, ok, err, after}
use iotaps.Command.World.{
  CommandRecord, World, Env, CommandError, save_record, publish_status_event, publish, set_queue,
}
use iotaps.Command.Service.{
  TenantScope, issue_command, deliver_online, deliver_offline, enqueue, enqueue_as, new_record,
  log_command, scope_get, schedule_ack_timeout, validate_command, owned_device, dispatch,
  finish_issue,
}

pub deliver_online-records :
    (env : Env) (timeout : ℕ) (r : CommandRecord) (w : World)
    → ((deliver_online env timeout r w).1.records ≡ w.records)
      ⊎ ((deliver_online env timeout r w).1.records ≡ (save_record r w).records)
unfolding deliver_online publish save_record schedule_ack_timeout
deliver_online-records env timeout r w = ground arith

pub deliver_offline-records :
    (env : Env) (r : CommandRecord) (w : World)
    → ((deliver_offline env r w).1.records ≡ w.records)
      ⊎ ((deliver_offline env r w).1.records ≡ (save_record r w).records)
unfolding deliver_offline enqueue enqueue_as save_record set_queue
deliver_offline-records env r w = ground arith

-- What a failed delivery leaves untouched: all but the token cache and the device's queue.
abbrev pub Untouched : World → World → Type 0
Untouched w w' =
    (w'.records ≡ w.records)
    × (w'.broker ≡ w.broker)
    × (w'.events ≡ w.events)
    × (w'.timers ≡ w.timers)
    × (w'.audit ≡ w.audit)

deliver_online_failed :
    (env : Env) (timeout : ℕ) (r : CommandRecord) (w : World) (e : CommandError)
    → (deliver_online env timeout r w).0 ≡ err e
    → Untouched w (deliver_online env timeout r w).1
unfolding deliver_online publish save_record
deliver_online_failed env timeout r w e h = ground arith

deliver_offline_failed :
    (env : Env) (r : CommandRecord) (w : World) (e : CommandError)
    → (deliver_offline env r w).0 ≡ err e
    → Untouched w (deliver_offline env r w).1
unfolding deliver_offline enqueue enqueue_as save_record set_queue
deliver_offline_failed env r w e h = ground arith

module _ (env : Env) (scope : TenantScope) (d : ℕ) (kind : String) (value : Option ℕ)
    (target : Option String) (timeout : ℕ) (w : World) where
  abbrev pub issued : Result CommandError CommandRecord × World
  issued = issue_command env scope d kind value target timeout w

  issue_invalid : (e : CommandError) → validate_command kind value ≡ some e → issued ≡ (err e, w)
  unfolding issue_command
  issue_invalid e h = rw h

  issue_foreign :
      validate_command kind value ≡ none
      → owned_device scope d w ≡ none
      → issued ≡ (err CommandError.not_authorized, w)
  unfolding issue_command scope_get
  issue_foreign h k = rw (h, k)

  pub issue_dispatches :
      (org : ℕ)
      → validate_command kind value ≡ none
      → owned_device scope d w ≡ some org
      → let r = new_record env d org kind value target (contains d w.online) in
        issued ≡ after (λ _. finish_issue env r) (dispatch env timeout (contains d w.online) r w)
  unfolding issue_command scope_get
  issue_dispatches org h k = rw (h, k)

module _ (env : Env) (r : CommandRecord) where
  finish_failed :
      (p : Result CommandError Unit × World) (e : CommandError)
      → (after (λ _. finish_issue env r) p).0 ≡ err e
      → (p.0 ≡ err e) × ((after (λ _. finish_issue env r) p).1 ≡ p.1)
  unfolding finish_issue
  finish_failed (ok tt, u) e h = ground arith
  finish_failed (err c, u) e h = ground arith

  finish-records :
      (p : Result CommandError Unit × World)
      → (after (λ _. finish_issue env r) p).1.records ≡ p.1.records
  unfolding finish_issue publish_status_event log_command
  finish-records (ok tt, u) = ground arith
  finish-records (err c, u) = refl

  pub finish_ok :
      (p : Result CommandError Unit × World) (u : World)
      → p ≡ (ok tt, u)
      → let (res, w') = after (λ _. finish_issue env r) p in
        (res ≡ ok r)
        × (w'.records ≡ u.records)
        × (w'.queues ≡ u.queues)
        × (w'.broker ≡ u.broker)
        × (w'.timers ≡ u.timers)
        × (w'.queue_ends ≡ u.queue_ends)
  unfolding finish_issue publish_status_event log_command
  finish_ok (ok tt, v) u h = ground arith
  finish_ok (err c, v) u h = ground arith

dispatch_failed :
    (env : Env) (timeout : ℕ) (online : Bool) (r : CommandRecord) (w : World) (e : CommandError)
    → (dispatch env timeout online r w).0 ≡ err e
    → Untouched w (dispatch env timeout online r w).1
unfolding dispatch
dispatch_failed env timeout true r w e h = deliver_online_failed env timeout r w e h
dispatch_failed env timeout false r w e h = deliver_offline_failed env r w e h

dispatch-records :
    (env : Env) (timeout : ℕ) (online : Bool) (r : CommandRecord) (w : World)
    → ((dispatch env timeout online r w).1.records ≡ w.records)
      ⊎ ((dispatch env timeout online r w).1.records ≡ (save_record r w).records)
unfolding dispatch
dispatch-records env timeout true r w = deliver_online-records env timeout r w
dispatch-records env timeout false r w = deliver_offline-records env r w

module _ (env : Env) (scope : TenantScope) (d : ℕ) (kind : String) (value : Option ℕ)
    (target : Option String) (timeout : ℕ) (w : World) where
  -- The three ways that a call can go.
  issue-cases :
      ((e : CommandError) × (issued env scope d kind value target timeout w ≡ (err e, w)))
      ⊎ ((org : ℕ) × (let r = new_record env d org kind value target (contains d w.online) in
            issued env scope d kind value target timeout w
            ≡ after (λ _. finish_issue env r) (dispatch env timeout (contains d w.online) r w)))
  issue-cases = elim (Option-cases (validate_command kind value)) [
    | inr (e, bad) ↦ inl (e, issue_invalid env scope d kind value target timeout w e bad)
    | inl fine ↦ elim (Option-cases (owned_device scope d w)) [
      | inl foreign ↦ inl (
        CommandError.not_authorized,
        issue_foreign env scope d kind value target timeout w fine foreign,
      )
      | inr (org, found) ↦
          inr (org, issue_dispatches env scope d kind value target timeout w org fine found)
    ]
  ]

  -- A call that raises has stored, published, announced, timed and logged nothing; only the token
  -- cache may have been filled, and the command of a push whose trim or expiry raised stays queued.
  pub issue_command_failed :
      (e : CommandError)
      → (issued env scope d kind value target timeout w).0 ≡ err e
      → Untouched w (issued env scope d kind value target timeout w).1
  issue_command_failed e h = elim issue-cases [
    | inl (c, early) ↦ rw early (refl, refl, refl, refl, refl)
    | inr (org, late) ↦
        let r : CommandRecord = new_record env d org kind value target (contains d w.online) in
        let p : Result CommandError Unit × World = dispatch env timeout (contains d w.online) r w in
        let (failed, same) = finish_failed env r p e (rw late at h) in
        rw (late, same) (dispatch_failed env timeout (contains d w.online) r w e failed)
  ]

  -- The records afterwards are those before, or hold one more under the new id.
  pub issue_command-records :
      ((issued env scope d kind value target timeout w).1.records ≡ w.records)
      ⊎ ((r : CommandRecord) × (r.command_id ≡ env.fresh_id)
          × ((issued env scope d kind value target timeout w).1.records
              ≡ (save_record r w).records))
  issue_command-records = elim issue-cases [
    | inl (c, early) ↦ inl (rw early)
    | inr (org, late) ↦
        let r : CommandRecord = new_record env d org kind value target (contains d w.online) in
        let p : Result CommandError Unit × World = dispatch env timeout (contains d w.online) r w in
        rw (late, finish-records env r p)
          (elim (dispatch-records env timeout (contains d w.online) r w) [
            | inl same ↦ inl same
            | inr saved ↦ inr (r, (unfold new_record in refl), saved)
          ])
  ]
