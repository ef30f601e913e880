-- ===== src/Command/Offline.antt =====
-- A command to an offline device, from `issue_command` to the flush on its reconnect.
use iotaps.Common.{
  ℕ, zero, suc, ◌≤◌, ◌≡◌, refl, true, false, String, Option, none, some, List, [], ◌∷◌, ◌++◌,
  length, drop, ◌+◌, ◌<◌, ltb, if◌then◌else◌, arith, contains, length-append, ◌-◌,
}
use iotaps.Common.Store.{put, put_self}
use iotaps.Common.Exec.{ok}
use iotaps.Command.Status.{CommandStatus, is_terminal}
use iotaps.Command.World.{
  token_topic, CommandRecord, Saved, QueuedCommand, World, Env, load_record, save_record,
  with_status, set_queue, queue_works, runs_out, still_held, still_queued, lapse,
}
use iotaps.Command.Service.{
  TenantScope, issue_command, flush_queued_commands, new_record, validate_command, owned_device,
  queue_device, keep_newest, max_queued, dispatch, deliver_offline, enqueue, enqueue_as, entry,
  queue_ttl,
}
use iotaps.Command.Issue.{issue_dispatches, finish_ok}
use iotaps.Command.Evolution.{IsFiled}
use iotaps.Command.Flush.{
  Accepts, flushed_record, queued_ids, Delivered-empty, flush_queued_commands_lem,
}
use iotaps.Command.Reach.{issue_command-Evolves, lapse-IsFiled}

-- The state after an offline delivery.
abbrev pub stored_offline : ℕ → CommandRecord → World → World
stored_offline now r w =
    save_record r
      (record (set_queue r.device_id (keep_newest max_queued (w.queues r.device_id ++ entry r ∷ []))
        w) { queue_ends = put r.device_id (now + queue_ttl) w.queue_ends })

deliver_offline_queues :
    (env : Env) (r : CommandRecord) (w : World)
    → env.queue_calls ≡ queue_works
    → deliver_offline env r w ≡ (ok tt, stored_offline env.now r w)
unfolding deliver_offline enqueue enqueue_as
deliver_offline_queues env r w up = rw (up, enqueue_as)

stored_offline-records :
    (now : ℕ) (r : CommandRecord) (w : World) (records : ℕ → Option Saved)
    → r.status ≡ CommandStatus.queued
    → records ≡ (stored_offline now r w).records
    → records r.command_id ≡ some (record { held = r; ttl = 172800 })
unfolding save_record put is_terminal
stored_offline-records now r w records h e = ground (arith, h)

-- What has not run out is found later, and what has run out is not.
load-lapse :
    (now id : ℕ) (s : Saved) (w : World)
    → w.records id ≡ some s
    → load_record id (lapse now w) ≡ (if ltb now (runs_out s) then some s.held else none)
unfolding load_record lapse still_held
load-lapse now id s w h = rw (load_record, h) (ground arith)

queue-lapse :
    (now d until : ℕ) (w : World)
    → w.queue_ends d ≡ some until
    → now < until
    → (lapse now w).queues d ≡ w.queues d
unfolding lapse still_queued
queue-lapse now d until w h early = rw h (ground (arith, early))

drop-listed :
    (q : List QueuedCommand) (e : QueuedCommand) (n : ℕ)
    → n ≤ length q
    → contains e.command_id (queued_ids (drop n (q ++ e ∷ []))) ≡ true
drop-listed [] e zero h = ground arith
drop-listed [] e (suc n) h = absurd (omega arith)
drop-listed (x ∷ q) e zero h = ground (arith, drop-listed q e 0)
drop-listed (x ∷ q) e (suc n) h = drop-listed q e n (omega arith)

-- The newest entry is never the one that is trimmed.
newest-listed :
    (q : List QueuedCommand) (e : QueuedCommand)
    → contains e.command_id (queued_ids (keep_newest max_queued (q ++ e ∷ []))) ≡ true
unfolding keep_newest
newest-listed q e =
    drop-listed q e (length (q ++ e ∷ []) - max_queued) (omega (arith, length-append q (e ∷ [])))

module _ (env : Env) (scope : TenantScope) (d org : ℕ) (kind : String) (value : Option ℕ)
    (target : Option String) (timeout : ℕ) (w : World) (fine : validate_command kind value ≡ none)
    (owned : owned_device scope d w ≡ some org) (offline : contains d w.online ≡ false)
    (up : env.queue_calls ≡ queue_works) where
  -- A valid command to a known offline device is stored as queued for two days and put at the end of the
  -- device's queue, of which the newest hundred stay for seven days; nothing is published.
  pub issue_offline :
      let r = new_record env d org kind value target false in
      let (res, w') = issue_command env scope d kind value target timeout w in
      (res ≡ ok r)
      × (w'.records env.fresh_id ≡ some (record { held = r; ttl = 172800 }))
      × (w'.queues d ≡ keep_newest max_queued (w.queues d ++ entry r ∷ []))
      × (w'.queue_ends d ≡ some (env.now + queue_ttl))
      × (w'.broker ≡ w.broker)
      × (r.status ≡ CommandStatus.queued)
  issue_offline =
      let r : CommandRecord = new_record env d org kind value target false in
      let (done, records, queues, broker, timers, ends) =
        finish_ok env r (dispatch env timeout false r w) (stored_offline env.now r w)
          (unfold dispatch in deliver_offline_queues env r w up) in
      let stored : (stored_offline env.now r w).records env.fresh_id
          ≡ some (record { held = r; ttl = 172800 }) =
        unfold new_record in
        stored_offline-records env.now r w (stored_offline env.now r w).records refl refl in
      rw (issue_dispatches env scope d kind value target timeout w org fine owned, offline)
        (
          done,
          rw records stored,
          rw queues (unfold save_record set_queue new_record in ground arith),
          rw ends (unfold save_record set_queue new_record in put_self d (env.now + queue_ttl) _),
          rw broker (unfold save_record set_queue in refl),
          (unfold new_record in refl),
        )

  -- What a flush finds that comes within a week.
  issued_then :
      (later : Env) (token : ℕ)
      → IsFiled w
      → w.records env.fresh_id ≡ none
      → Accepts later
      → later.now < env.now + queue_ttl
      → let found = lapse later.now (issue_command env scope d kind value target timeout w).1 in
        queue_device later token found ≡ d
        → let w'' = (flush_queued_commands later token found).1 in
          (load_record env.fresh_id w''
            ≡ flushed_record later.now true (
                if ltb later.now (env.now + 172800)
                then some (new_record env d org kind value target false)
                else none))
          × (w''.queues d ≡ [])
  issued_then later token filed new acc week at =
      let r : CommandRecord = new_record env d org kind value target false in
      let w' : World = (issue_command env scope d kind value target timeout w).1 in
      let found : World = lapse later.now w' in
      let (_, stored, queue, ends, _, fresh) = issue_offline in
      let filed' : IsFiled found =
        lapse-IsFiled later.now w'
          (issue_command-Evolves env scope d kind value target timeout w filed new).0 in
      let (delivered, records) = flush_queued_commands_lem later token found acc filed' in
      let held : found.queues d ≡ w'.queues d =
        queue-lapse later.now d (env.now + queue_ttl) w' ends week in
      let loaded : load_record env.fresh_id found
          ≡ (if ltb later.now (env.now + 172800) then some r else none) =
        unfold runs_out new_record in
        load-lapse later.now env.fresh_id (record { held = r; ttl = 172800 }) w' stored in
      let listed : contains env.fresh_id
            (queued_ids (keep_newest max_queued (w.queues d ++ entry r ∷ [])))
          ≡ true =
        unfold new_record in newest-listed (w.queues d) (entry r) in
      (
        rw (records env.fresh_id, at, held, queue, loaded, listed) refl,
        rw at at (
            Delivered-empty (token_topic token) (queue_device later token found) found _ delivered),
      )

  -- A valid command of a new id to a known offline device, whose calls on the queue go through,
  -- followed within two days by a flush under a token that resolves to the device, with a broker that
  -- accepts: the command's record then says sent, and nothing is left in the device's queue. What ran out in
  -- between is gone when the flush begins.
  pub issue_flush_delivers :
      (later : Env) (token : ℕ)
      → IsFiled w
      → w.records env.fresh_id ≡ none
      → Accepts later
      → later.now < env.now + 172800
      → let found = lapse later.now (issue_command env scope d kind value target timeout w).1 in
        queue_device later token found ≡ d
        → let w'' = (flush_queued_commands later token found).1 in
          (load_record env.fresh_id w''
            ≡ some (
                with_status
                  (new_record env d org kind value target false)
                  CommandStatus.sent
                  later.now))
          × (w''.queues d ≡ [])
  issue_flush_delivers later token filed new acc soon at =
      let (loaded, empty) = issued_then later token filed new acc (omega arith) at in
      let early : ltb later.now (env.now + 172800) ≡ true = ground (arith, soon) in
      (rw (loaded, early) (unfold new_record in refl), empty)

  -- A valid command of a new id to a known offline device, whose calls on the queue go through,
  -- followed by a flush under a token that is the device's then, with a broker that takes the
  -- message, but after two days and within a week: the command is gone from the queue, and it has no
  -- record any more.
  pub issue_flush_drops :
      (later : Env) (token : ℕ)
      → IsFiled w
      → w.records env.fresh_id ≡ none
      → Accepts later
      → env.now + 172800 ≤ later.now
      → later.now < env.now + queue_ttl
      → let found = lapse later.now (issue_command env scope d kind value target timeout w).1 in
        queue_device later token found ≡ d
        → let w'' = (flush_queued_commands later token found).1 in
          (load_record env.fresh_id w'' ≡ none) × (w''.queues d ≡ [])
  issue_flush_drops later token filed new acc late week at =
      let (loaded, empty) = issued_then later token filed new acc week at in
      let gone : ltb later.now (env.now + 172800) ≡ false = ground (arith, late) in
      (rw (loaded, gone) refl, empty)
