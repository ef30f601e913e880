-- ===== src/Command/Flush.antt =====
-- What a flush does to the records, the queue and the broker.
use iotaps.Common.{
  ℕ, ◌≡◌, refl, sym, Bool, true, false, ◌||◌, Option, none, some, List, [], ◌∷◌, ◌++◌, map,
  append-nil, append_assoc, arith, contains, if◌then◌else◌, Option-cases, Bool-cases, inl, inr,
  ◌==◌, All,
}
use iotaps.Common.Store.{put}
use iotaps.Common.Exec.{Result, ok, err}
use iotaps.Command.Status.{CommandStatus, CommandEvent, next_status}
use iotaps.Command.World.{
  CommandRecord, Saved, QueuedCommand, Topic, token_topic, World, Env, CommandError, Payload,
  command_mqtt_payload, load_record, save_record, with_status, publish_status_event, set_queue,
}
use iotaps.Command.Service.{advanced, flush_from, flush_queued_commands, queue_device}
use iotaps.Command.Steps.{after_send, prepend, flush_skips, flush_sends, flush_stops}
use iotaps.Command.Evolution.{IsFiled, advanced-old, queued-Evolves, saved_announced-Evolves}

abbrev pub queued_ids : List QueuedCommand → List ℕ
queued_ids q = map (λ c. c.command_id) q

abbrev is_queued : CommandStatus → Bool
is_queued CommandStatus.queued = true
is_queued _ = false

-- What a flush at `now` makes of a stored record, by whether its id was in the queue.
abbrev pub flushed_record : ℕ → Bool → Option CommandRecord → Option CommandRecord
flushed_record now listed none = none
flushed_record now true (some r) =
    if is_queued r.status then some (with_status r CommandStatus.sent now) else some r
flushed_record now false (some r) = some r

-- Every message is accepted.
abbrev pub Accepts : Env → Type 0
Accepts env = (t : Topic) (p : Payload) → env.accepts t p ≡ true

-- The state after one record was sent: only its own entry changes.
load-after_send :
    (env : Env) (t : Topic) (d id : ℕ) (r : CommandRecord) (q : List QueuedCommand) (w : World)
    → load_record id (after_send env t r (set_queue d q w))
      ≡ (if id == r.command_id then some r else load_record id w)
unfolding load_record publish_status_event save_record set_queue put
load-after_send env t d id r q w = ground arith

-- A listed command that cannot be flushed is as it was.
flush-eq_skipped :
    (env : Env) (d id j : ℕ) (listed : Bool) (q : List QueuedCommand) (w : World)
    → advanced env CommandEvent.reconnect_flush j w ≡ none
    → flushed_record env.now listed (load_record id (set_queue d q w))
      ≡ flushed_record env.now (j == id || listed) (load_record id w)
unfolding advanced load_record next_status with_status set_queue
flush-eq_skipped env d id j listed q w h = ground arith

load-found :
    (id : ℕ) (s : Saved) (w : World) → w.records id ≡ some s → load_record id w ≡ some s.held
unfolding load_record
load-found id s w h = rw (h, load_record)

flush_legal :
    (s t : CommandStatus)
    → next_status (some s) CommandEvent.reconnect_flush ≡ some t
    → (s ≡ CommandStatus.queued) × (t ≡ CommandStatus.sent)
unfolding next_status
flush_legal s t h = ground arith

flush-eq_sent :
    (env : Env) (id j : ℕ) (r : CommandRecord) (listed : Bool) (w : World)
    → IsFiled w
    → advanced env CommandEvent.reconnect_flush j w ≡ some r
    → flushed_record env.now listed (if id == r.command_id then some r else load_record id w)
      ≡ flushed_record env.now (j == id || listed) (load_record id w)
flush-eq_sent env id j r listed w f h =
    let (s, found, legal, made, own) = advanced-old env CommandEvent.reconnect_flush j r w f h in
    let (before, now_sent) = flush_legal s.held.status r.status legal in
    elim (Bool-cases (j == id)) [
      | inl same ↦
          let e : j ≡ id = ground arith in
          let loaded : load_record id w ≡ some s.held = load-found id s w (rw e at found) in
          let hit : (id == r.command_id) ≡ true = ground arith in
          let made' : r ≡ with_status s.held CommandStatus.sent env.now = rw (← now_sent) made in
          rw (same, loaded, hit, before) (ground arith)
      | inr other ↦ let miss : (id == r.command_id) ≡ false = ground arith in rw (other, miss)
    ]

flushed-unlisted : (now : ℕ) (o : Option CommandRecord) → o ≡ flushed_record now false o
flushed-unlisted now none = refl
flushed-unlisted now (some r) = refl

flush-load :
    (env : Env) (t : Topic) (d id : ℕ) (q : List QueuedCommand) (w : World)
    → Accepts env
    → IsFiled w
    → load_record id (flush_from env t d q w).1
      ≡ flushed_record env.now (contains id (queued_ids q)) (load_record id w)
flush-load env t d id [] w a f =
    unfold flush_from set_queue load_record in (flushed-unlisted env.now (load_record id w))
flush-load env t d id (q ∷ rest) w a f =
    elim (Option-cases (advanced env CommandEvent.reconnect_flush q.command_id w)) [
      | inl nothing ↦
          rw (flush_skips env t d q rest w nothing, flush-load env t d id rest popped a f')
            (flush-eq_skipped env d id q.command_id (contains id (queued_ids rest)) rest w nothing)
      | inr (r, h) ↦
          rw
            (
              flush_sends env t d q rest w r h (a t (command_mqtt_payload r)),
              flush-load env t d id rest (after_send env t r popped) a (sent-IsFiled r h),
              load-after_send env t d id r rest w,
            )
            (flush-eq_sent env id q.command_id r (contains id (queued_ids rest)) w f h)
    ]
  where
    popped : World
    popped = set_queue d rest w

    f' : IsFiled popped
    f' = (queued-Evolves d rest w f).0

    sent-IsFiled :
        (r : CommandRecord)
        → advanced env CommandEvent.reconnect_flush q.command_id w ≡ some r
        → IsFiled (after_send env t r popped)
    sent-IsFiled r h =
        (saved_announced-Evolves env CommandEvent.reconnect_flush q.command_id r w
          (record popped { broker = popped.broker ++ (t, command_mqtt_payload r) ∷ [] }) f h
          (unfold set_queue in refl)).0

-- What a flush publishes, in order, and in what status its records are.
abbrev pub messages : Topic → List CommandRecord → List (Topic × Payload)
messages t rs = map (λ r. (t, command_mqtt_payload r)) rs

-- The loop returns its records; the queue is empty and the broker has their messages in order.
abbrev pub Delivered : Topic → ℕ → World → Result CommandError (List CommandRecord) × World → Type 0
Delivered t d w (ok rs, w') =
    (w'.queues d ≡ [])
    × (w'.broker ≡ w.broker ++ messages t rs)
    × All (λ (r : CommandRecord). r.status ≡ CommandStatus.sent) rs
Delivered t d w (err e, w') = ⊥

pub Delivered-empty :
    (t : Topic) (d : ℕ) (w : World) (p : Result CommandError (List CommandRecord) × World)
    → Delivered t d w p
    → p.1.queues d ≡ []
Delivered-empty t d w (ok rs, w') h = h.0
Delivered-empty t d w (err c, w') h = absurd h

Delivered-prepend :
    (t : Topic) (d : ℕ) (r : CommandRecord) (w u : World)
    (p : Result CommandError (List CommandRecord) × World)
    → r.status ≡ CommandStatus.sent
    → u.broker ≡ w.broker ++ (t, command_mqtt_payload r) ∷ []
    → Delivered t d u p
    → Delivered t d w (prepend r p.0, p.1)
Delivered-prepend t d r w u (ok rs, w') s e (q, b, all) = (
  q,
  rw (b, e) (append_assoc w.broker ((t, command_mqtt_payload r) ∷ []) (messages t rs)),
  (s, all),
)
Delivered-prepend t d r w u (err c, w') s e h = h

Delivered-popped :
    (t : Topic) (d : ℕ) (q : List QueuedCommand) (w : World)
    (p : Result CommandError (List CommandRecord) × World)
    → Delivered t d (set_queue d q w) p
    → Delivered t d w p
unfolding set_queue
Delivered-popped t d q w (ok rs, w') h = h
Delivered-popped t d q w (err c, w') h = h

flush-Delivered :
    (env : Env) (t : Topic) (d : ℕ) (q : List QueuedCommand) (w : World)
    → Accepts env
    → IsFiled w
    → Delivered t d w (flush_from env t d q w)
flush-Delivered env t d [] w a f =
    unfold flush_from set_queue in (ground arith, sym (append-nil w.broker), tt)
flush-Delivered env t d (q ∷ rest) w a f =
    elim (Option-cases (advanced env CommandEvent.reconnect_flush q.command_id w)) [
      | inl nothing ↦ rw (flush_skips env t d q rest w nothing) (
          Delivered-popped t d rest w (flush_from env t d rest popped)
            (flush-Delivered env t d rest popped a (queued-Evolves d rest w f).0))
      | inr (r, h) ↦
          let (s, found, legal, made, own) =
            advanced-old env CommandEvent.reconnect_flush q.command_id r w f h in
          rw (flush_sends env t d q rest w r h (a t (command_mqtt_payload r))) (
            Delivered-prepend t d r w (after_send env t r popped)
              (flush_from env t d rest (after_send env t r popped))
              (flush_legal s.held.status r.status legal).1
              (unfold publish_status_event save_record set_queue in ground arith)
              (flush-Delivered env t d rest (after_send env t r popped) a
                (saved_announced-Evolves env CommandEvent.reconnect_flush q.command_id r w
                  (record popped { broker = popped.broker ++ (t, command_mqtt_payload r) ∷ [] }) f h
                  (unfold set_queue in refl)).0))
    ]
  where
    popped : World
    popped = set_queue d rest w

-- With a broker that accepts, a flush empties the queue of the token's device, publishes the
-- messages of the records it returns in queue order, returns them as sent, and of all stored
-- records changes exactly those that were listed in the queue and had the status queued.
pub flush_queued_commands_lem :
    (env : Env) (token : ℕ) (w : World)
    → Accepts env
    → IsFiled w
    → let d = queue_device env token w in
      let (res, w') = flush_queued_commands env token w in
      Delivered (token_topic token) d w (res, w')
      × ((id : ℕ)
          → load_record id w'
            ≡ flushed_record env.now (contains id (queued_ids (w.queues d))) (load_record id w))
unfolding flush_queued_commands
flush_queued_commands_lem env token w a f =
    let d : ℕ = queue_device env token w in
    (
      flush-Delivered env (token_topic token) d (w.queues d) w a f,
      λ id. flush-load env (token_topic token) d id (w.queues d) w a f,
    )

-- When the broker refuses the message of the first queued command, the flush raises, that command is
-- gone from the queue, no record has changed, and nothing was published.
pub flush_loses_refused :
    (env : Env) (token : ℕ) (q : QueuedCommand) (rest : List QueuedCommand) (r : CommandRecord)
    (w : World)
    → w.queues (queue_device env token w) ≡ q ∷ rest
    → advanced env CommandEvent.reconnect_flush q.command_id w ≡ some r
    → env.accepts (token_topic token) (command_mqtt_payload r) ≡ false
    → let (res, w') = flush_queued_commands env token w in
      (res ≡ err CommandError.publish_failed)
      × (w'.queues (queue_device env token w) ≡ rest)
      × (w'.records ≡ w.records)
      × (w'.broker ≡ w.broker)
unfolding flush_queued_commands
flush_loses_refused env token q rest r w held h refused =
    let d : ℕ = queue_device env token w in
    rw (held, flush_stops env (token_topic token) d q rest w r h refused)
      (unfold set_queue in (refl, ground arith, refl, refl))
