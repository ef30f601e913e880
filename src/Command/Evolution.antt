-- ===== src/Command/Evolution.antt =====
-- How the operations change the stored records and their statuses.
use iotaps.Common.{
  ℕ, ◌≡◌, refl, subst, none, some, List, [], ◌∷◌, ◌++◌, arith, ◌==◌, if◌then◌else◌, Option-cases,
  Bool-cases, inl, inr,
}
use iotaps.Common.Store.{put}
use iotaps.Command.Status.{CommandEvent, next_status, is_terminal}
use iotaps.Command.Lifecycle.{Advances, Advances-refl, Advances-one, Advances-trans}
use iotaps.Command.World.{
  CommandRecord, Saved, QueuedCommand, Topic, token_topic, World, Env, save_record, with_status,
  publish_status_event, publish, set_queue, command_mqtt_payload,
}
use iotaps.Command.Service.{
  advanced, settle, confirm_command, expire_command, flush_from, queue_device,
  flush_queued_commands,
}
use iotaps.Command.Steps.{after_send, flush_skips, flush_sends, flush_stops}

-- Every record is stored under its own id.
abbrev pub IsFiled : World → Type 0
IsFiled w = (id : ℕ) (s : Saved) → w.records id ≡ some s → s.held.command_id ≡ id

-- A stored record is still there, in a status that legal events lead to.
abbrev pub Grows : World → World → Type 0
Grows w w' =
    (id : ℕ) (s : Saved)
    → w.records id ≡ some s
    → (s' : Saved) × (w'.records id ≡ some s') × Advances s.held.status s'.held.status

abbrev pub Evolves : World → World → Type 0
Evolves w w' = IsFiled w' × Grows w w'

pub Evolves-trans : (u v w : World) → Evolves u v → Evolves v w → Evolves u w
Evolves-trans u v w (fv, p) (fw, q) = (fw, both)
  where
    both : Grows u w
    both id s h =
        let (s', h', a) = p id s h in
        let (s'', h'', b) = q id s' h' in
        (s'', h'', Advances-trans s.held.status s'.held.status s''.held.status a b)

-- A step that leaves the records alone.
pub Evolves-same : (w w' : World) → w'.records ≡ w.records → IsFiled w → Evolves w w'
Evolves-same w w' e f =
    (λ id s h. f id s (rw (← e) h), λ id s h. (s, rw e h, Advances-refl s.held.status))

save-IsFiled : (r : CommandRecord) (w : World) → IsFiled w → IsFiled (save_record r w)
unfolding save_record put
save-IsFiled r w f id s h = ground (arith, f id s)

pub save-Evolves_new :
    (r : CommandRecord) (w : World)
    → IsFiled w
    → w.records r.command_id ≡ none
    → Evolves w (save_record r w)
unfolding save_record put
save-Evolves_new r w f new =
    (save-IsFiled r w f, λ id s h. (s, ground arith, Advances-refl s.held.status))

pub save-Evolves_old :
    (r : CommandRecord) (s : Saved) (w : World)
    → IsFiled w
    → w.records r.command_id ≡ some s
    → Advances s.held.status r.status
    → Evolves w (save_record r w)
unfolding save_record put
save-Evolves_old r old w f at adv = (save-IsFiled r w f, grown)
  where
    grown : Grows w (save_record r w)
    grown id s h = elim (Bool-cases (id == r.command_id)) [
      | inl same ↦ (
        record { held = r; ttl = if is_terminal r.status then 3600 else 172800 },
        ground arith,
        let e : old ≡ s = ground arith in
            subst (λ (t : Saved). Advances t.held.status r.status) e adv,
      )
      | inr other ↦ (s, ground arith, Advances-refl s.held.status)
    ]

-- The record that `advanced` returns replaces one whose status it legally follows.
pub advanced-old :
    (env : Env) (e : CommandEvent) (id : ℕ) (r : CommandRecord) (w : World)
    → IsFiled w
    → advanced env e id w ≡ some r
    → (s : Saved) × (w.records id ≡ some s)
      × (next_status (some s.held.status) e ≡ some r.status)
      × (r ≡ with_status s.held r.status env.now)
      × (r.command_id ≡ id)
unfolding advanced
advanced-old env e id r w f h = elim (Option-cases (w.records id)) [
  | inl missing ↦ ground arith
  | inr (s, found) ↦ (s, found, ground arith, ground arith, ground (arith, f id s found))
]

records-publish_status_event :
    (env : Env) (r : CommandRecord) (w : World) → (publish_status_event env r w).records ≡ w.records
unfolding publish_status_event
records-publish_status_event env r w = ground arith

records-publish :
    (env : Env) (t : Topic) (r : CommandRecord) (w : World)
    → (publish env t (command_mqtt_payload r) w).1.records ≡ w.records
unfolding publish
records-publish env t r w = ground arith

-- Saving an advanced record and announcing it.
pub saved_announced-Evolves :
    (env : Env) (e : CommandEvent) (id : ℕ) (r : CommandRecord) (w u : World)
    → IsFiled w
    → advanced env e id w ≡ some r
    → u.records ≡ w.records
    → Evolves w (publish_status_event env r (save_record r u))
saved_announced-Evolves env e id r w u f h same =
    let (s, found, legal, _, own) = advanced-old env e id r w f h in
    let begun : Evolves w u = Evolves-same w u same f in
    let saved : Evolves u (save_record r u) =
      save-Evolves_old r s u begun.0 (rw (same, own) found)
        (Advances-one s.held.status r.status e legal) in
    Evolves-trans w (save_record r u) (publish_status_event env r (save_record r u))
      (Evolves-trans w u (save_record r u) begun saved)
      (Evolves-same (save_record r u) (publish_status_event env r (save_record r u))
        (records-publish_status_event env r (save_record r u)) saved.0)

settle-Evolves :
    (env : Env) (e : CommandEvent) (id : ℕ) (w : World)
    → IsFiled w
    → Evolves w (settle env (advanced env e id w) w).1
settle-Evolves env e id w f = elim (Option-cases (advanced env e id w)) [
  | inl nothing ↦ rw nothing (unfold settle in Evolves-same w w refl f)
  | inr (r, h) ↦ rw h (unfold settle in saved_announced-Evolves env e id r w w f h refl)
]

pub confirm_command-Evolves :
    (env : Env) (id : ℕ) (w : World) → IsFiled w → Evolves w (confirm_command env id w).1
unfolding confirm_command
confirm_command-Evolves env id w f = settle-Evolves env CommandEvent.ack id w f

pub expire_command-Evolves :
    (env : Env) (id : ℕ) (w : World) → IsFiled w → Evolves w (expire_command env id w).1
unfolding expire_command
expire_command-Evolves env id w f = settle-Evolves env CommandEvent.timeout id w f

pub queued-Evolves :
    (d : ℕ) (q : List QueuedCommand) (w : World) → IsFiled w → Evolves w (set_queue d q w)
unfolding set_queue
queued-Evolves d q w f = Evolves-same w (set_queue d q w) refl f

-- The loop of a flush, whether it ends or the broker refuses a message.
pub flush_from-Evolves :
    (env : Env) (t : Topic) (d : ℕ) (q : List QueuedCommand) (w : World)
    → IsFiled w
    → Evolves w (flush_from env t d q w).1
flush_from-Evolves env t d [] w f = unfold flush_from in queued-Evolves d [] w f
flush_from-Evolves env t d (q ∷ rest) w f =
    elim (Option-cases (advanced env CommandEvent.reconnect_flush q.command_id w)) [
      | inl nothing ↦ rw (flush_skips env t d q rest w nothing) (
          Evolves-trans w popped (flush_from env t d rest popped).1 begun
            (flush_from-Evolves env t d rest popped begun.0))
      | inr (r, h) ↦ elim (Bool-cases (env.accepts t (command_mqtt_payload r))) [
        | inr refused ↦ rw (flush_stops env t d q rest w r h refused) begun
        | inl accepted ↦ rw (flush_sends env t d q rest w r h accepted) (
            let sent : Evolves w (after_send env t r popped) =
              saved_announced-Evolves env CommandEvent.reconnect_flush q.command_id r w
                (record popped { broker = popped.broker ++ (t, command_mqtt_payload r) ∷ [] }) f h
                (unfold set_queue in refl) in
            Evolves-trans w (after_send env t r popped)
              (flush_from env t d rest (after_send env t r popped)).1 sent
              (flush_from-Evolves env t d rest (after_send env t r popped) sent.0))
      ]
    ]
  where
    popped : World
    popped = set_queue d rest w

    begun : Evolves w popped
    begun = queued-Evolves d rest w f

pub flush_queued_commands-Evolves :
    (env : Env) (token : ℕ) (w : World)
    → IsFiled w
    → Evolves w (flush_queued_commands env token w).1
unfolding flush_queued_commands
flush_queued_commands-Evolves env token w f =
    flush_from-Evolves env (token_topic token) (queue_device env token w)
      (w.queues (queue_device env token w)) w f
