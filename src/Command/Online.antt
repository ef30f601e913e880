-- ===== src/Command/Online.antt =====
-- A command to an online device.
use iotaps.Common.{
  ℕ, ◌≡◌, refl, ap, ◌∙◌, true, String, Option, none, some, [], ◌∷◌, ◌++◌, arith, contains, ltb,
  if◌then◌else◌, Option-cases, Bool-cases, inl, inr,
}
use iotaps.Common.Store.{put}
use iotaps.Common.Exec.{ok}
use iotaps.Command.Status.{CommandStatus}
use iotaps.Command.World.{
  Topic, token_topic, device_topic, CommandRecord, World, Env, load_record, save_record, publish,
  command_mqtt_payload, token_of_device,
}
use iotaps.Command.Service.{
  TenantScope, issue_command, new_record, validate_command, owned_device, dispatch, deliver_online,
  resolve_topic, schedule_ack_timeout,
}
use iotaps.Command.Issue.{issue_dispatches, finish_ok}

-- The topic that is found for a device, by the cached token, a live credential's, or its own id.
abbrev pub topic_for : ℕ → ℕ → World → Topic
topic_for d org w = elim (w.token_cache d) [
  | some t ↦ token_topic t
  | none ↦ elim (token_of_device d w.credentials) [
    | some t ↦ token_topic t
    | none ↦ device_topic org d
  ]
]

-- What finding it leaves alone.
abbrev IsResolved : ℕ → ℕ → World → World → Type 0
IsResolved d org w w' =
    (resolve_topic d org w ≡ (ok (topic_for d org w), w'))
    × (w'.broker ≡ w.broker)
    × (w'.queues ≡ w.queues)
    × (w'.timers ≡ w.timers)
    × (w'.records ≡ w.records)

resolve_topic-IsResolved : (d org : ℕ) (w : World) → (w' : World) × IsResolved d org w w'
unfolding resolve_topic
resolve_topic-IsResolved d org w = elim (Option-cases (w.token_cache d)) [
  | inr (t, hit) ↦ (w, (rw (hit, resolve_topic, topic_for) refl, refl, refl, refl, refl))
  | inl miss ↦ elim (Option-cases (token_of_device d w.credentials)) [
    | inr (t, found) ↦ (
      record w { token_cache = put d t w.token_cache },
      (rw (miss, resolve_topic, topic_for, found) refl, refl, refl, refl, refl),
    )
    | inl missing ↦ (w, (rw (miss, resolve_topic, topic_for, missing) refl, refl, refl, refl, refl))
  ]
]

-- The state after the publish, the save and the timer.
abbrev pub stored_online : ℕ → Topic → CommandRecord → World → World
stored_online timeout t r w =
    let saved =
      save_record r (record w { broker = w.broker ++ (t, command_mqtt_payload r) ∷ [] }) in
    if ltb 0 timeout then schedule_ack_timeout r.command_id timeout saved else saved

deliver_online_publishes :
    (env : Env) (timeout : ℕ) (r : CommandRecord) (w w' : World)
    → IsResolved r.device_id r.org_id w w'
    → env.accepts (topic_for r.device_id r.org_id w) (command_mqtt_payload r) ≡ true
    → deliver_online env timeout r w
      ≡ (ok tt, stored_online timeout (topic_for r.device_id r.org_id w) r w')
unfolding deliver_online publish
deliver_online_publishes env timeout r w w' (found, b, q, t, rs) acc =
    elim (Bool-cases (ltb 0 timeout)) [
      | inl timed ↦ (rw (found, deliver_online, acc, publish, timed) refl)
      | inr untimed ↦ (rw (found, deliver_online, acc, publish, untimed) refl)
    ]

online_fields :
    (timeout : ℕ) (t : Topic) (r : CommandRecord) (w : World)
    → let s = stored_online timeout t r w in
      (load_record r.command_id s ≡ some r)
      × (s.queues ≡ w.queues)
      × (s.broker ≡ w.broker ++ (t, command_mqtt_payload r) ∷ [])
      × (s.timers ≡ (if ltb 0 timeout then w.timers ++ (r.command_id, timeout) ∷ [] else w.timers))
unfolding save_record load_record schedule_ack_timeout put
online_fields timeout t r w = elim (Bool-cases (ltb 0 timeout)) [
  | inl timed ↦ (rw timed (ground arith, refl, refl, refl))
  | inr untimed ↦ (rw untimed (ground arith, refl, refl, refl))
]

load_same : (id : ℕ) (u v : World) → u.records ≡ v.records → load_record id u ≡ load_record id v
unfolding load_record
load_same id u v h = rw h refl

module _ (env : Env) (scope : TenantScope) (d org : ℕ) (kind : String) (value : Option ℕ)
    (target : Option String) (timeout : ℕ) (w : World) (fine : validate_command kind value ≡ none)
    (owned : owned_device scope d w ≡ some org) (online : contains d w.online ≡ true)
    (accepted : env.accepts
        (topic_for d org w)
        (command_mqtt_payload (new_record env d org kind value target true))
      ≡ true) where
  -- A valid command to a known online device, which the broker accepts, is stored as sent and published
  -- once, on the topic of the device's cached token, else of its live credential, else of its own id;
  -- its acknowledgement timer starts if there is one, and no queue changes.
  pub issue_online :
      let r = new_record env d org kind value target true in
      let (res, w') = issue_command env scope d kind value target timeout w in
      (res ≡ ok r)
      × (load_record env.fresh_id w' ≡ some r)
      × (r.status ≡ CommandStatus.sent)
      × (w'.broker ≡ w.broker ++ (topic_for d org w, command_mqtt_payload r) ∷ [])
      × (w'.timers ≡ (if ltb 0 timeout then w.timers ++ (env.fresh_id, timeout) ∷ [] else w.timers))
      × (w'.queues ≡ w.queues)
  issue_online =
      let r : CommandRecord = new_record env d org kind value target true in
      let (w1, found) = resolve_topic-IsResolved d org w in
      let (step, b1, q1, t1, rs1) = found in
      let t = topic_for d org w in
      let delivered : dispatch env timeout true r w ≡ (ok tt, stored_online timeout t r w1) =
        unfold dispatch new_record in deliver_online_publishes env timeout r w w1 found accepted in
      let (done, records, queues, broker, timers, ends) =
        finish_ok env r (dispatch env timeout true r w) (stored_online timeout t r w1) delivered in
      let (loaded, no_queue, sent, timed) = online_fields timeout t r w1 in
      rw (issue_dispatches env scope d kind value target timeout w org fine owned, online)
        (
          done,
          load_same env.fresh_id _ (stored_online timeout t r w1) records
              ∙ (unfold new_record in loaded),
          unfold new_record in refl,
          broker ∙ sent ∙ ap (λ x. x ++ (t, command_mqtt_payload r) ∷ []) b1,
          timers
              ∙ timed
              ∙ (unfold new_record in
                  ap (λ x. if ltb 0 timeout then x ++ (env.fresh_id, timeout) ∷ [] else x) t1),
          queues ∙ no_queue ∙ q1,
        )
