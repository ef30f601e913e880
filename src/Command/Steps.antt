-- ===== src/Command/Steps.antt =====
-- One iteration of `flush_queued_commands`, by what it finds: equations that the proofs about the
-- loop rewrite by, so that the loop itself can stay shut.
use iotaps.Common.{ℕ, ◌≡◌, refl, true, false, none, some, List, [], ◌∷◌, ◌++◌}
use iotaps.Common.Exec.{Result, ok, err, after, pure}
use iotaps.Command.Status.{CommandEvent}
use iotaps.Command.World.{
  CommandRecord, QueuedCommand, Topic, World, Env, CommandError, command_mqtt_payload, save_record,
  publish_status_event, publish, set_queue,
}
use iotaps.Command.Service.{advanced, send_popped, flush_from}

-- The state after an accepted message: published, saved, announced.
abbrev pub after_send : Env → Topic → CommandRecord → World → World
after_send env t r w =
    publish_status_event env r
      (save_record r (record w { broker = w.broker ++ (t, command_mqtt_payload r) ∷ [] }))

abbrev pub prepend :
    CommandRecord
    → Result CommandError (List CommandRecord)
    → Result CommandError (List CommandRecord)
prepend r (ok rs) = ok (r ∷ rs)
prepend r (err e) = err e

after-prepend :
    (r : CommandRecord) (p : Result CommandError (List CommandRecord) × World)
    → after (λ later. pure (r ∷ later)) p ≡ (prepend r p.0, p.1)
after-prepend r (ok rs, w) = refl
after-prepend r (err e, w) = refl

pub send_popped_accepted :
    (env : Env) (t : Topic) (r : CommandRecord) (w : World)
    → env.accepts t (command_mqtt_payload r) ≡ true
    → send_popped env t r w ≡ (ok tt, after_send env t r w)
unfolding send_popped publish
send_popped_accepted env t r w h = rw (h, publish)

pub send_popped_refused :
    (env : Env) (t : Topic) (r : CommandRecord) (w : World)
    → env.accepts t (command_mqtt_payload r) ≡ false
    → send_popped env t r w ≡ (err CommandError.publish_failed, w)
unfolding send_popped publish
send_popped_refused env t r w h = rw (h, publish)

module _ (env : Env) (t : Topic) (d : ℕ) (q : QueuedCommand) (rest : List QueuedCommand)
    (w : World) where
  pub flush_skips :
      advanced env CommandEvent.reconnect_flush q.command_id w ≡ none
      → flush_from env t d (q ∷ rest) w ≡ flush_from env t d rest (set_queue d rest w)
  unfolding flush_from advanced set_queue
  flush_skips h = rw (h, advanced)

  pub flush_sends :
      (r : CommandRecord)
      → advanced env CommandEvent.reconnect_flush q.command_id w ≡ some r
      → env.accepts t (command_mqtt_payload r) ≡ true
      → flush_from env t d (q ∷ rest) w ≡ (
          let (res, w') = flush_from env t d rest (after_send env t r (set_queue d rest w)) in
          (prepend r res, w'))
  unfolding flush_from advanced set_queue
  flush_sends r h a =
      rw (h, send_popped_accepted env t r (set_queue d rest w) a)
        (after-prepend r (flush_from env t d rest (after_send env t r (set_queue d rest w))))

  pub flush_stops :
      (r : CommandRecord)
      → advanced env CommandEvent.reconnect_flush q.command_id w ≡ some r
      → env.accepts t (command_mqtt_payload r) ≡ false
      → flush_from env t d (q ∷ rest) w ≡ (err CommandError.publish_failed, set_queue d rest w)
  unfolding flush_from advanced set_queue
  flush_stops r h a = rw (h, send_popped_refused env t r (set_queue d rest w) a)
