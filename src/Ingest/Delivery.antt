-- ===== src/Ingest/Delivery.antt =====
-- A reading's way from the handler through the queue into the hypertable.
use text.Mathlib.Text.{◌==◌ as str_eq}
use iotaps.Common.{
  ℕ, ◌≤◌, ◌≡◌, refl, Bool-cases, inl, inr, sym, ap, subst, ◌∙◌, String, Bool, true, false, Option,
  none, some, List, [], ◌∷◌, arith, length, take, length-take,
}
use iotaps.Json.{string, Fields}
use iotaps.Plans.Quota.{MessageType}
use iotaps.Ingest.Envelope.{
  Reading, Envelope, validate_telemetry_payload, encode_envelope, parse_envelope,
}
use iotaps.Common.Text.{is_blank}
use iotaps.Ingest.RoundTrip.{parse-encode-validated}
use iotaps.Ingest.Batch.{RowKey, process_batch, parse_all, insert_rows, has_key}
use iotaps.Ingest.Drain.{quiet, process_batch-drains}
use iotaps.Ingest.Rows.{insert-AllStored}
use iotaps.Ingest.Listener.{
  assign_key, Listener, ListenerEnv, max_queue_size, resolve_device_uuid, discover, deliver,
  count_quota, accept, handle_reading, handle_telemetry,
}

-- `_parse_envelope` of what the queue holds.
abbrev pub read_envelope : {N : Type 0} → Fields N → Option (Envelope N)
read_envelope raw = parse_envelope (some raw)

-- The envelope of a reading.
abbrev pub envelope_from : {N : Type 0} → String → String → Reading N → Envelope N
envelope_from org device r = record {
  org_id = string org;
  device_id = device;
  ts = r.ts;
  readings = r.readings;
}

-- The columns that the insert takes from an envelope.
unfoldable pub envelope_key : {N : Type 0} → Envelope N → RowKey
envelope_key e = record { device_id = e.device_id; ts = e.ts }

module _ {N : Type 0} where
  discover-queue :
      (up : Bool) (device : String) (readings : Fields N) (s : Listener N)
      → (discover up device readings s).queue ≡ s.queue
  unfolding discover
  discover-queue true device readings s = refl
  discover-queue false device readings s = refl

  discover-latest :
      (up : Bool) (device : String) (readings : Fields N) (s : Listener N)
      → (discover up device readings s).latest ≡ s.latest
  unfolding discover
  discover-latest true device readings s = refl
  discover-latest false device readings s = refl

  looked_up-queue :
      (db_up : Bool) (token : String) (s : Listener N)
      → (resolve_device_uuid db_up token s).1.queue ≡ s.queue
  unfolding resolve_device_uuid
  looked_up-queue db_up token s = ground arith

  looked_up-latest :
      (db_up : Bool) (token : String) (s : Listener N)
      → (resolve_device_uuid db_up token s).1.latest ≡ s.latest
  unfolding resolve_device_uuid
  looked_up-latest db_up token s = ground arith

module _ {N : Type 0} where
  read_first :
      (e : Envelope N) (older : List (Fields N))
      → parse_envelope (some (encode_envelope e)) ≡ some e
      → (row_key : Envelope N → RowKey)
      → parse_all read_envelope row_key (encode_envelope e ∷ older)
        ≡ e ∷ parse_all read_envelope row_key older
  unfolding parse_all
  read_first e older h row_key = rw (h, parse_all)

module _ {N : Type 0} (org_number : String → ℕ) where
  count_quota-queue :
      (env : ListenerEnv) (org : String) (type : MessageType) (s : Listener N)
      → (count_quota org_number env org type s).queue ≡ s.queue
  unfolding count_quota
  count_quota-queue env org type s = elim (Bool-cases env.quota_up) [
    | inl up ↦ (rw up refl)
    | inr down ↦ (rw down refl)
  ]

  count_quota-latest :
      (env : ListenerEnv) (org : String) (type : MessageType) (s : Listener N)
      → (count_quota org_number env org type s).latest ≡ s.latest
  unfolding count_quota
  count_quota-latest env org type s = elim (Bool-cases env.quota_up) [
    | inl up ↦ (rw up refl)
    | inr down ↦ (rw down refl)
  ]

  accept-queue :
      (env : ListenerEnv) (org : String) (type : MessageType) (r : Reading N) (device : String)
      (s : Listener N)
      → (accept org_number env org type r (device, s)).queue
        ≡ take max_queue_size (encode_envelope (envelope_from org device r) ∷ s.queue)
  accept-queue env org type r device s =
      let sent = deliver env.publish_up (string org) device r s in
      count_quota-queue env org type (discover env.discovery_up device r.readings sent)
      ∙ discover-queue env.discovery_up device r.readings sent
      ∙ (unfold deliver in refl)

  accept-latest :
      (env : ListenerEnv) (org : String) (type : MessageType) (r : Reading N) (device : String)
      (s : Listener N)
      → (accept org_number env org type r (device, s)).latest ≡ assign_key device (some r) s.latest
  accept-latest env org type r device s =
      let sent = deliver env.publish_up (string org) device r s in
      count_quota-latest env org type (discover env.discovery_up device r.readings sent)
      ∙ discover-latest env.discovery_up device r.readings sent
      ∙ (unfold deliver in refl)

  handled :
      (env : ListenerEnv) (org token : String) (type : MessageType) (payload : Option (Fields N))
      (r : Reading N) (s : Listener N)
      → validate_telemetry_payload env.now payload ≡ some r
      → handle_telemetry org_number env org token type payload s
        ≡ (true, accept org_number env org type r (resolve_device_uuid env.db_up token s))
  unfolding handle_telemetry handle_reading
  handled env org token type payload r s v = rw v

  queued :
      (env : ListenerEnv) (org token : String) (type : MessageType) (payload : Option (Fields N))
      (r : Reading N) (s : Listener N)
      → validate_telemetry_payload env.now payload ≡ some r
      → (handle_telemetry org_number env org token type payload s).1.queue
        ≡ take max_queue_size (
            encode_envelope (envelope_from org (resolve_device_uuid env.db_up token s).0 r)
            ∷ s.queue)
  queued env org token type payload r s v =
      let (device, s1) = resolve_device_uuid env.db_up token s in
      ap (λ x. x.1.queue) (handled env org token type payload r s v)
      ∙ accept-queue env org type r device s1
      ∙ ap (λ q. take max_queue_size (encode_envelope (envelope_from org device r) ∷ q))
          (looked_up-queue env.db_up token s)

  -- Whatever the best-effort calls do, a payload that is valid is accepted: it becomes the latest value
  -- of the device that its token resolves to, and its envelope the newest entry of the queue, whose
  -- oldest entries beyond 10000 are dropped.
  pub handle_telemetry_lem :
      (env : ListenerEnv) (org token : String) (type : MessageType) (payload : Option (Fields N))
      (r : Reading N) (s : Listener N)
      → validate_telemetry_payload env.now payload ≡ some r
      → let (accepted, s') = handle_telemetry org_number env org token type payload s in
        let device = (resolve_device_uuid env.db_up token s).0 in
        (accepted ≡ true)
        × (s'.queue ≡ take max_queue_size (encode_envelope (envelope_from org device r) ∷ s.queue))
        × (length s'.queue ≤ max_queue_size)
        × (s'.latest ≡ assign_key device (some r) s.latest)
  handle_telemetry_lem env org token type payload r s v =
      let step = handled env org token type payload r s v in
      let (device, s1) = resolve_device_uuid env.db_up token s in
      let new_queue = encode_envelope (envelope_from org device r) ∷ s.queue in
      let queue = queued env org token type payload r s v in
      let cap : length (take max_queue_size new_queue) ≤ max_queue_size =
        omega (arith, length-take max_queue_size new_queue) in
      (
        ap (λ x. x.0) step,
        queue,
        subst (λ q. length q ≤ max_queue_size) (sym queue) cap,
        ap (λ x. x.1.latest) step
            ∙ accept-latest env org type r device s1
            ∙ ap (λ l. assign_key device (some r) l) (looked_up-latest env.db_up token s),
      )

  -- A valid payload reaches the hypertable: after its message has been handled, one undisturbed batch
  -- that the database accepts empties the queue, and a row
  -- of its device and its time is stored, for a device
  -- with a name and a time of arrival that is no blank text.
  pub telemetry_reaches_rows :
      (env : ListenerEnv) (org token : String) (type : MessageType) (payload : Option (Fields N))
      (r : Reading N) (s : Listener N) (n : ℕ) (rows : List (Envelope N))
      → is_blank env.now ≡ false
      → str_eq (resolve_device_uuid env.db_up token s).0 "" ≡ false
      → validate_telemetry_payload env.now payload ≡ some r
      → let s' = (handle_telemetry org_number env org token type payload s).1 in
        let e = envelope_from org (resolve_device_uuid env.db_up token s).0 r in
        let after =
          (process_batch read_envelope envelope_key n
            (quiet none)
            (record { queue = s'.queue; rows = rows })).1 in
        (after.queue ≡ []) × (has_key read_envelope envelope_key (envelope_key e) after.rows ≡ true)
  telemetry_reaches_rows env org token type payload r s n rows hn hd v =
      let (device, s1) = resolve_device_uuid env.db_up token s in
      let s' = (handle_telemetry org_number env org token type payload s).1 in
      let e = envelope_from org device r in
      let done =
        process_batch-drains read_envelope envelope_key n
          (record { queue = s'.queue; rows = rows }) in
      let older = take 9999 s.queue in
      let queue : s'.queue ≡ encode_envelope e ∷ older = queued env org token type payload r s v in
      let read =
        read_first e older (parse-encode-validated env.now device (string org) payload r hn hd v)
          envelope_key in
      let (stored, others) =
        insert-AllStored read_envelope envelope_key (e ∷ parse_all read_envelope envelope_key older)
          rows in
      (
        ap (λ x. x.1.queue) done,
        ap (λ x. has_key read_envelope envelope_key (envelope_key e) x.1.rows) done
            ∙ ap
                (λ q. has_key read_envelope envelope_key (envelope_key e) (
                  insert_rows read_envelope envelope_key (parse_all read_envelope envelope_key q)
                    rows))
                queue
            ∙ ap
                (λ es.
                  has_key read_envelope envelope_key (envelope_key e)
                    (insert_rows read_envelope envelope_key es rows))
                read
            ∙ stored,
      )
