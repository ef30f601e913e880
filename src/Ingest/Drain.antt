-- ===== src/Ingest/Drain.antt =====
-- What one `process_batch` does to the queue and to the hypertable.
use iotaps.Common.{
  ℕ, zero, suc, ◌-◌, ◌≤◌, ◌≡◌, refl, ap, sym, ◌∙◌, Option, none, some, List, [], ◌∷◌, ◌++◌, arith,
  length, take, drop, ltb, Bool-cases, inl, inr, take_all, drop_all, length-append, ◌+◌,
}
use iotaps.Common.Exec.{ok, err}
use iotaps.Ingest.Listener.{max_queue_size}
use iotaps.Ingest.Batch.{
  RowKey, WriteError, Pipeline, Surroundings, parse_all, insert_rows, insert_telemetry,
  process_batch, write_batch, trim, arrive, pushed,
}

-- Messages arrive only while the batch is written.
abbrev pub writing_while : {R : Type 0} → List R → Option WriteError → Surroundings R
writing_while new failure = record {
  before_backlog = [];
  before_reread = [];
  before_trim = new;
  write_error = failure;
}

abbrev pub quiet : {R : Type 0} → Option WriteError → Surroundings R
quiet failure = writing_while [] failure

-- The pipeline after its whole queue was written.
abbrev pub drained : {R E : Type 0} → (R → Option E) → (E → RowKey) → Pipeline R E → Pipeline R E
drained parse row_key p = record {
  queue = [];
  rows = insert_rows parse row_key (parse_all parse row_key p.queue) p.rows;
}

pushed-append :
    {R : Type 0} (new' new q : List R) → pushed (new' ++ new) q ≡ pushed new' (pushed new q)
pushed-append [] new q = refl
pushed-append (m ∷ new') new q = ap (λ x. take max_queue_size (m ∷ x)) (pushed-append new' new q)

-- Where there is room, nothing is trimmed.
pushed_room :
    {R : Type 0} (new q : List R) → length new + length q ≤ max_queue_size → pushed new q ≡ new ++ q
pushed_room [] q h = refl
pushed_room (m ∷ new) q h =
    ap (λ x. take max_queue_size (m ∷ x)) (pushed_room new q (omega arith))
    ∙ take_all max_queue_size (m ∷ new ++ q) (omega (arith, length-append new q))

module _ {R E : Type 0} (parse : R → Option E) (row_key : E → RowKey) where
  insert_telemetry-none :
      (es : List E) (p : Pipeline R E)
      → insert_telemetry parse row_key none es p
        ≡ (ok tt, record p { rows = insert_rows parse row_key es p.rows })
  unfolding insert_telemetry insert_rows
  insert_telemetry-none [] p = refl
  insert_telemetry-none (e ∷ es) p = refl

  write_batch-none :
      (r : R) (rest : List R) (new : List R) (rows : List E)
      → let batch = r ∷ rest in
        write_batch parse row_key
          (writing_while new none)
          batch
          (record { queue = batch; rows = rows })
        ≡ (
          ok (length batch),
          record {
            queue = drop (length batch) (pushed new batch);
            rows = insert_rows parse row_key (parse_all parse row_key batch) rows;
          },
        )
  write_batch-none r rest new rows = ap (trim parse row_key (length (r ∷ rest))) (
      insert_telemetry-none (parse_all parse row_key (r ∷ rest))
        (record { queue = pushed new (r ∷ rest); rows = rows }))

  write_batch-quiet :
      (q : List R) (rows : List E)
      → write_batch parse row_key (quiet none) q (record { queue = q; rows = rows })
        ≡ (ok (length q), drained parse row_key (record { queue = q; rows = rows }))
  write_batch-quiet [] rows = unfold parse_all insert_rows in refl
  write_batch-quiet (r ∷ rest) rows =
      rw (write_batch-none r rest [] rows, drop_all (length rest) rest (omega arith))

  write_batch-refused :
      (failure : WriteError) (q : List R) (rows : List E) (e : E) (es : List E)
      → parse_all parse row_key q ≡ e ∷ es
      → write_batch parse row_key (quiet (some failure)) q (record { queue = q; rows = rows })
        ≡ (err failure, record { queue = q; rows = rows })
  write_batch-refused failure [] rows e es h = absurd (unfold parse_all in ground arith)
  write_batch-refused failure (r ∷ rest) rows e es h = rw h (unfold insert_telemetry in refl)

  -- The batch that is read is the whole queue, however long it is.
  process_batch-no_arrivals :
      (n : ℕ) (new : List R) (failure : Option WriteError) (p : Pipeline R E)
      → process_batch parse row_key n (writing_while new failure) p
        ≡ write_batch parse row_key (writing_while new failure) p.queue p
  unfolding process_batch
  process_batch-no_arrivals n new failure p = elim (Bool-cases (ltb n (length p.queue))) [
    | inl h ↦ rw (h, take_all (length p.queue) p.queue (omega arith))
    | inr h ↦ rw (h, take_all n p.queue (ground arith))
  ]

  -- When nothing arrives meanwhile and the database accepts the write, one `process_batch` with any
  -- batch size empties the queue, returns its length, and leaves in the hypertable exactly what
  -- inserting every parsable message of the queue leaves there.
  pub process_batch-drains :
      (n : ℕ) (p : Pipeline R E)
      → process_batch parse row_key n (quiet none) p
        ≡ (ok (length p.queue), drained parse row_key p)
  process_batch-drains n p =
      process_batch-no_arrivals n [] none p ∙ write_batch-quiet p.queue p.rows

  pub process_batch-refused :
      (n : ℕ) (failure : WriteError) (p : Pipeline R E) (e : E) (es : List E)
      → parse_all parse row_key p.queue ≡ e ∷ es
      → process_batch parse row_key n (quiet (some failure)) p ≡ (err failure, p)
  process_batch-refused n failure p e es h =
      process_batch-no_arrivals n [] (some failure) p
      ∙ write_batch-refused failure p.queue p.rows e es h

  -- The queue of `p'` is that of `p` after messages have been pushed.
  abbrev pub Kept : Pipeline R E → Pipeline R E → Type 0
  Kept p p' = (new : List R) × (p'.queue ≡ pushed new p.queue) × (p'.rows ≡ p.rows)

  insert_telemetry-err :
      (failure : Option WriteError) (es : List E) (p p' : Pipeline R E) (n : ℕ) (e : WriteError)
      → trim parse row_key n (insert_telemetry parse row_key failure es p) ≡ (err e, p')
      → (failure ≡ some e) × (p' ≡ p)
  unfolding insert_telemetry
  insert_telemetry-err failure [] p p' n e h = ground arith
  insert_telemetry-err none (x ∷ es) p p' n e h = ground arith
  insert_telemetry-err (some failure) (x ∷ es) p p' n e h = ground arith

  write_batch-err :
      (around : Surroundings R) (batch : List R) (p p' : Pipeline R E) (e : WriteError)
      → write_batch parse row_key around batch p ≡ (err e, p')
      → (around.write_error ≡ some e) × (p' ≡ arrive parse row_key around.before_trim p)
  write_batch-err around [] p p' e h = ground arith
  write_batch-err around (r ∷ rest) p p' e h =
      insert_telemetry-err around.write_error (parse_all parse row_key (r ∷ rest))
        (arrive parse row_key around.before_trim p) p' (length (r ∷ rest)) e h

  Kept-trans : (p p' p'' : Pipeline R E) → Kept p p' → Kept p' p'' → Kept p p''
  Kept-trans p p' p'' (new, q, rows) (new', q', rows') = (
    new' ++ new,
    q' ∙ ap (λ x. pushed new' x) q ∙ sym (pushed-append new' new p.queue),
    rows' ∙ rows,
  )

  Kept-batch :
      (around : Surroundings R) (batch new : List R) (p p' : Pipeline R E) (e : WriteError)
      → write_batch parse row_key around batch (arrive parse row_key new p) ≡ (err e, p')
      → (around.write_error ≡ some e) × Kept p p'
  Kept-batch around batch new p p' e h =
      let p1 = arrive parse row_key new p in
      let (cause, same) = write_batch-err around batch p1 p' e h in
      (
        cause,
        Kept-trans p p1 p' (new, refl, refl)
            (around.before_trim, ap (λ x. x.queue) same, ap (λ x. x.rows) same),
      )

  -- Whatever arrives meanwhile, a `process_batch` that fails does so with the error of the database,
  -- leaves the hypertable as it was, and removes nothing from the queue: it is as the pushes and trims
  -- of what arrived have left it.
  pub process_batch_failed :
      (n : ℕ) (around : Surroundings R) (p p' : Pipeline R E) (e : WriteError)
      → process_batch parse row_key n around p ≡ (err e, p')
      → (around.write_error ≡ some e) × Kept p p'
  unfolding process_batch
  process_batch_failed n around p p' e h =
      let p1 = arrive parse row_key around.before_backlog p in
      elim (Bool-cases (ltb n (length p1.queue))) [
        | inl big ↦
            (let (cause, kept) =
                Kept-batch around (take (length p1.queue) (pushed around.before_reread p1.queue))
                  around.before_reread p1 p' e (rw big at h) in
              (cause, Kept-trans p p1 p' (around.before_backlog, refl, refl) kept))
        | inr small ↦
            Kept-batch around (take n p.queue) around.before_backlog p p' e (rw small at h)
      ]

  drop-append :
      (n : ℕ) (xs ys : List R) → length xs ≤ n → drop n (xs ++ ys) ≡ drop (n - length xs) ys
  drop-append n [] ys h = ap (λ k. drop k ys) (omega arith)
  drop-append zero (x ∷ xs) ys h = absurd (omega arith)
  drop-append (suc n) (x ∷ xs) ys h =
      let same : n - length xs ≡ suc n - suc (length xs) = omega arith in
      drop-append n xs ys (omega arith) ∙ ap (λ k. drop k ys) same

  -- Messages that arrive while a batch is written are lost when the batch is removed, if they are no
  -- more than the batch and the queue has room for both, so that the listener trims nothing: nothing of them is left in the queue and nothing was written, and as many
  -- messages of the batch, its oldest, stay in the queue in their place.
  pub process_batch_loses_arrivals :
      (n : ℕ) (new : List R) (r : R) (rest : List R) (rows : List E)
      → length new ≤ length (r ∷ rest)
      → length new + length (r ∷ rest) ≤ max_queue_size
      → let batch = r ∷ rest in
        process_batch parse row_key n
          (writing_while new none)
          (record { queue = batch; rows = rows })
        ≡ (
          ok (length batch),
          record {
            queue = drop (length batch - length new) batch;
            rows = insert_rows parse row_key (parse_all parse row_key batch) rows;
          },
        )
  process_batch_loses_arrivals n new r rest rows h room =
      process_batch-no_arrivals n new none (record { queue = r ∷ rest; rows = rows })
      ∙ write_batch-none r rest new rows
      ∙ ap
          (λ q. (
            ok (length (r ∷ rest)),
            record {
              queue = q;
              rows = insert_rows parse row_key (parse_all parse row_key (r ∷ rest)) rows;
            },
          ))
          (ap (λ q. drop (length (r ∷ rest)) q) (pushed_room new (r ∷ rest) room)
            ∙ drop-append (length (r ∷ rest)) new (r ∷ rest) h)
