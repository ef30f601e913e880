-- ===== src/Ingest/Rows.antt =====
-- The keys of the hypertable under the conflict clause of the insert.
use text.Mathlib.TextEquality.{eq_iff}
use iotaps.Common.{◌≡◌, refl, true, false, Option, List, [], ◌∷◌, arith, if◌then◌else◌, All}
use iotaps.Ingest.Batch.{RowKey, same_key, has_key, insert_rows}

same_key_refl : (k : RowKey) → same_key k k ≡ true
unfolding same_key
same_key_refl k = rw ((eq_iff k.device_id k.device_id).1 refl, (eq_iff k.ts k.ts).1 refl) refl

module _ {R E : Type 0} (parse : R → Option E) (row_key : E → RowKey) where
  abbrev insert_one : E → List E → List E
  insert_one e rows = if has_key parse row_key (row_key e) rows then rows else e ∷ rows

  -- Every key of the list is among the rows.
  abbrev pub AllStored : List E → List E → Type 0
  AllStored rows es = All (λ e. has_key parse row_key (row_key e) rows ≡ true) es

  -- No two rows have one key.
  abbrev pub Unique : List E → Type 0
  Unique [] = Unit
  Unique (e ∷ es) = (has_key parse row_key (row_key e) es ≡ false) × Unique es

  has_key-one :
      (k : RowKey) (e : E) (rows : List E)
      → has_key parse row_key k rows ≡ true
      → has_key parse row_key k (insert_one e rows) ≡ true
  unfolding has_key
  has_key-one k e rows h = ground arith

  one-has_key :
      (e : E) (rows : List E) → has_key parse row_key (row_key e) (insert_one e rows) ≡ true
  unfolding has_key
  one-has_key e rows = ground (arith, same_key_refl (row_key e))

  Unique-one : (e : E) (rows : List E) → Unique rows → Unique (insert_one e rows)
  Unique-one e rows u = ground arith

  has_key-insert :
      (k : RowKey) (es rows : List E)
      → has_key parse row_key k rows ≡ true
      → has_key parse row_key k (insert_rows parse row_key es rows) ≡ true
  unfolding insert_rows
  has_key-insert k [] rows h = h
  has_key-insert k (e ∷ es) rows h =
      has_key-insert k es (insert_one e rows) (has_key-one k e rows h)

  pub insert-AllStored : (es rows : List E) → AllStored (insert_rows parse row_key es rows) es
  unfolding insert_rows
  insert-AllStored [] rows = tt
  insert-AllStored (e ∷ es) rows = (
    has_key-insert (row_key e) es (insert_one e rows) (one-has_key e rows),
    insert-AllStored es (insert_one e rows),
  )

  insert-Unique : (es rows : List E) → Unique rows → Unique (insert_rows parse row_key es rows)
  unfolding insert_rows
  insert-Unique [] rows u = u
  insert-Unique (e ∷ es) rows u = insert-Unique es (insert_one e rows) (Unique-one e rows u)

  insert_stored : (es rows : List E) → AllStored rows es → insert_rows parse row_key es rows ≡ rows
  unfolding insert_rows
  insert_stored [] rows h = refl
  insert_stored (e ∷ es) rows (h, hs) = rw (h, insert_stored es rows hs)

  -- A batch inserted into a hypertable without two rows of one key leaves it without them, has every
  -- key of the batch stored, and inserted again, as after a crash between commit and trim, changes
  -- nothing.
  pub insert_rows_once :
      (es rows : List E)
      → Unique rows
      → let rows' = insert_rows parse row_key es rows in
        Unique rows' × AllStored rows' es × (insert_rows parse row_key es rows' ≡ rows')
  insert_rows_once es rows u =
      let stored = insert-AllStored es rows in
      (insert-Unique es rows u, stored, insert_stored es (insert_rows parse row_key es rows) stored)
