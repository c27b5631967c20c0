-- ===== src/Storage/Outbox/Pending.antt =====
-- What is pending under a coalesce key.
use lvos.Base.{
  ℕ, String, ◌≡◌, refl, ap, ◌∙◌, inl, inr, Bool, true, false, Option, none, some, List, [], ◌∷◌,
  ◌++◌, arith, ok, ◌==◌, string_eq, eq_iff, Bool-cases, >>=-eq-ok,
}
use lvos.Storage.Model.{ProfileDatabase, OutboxRow}
use lvos.Storage.Codec.{as_str}
use lvos.Storage.Outbox.{
  favorite_coalesce_key, is_coalesced, is_event, exists_row, find_row, update_rows, delete_rows,
  PendingOutbox, fresh_row, coalesced_row, write_outbox, upsert_outbox, optional_sqlite,
}

-- The intent that is pending for a favorite.
abbrev pub pending : ProfileDatabase → List ℕ → Option OutboxRow
pending db key = find_row (is_coalesced (favorite_coalesce_key key)) db.sync_outbox

abbrev pub changed : (OutboxRow → OutboxRow) → Option OutboxRow → Option OutboxRow
changed change none = none
changed change (some row) = some (change row)

abbrev pub has_key : String → Option String → Bool
has_key key none = false
has_key key (some own) = own == key

module _ (key : String) where
  pub find_row-update_rows :
      (change : OutboxRow → OutboxRow)
      → ((row : OutboxRow) → (change row).coalesce_key ≡ row.coalesce_key)
      → (rows : List OutboxRow)
      → find_row (is_coalesced key) (update_rows (is_coalesced key) change rows)
        ≡ changed change (find_row (is_coalesced key) rows)
  unfolding find_row update_rows
  find_row-update_rows change kept [] = refl
  find_row-update_rows change kept (row ∷ rows) =
      let same : is_coalesced key (change row) ≡ is_coalesced key row =
        ap (has_key key) (kept row) in
      ground (arith, same, find_row-update_rows change kept rows)

  pub find_row-delete_rows-none :
      (rows : List OutboxRow)
      → find_row (is_coalesced key) (delete_rows (is_coalesced key) rows) ≡ none
  unfolding find_row delete_rows
  find_row-delete_rows-none [] = refl
  find_row-delete_rows-none (row ∷ rows) = ground (arith, find_row-delete_rows-none rows)

module _ (test : OutboxRow → Bool) where
  find_row-exists_row :
      (rows : List OutboxRow)
      → exists_row test rows ≡ true
      → (row : OutboxRow) × (find_row test rows ≡ some row)
  unfolding find_row exists_row
  find_row-exists_row [] h = absurd (ground (arith, h))
  find_row-exists_row (row ∷ rows) h = elim (Bool-cases (test row)) [
    | inl hit ↦ (row, rw hit refl)
    | inr miss ↦
        let (found, there) = find_row-exists_row rows (ground (arith, h, miss)) in
        (found, rw miss there)
  ]

  find_row-append :
      (rows : List OutboxRow) (last : OutboxRow)
      → exists_row test rows ≡ false
      → test last ≡ true
      → find_row test (rows ++ last ∷ []) ≡ some last
  unfolding find_row exists_row
  find_row-append [] last h hit = rw hit refl
  find_row-append (row ∷ rows) last h hit =
      ground (arith, h, find_row-append rows last (ground (arith, h)) hit)

-- The row that an upsert leaves under its coalesce key.
pub record Pends (event : PendingOutbox) (revision : Option ℕ) (found : Option OutboxRow)
    : Type 0 where
  pub row : OutboxRow
  pub there : found ≡ some row
  pub event_id : row.event_id ≡ event.event_id
  pub operation : row.operation ≡ as_str event.operation
  pub base : row.base_entity_revision ≡ revision
  pub payload : row.payload_json ≡ some event.payload
  pub retry : row.next_retry_at ≡ none
  pub error : row.last_error ≡ none

write_outbox-Pends :
    (event : PendingOutbox) (revision : Option ℕ) (rows : List OutboxRow) {rows' : List OutboxRow}
    → write_outbox event revision rows ≡ ok rows'
    → Pends event revision (find_row (is_coalesced event.coalesce_key) rows')
unfolding write_outbox
write_outbox-Pends event revision rows {rows'} h =
    let key = event.coalesce_key in
    elim (Bool-cases (exists_row (is_event event.event_id) rows)) [
      | inl taken ↦ absurd (ground (arith, h, taken))
      | inr free ↦ elim (Bool-cases (exists_row (is_coalesced key) rows)) [
        | inl found ↦
            let change = coalesced_row event revision in
            let same : rows' ≡ update_rows (is_coalesced key) change rows =
              ground (arith, h, free, found) in
            let (row, there) = find_row-exists_row (is_coalesced key) rows found in
            record {
              row = change row;
              there =
                  ap (find_row (is_coalesced key)) same
                  ∙ find_row-update_rows key change (λ r. refl) rows
                  ∙ ap (changed change) there;
              event_id = refl;
              operation = refl;
              base = refl;
              payload = refl;
              retry = refl;
              error = refl;
            }
        | inr missing ↦
            let same : rows' ≡ rows ++ fresh_row event revision ∷ [] =
              ground (arith, h, free, missing) in
            record {
              row = fresh_row event revision;
              there =
                  ap (find_row (is_coalesced key)) same
                  ∙ find_row-append (is_coalesced key) rows (fresh_row event revision) missing
                      (ground (arith, eq_iff key key));
              event_id = refl;
              operation = refl;
              base = refl;
              payload = refl;
              retry = refl;
              error = refl;
            }
      ]
    ]

optional_sqlite_lem :
    (revision : Option ℕ) {value : Option ℕ}
    → optional_sqlite revision ≡ ok value
    → value ≡ revision
unfolding optional_sqlite
optional_sqlite_lem none h = ground (arith, h)
optional_sqlite_lem (some n) h = ground (arith, h)

pub upsert_outbox-Pends :
    (event : PendingOutbox) (db : ProfileDatabase) {db' : ProfileDatabase}
    → upsert_outbox event db ≡ ok db'
    → Pends event event.revision (find_row (is_coalesced event.coalesce_key) db'.sync_outbox)
unfolding upsert_outbox
upsert_outbox-Pends event db {db'} h =
    let (revision, fits, h1) = >>=-eq-ok (optional_sqlite event.revision) _ h in
    let (rows, written, h2) = >>=-eq-ok (write_outbox event revision db.sync_outbox) _ h1 in
    let same : db'.sync_outbox ≡ rows = ground (arith, h2) in
    let p = write_outbox-Pends event revision db.sync_outbox written in
    record {
      row = p.row;
      there = ap (find_row (is_coalesced event.coalesce_key)) same ∙ p.there;
      event_id = p.event_id;
      operation = p.operation;
      base = p.base ∙ optional_sqlite_lem event.revision fits;
      payload = p.payload;
      retry = p.retry;
      error = p.error;
    }

-- An outbox row is all that an event changes.
pub upsert_outbox-stats :
    (event : PendingOutbox) (db : ProfileDatabase) {db' : ProfileDatabase}
    → upsert_outbox event db ≡ ok db'
    → (db'.query_stats ≡ db.query_stats) × (db'.favorites ≡ db.favorites)
unfolding upsert_outbox
upsert_outbox-stats event db {db'} h =
    let (revision, fits, h1) = >>=-eq-ok (optional_sqlite event.revision) _ h in
    let (rows, stored, h2) = >>=-eq-ok (write_outbox event revision db.sync_outbox) _ h1 in
    (ground (arith, h2), ground (arith, h2))
