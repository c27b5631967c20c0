-- ===== src/Storage/Invariant/Renewed.antt =====
-- A new intent in a profile that the operations have led to.
use lvos.Base.{
  ℕ, ◌<◌, String, ◌≡◌, ◌≢◌, refl, ap, ◌∙◌, inl, inr, false, Option, none, some, List, [], ◌∷◌, ◌++◌,
  arith, ok, string_eq, eq_iff, i64_limit, >>=-eq-ok, Bool-cases, Option-cases, Result-cases,
}
use lvos.Base.Int.{ℤ}
use Prim.Native.String
use lvos.Core.Content.{key_text}
use lvos.Storage.Model.{ProfileDatabase, OutboxRow, OutboxOperation, QueryStats, Libraries}
use lvos.Storage.Codec.{as_str}
use lvos.Storage.Outbox.{
  PendingOutbox, is_event, is_coalesced, exists_row, find_row, update_rows, coalesced_row,
  fresh_row, write_outbox, upsert_outbox, optional_sqlite, upsert_favorite_event, favorite_event,
  favorite_payload, favorite_coalesce_key,
}
use lvos.Storage.Outbox.Unique.{AllDistinct}
use lvos.Storage.Outbox.Upsert.{upsert_outbox-AllDistinct}
use lvos.Storage.Outbox.Pending.{upsert_outbox-Pends}
use lvos.Storage.Invariant.Reached.{Reached, Reached-AllDistinct}

module _ (text key : String) (differ : text ≢ key) where
  find_row-update_rows_other :
      (event : PendingOutbox) (revision : Option ℕ) (rows : List OutboxRow)
      → find_row
          (is_coalesced text)
          (update_rows (is_coalesced key) (coalesced_row event revision) rows)
        ≡ find_row (is_coalesced text) rows
  unfolding find_row update_rows
  find_row-update_rows_other event revision [] = refl
  find_row-update_rows_other event revision (row ∷ rows) =
      let rest = find_row-update_rows_other event revision rows in
      elim (Option-cases row.coalesce_key) [
        | inl absent ↦ ground (arith, rest, absent)
        | inr (own, present) ↦
            ground (arith, rest, present, differ, eq_iff own key, eq_iff own text)
      ]

  find_row-append_other :
      (last : OutboxRow) (rows : List OutboxRow)
      → last.coalesce_key ≡ some key
      → find_row (is_coalesced text) (rows ++ last ∷ []) ≡ find_row (is_coalesced text) rows
  unfolding find_row
  find_row-append_other last [] own = ground (arith, own, differ, eq_iff key text)
  find_row-append_other last (row ∷ rows) own = ground (arith, find_row-append_other last rows own)

write_outbox-others :
    (event : PendingOutbox) (revision : Option ℕ) (rows : List OutboxRow) (text : String)
    {rows' : List OutboxRow}
    → text ≢ event.coalesce_key
    → write_outbox event revision rows ≡ ok rows'
    → find_row (is_coalesced text) rows' ≡ find_row (is_coalesced text) rows
unfolding write_outbox
write_outbox-others event revision rows text {rows'} differ h =
    let key = event.coalesce_key in
    elim (Bool-cases (exists_row (is_event event.event_id) rows)) [
      | inl taken ↦ absurd (ground (arith, h, taken))
      | inr free ↦ elim (Bool-cases (exists_row (is_coalesced key) rows)) [
        | inl found ↦
            let same : rows' ≡ update_rows (is_coalesced key) (coalesced_row event revision) rows =
              ground (arith, h, free, found) in
            ap (find_row (is_coalesced text)) same
            ∙ find_row-update_rows_other text key differ event revision rows
        | inr missing ↦
            let same : rows' ≡ rows ++ fresh_row event revision ∷ [] =
              ground (arith, h, free, missing) in
            ap (find_row (is_coalesced text)) same
            ∙ find_row-append_other text key differ (fresh_row event revision) rows refl
      ]
    ]

upsert_outbox-others :
    (event : PendingOutbox) (db : ProfileDatabase) (text : String) {db' : ProfileDatabase}
    → text ≢ event.coalesce_key
    → upsert_outbox event db ≡ ok db'
    → find_row (is_coalesced text) db'.sync_outbox ≡ find_row (is_coalesced text) db.sync_outbox
unfolding upsert_outbox
upsert_outbox-others event db text {db'} differ h =
    let (revision, fits, h1) = >>=-eq-ok (optional_sqlite event.revision) _ h in
    let (rows, written, h2) = >>=-eq-ok (write_outbox event revision db.sync_outbox) _ h1 in
    let same : db'.sync_outbox ≡ rows = ground (arith, h2) in
    ap (find_row (is_coalesced text)) same
    ∙ write_outbox-others event revision db.sync_outbox text differ written

upsert_outbox-total :
    (event : PendingOutbox) (db : ProfileDatabase) (revision : ℕ)
    → event.revision ≡ some revision
    → revision < i64_limit
    → exists_row (is_event event.event_id) db.sync_outbox ≡ false
    → (db' : ProfileDatabase) × (upsert_outbox event db ≡ ok db')
unfolding upsert_outbox optional_sqlite write_outbox
upsert_outbox-total event db revision own fits fresh =
    elim (Result-cases (upsert_outbox event db)) [
      | inl done ↦ done
      | inr (e, failed) ↦ absurd (ground (arith, failed, own, fits, fresh))
    ]

-- The text that one favorite's intents have in common.
abbrev pub intent_of : List ℕ → String
intent_of key = String.◌++◌ "favorite:" (key_text key)

-- The favorite has the new intent, and only this one; it is ready; the others are as they were.
pub record Renewed (key : List ℕ) (fresh_id printed : String) (intended : OutboxOperation)
    (revision : ℕ) (before after : List OutboxRow) : Type 0 where
  pub row : OutboxRow
  pub there : find_row (is_coalesced (intent_of key)) after ≡ some row
  pub event_id : row.event_id ≡ fresh_id
  pub operation : row.operation ≡ as_str intended
  pub payload : row.payload_json ≡ some printed
  pub base : row.base_entity_revision ≡ some revision
  pub retry : row.next_retry_at ≡ none
  pub error : row.last_error ≡ none
  pub others :
      (text : String)
      → text ≢ intent_of key
      → find_row (is_coalesced text) after ≡ find_row (is_coalesced text) before
  pub distinct : AllDistinct after

-- However the operations of a profile follow each other, and whether they are refused, fail or
-- commit, a new intent for a favorite, with an event identifier that is not in the outbox, a
-- payload that can be printed and a revision that fits `i64`, is taken: it is what is pending for
-- the favorite then, in place of an intent that was pending before, and is not held back by that
-- one's retry time or error. What is pending under any other coalesce key stays, and no event and
-- no coalesce key stands twice in the outbox.
pub upsert_favorite_event-Renewed :
    (libraries : Libraries) {db : ProfileDatabase} (event_id : String) (key : List ℕ)
    (desired_state : String) (revision : ℕ) (stats : QueryStats) (now : ℤ)
    (operation : OutboxOperation) {payload : String}
    → Reached libraries db
    → exists_row (is_event event_id) db.sync_outbox ≡ false
    → libraries.favorite_json (favorite_payload key desired_state revision stats) ≡ some payload
    → revision < i64_limit
    → (db' : ProfileDatabase) × (upsert_favorite_event libraries event_id db key desired_state
          revision stats now operation
        ≡ ok db')
      × Renewed key event_id payload operation revision db.sync_outbox db'.sync_outbox
unfolding upsert_favorite_event favorite_coalesce_key
upsert_favorite_event-Renewed libraries {db} event_id key desired_state revision stats now operation
      {payload} r fresh printed fits =
    let event = favorite_event event_id key payload revision now operation in
    let (db', done) = upsert_outbox-total event db revision refl fits fresh in
    let p = upsert_outbox-Pends event db done in
    (
      db',
      rw printed done,
      record {
        row = p.row;
        there = p.there;
        event_id = p.event_id;
        operation = p.operation;
        payload = p.payload;
        base = p.base;
        retry = p.retry;
        error = p.error;
        others = λ text differ. upsert_outbox-others event db text differ done;
        distinct = upsert_outbox-AllDistinct event db done (Reached-AllDistinct libraries r);
      },
    )
