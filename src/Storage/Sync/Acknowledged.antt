-- ===== src/Storage/Sync/Acknowledged.antt =====
-- What acknowledgements and retries do to the outbox.
use lvos.Base.{
  ℕ, String, ◌≡◌, refl, ap, ◌∙◌, inl, inr, Bool, true, false, ◌||◌, Option, none, some, List, [],
  ◌∷◌, arith, ok, guard, ◌==◌, string_eq, eq_iff, if◌then◌else◌, >>=-eq-ok, Bool-cases,
  Option-cases,
}
use lvos.Base.Int.{ℤ}
use lvos.Core.Content.{key_text}
use lvos.Storage.Model.{
  ProfileDatabase, OutboxRow, OutboxEvent, AcknowledgedEvent, StorageResult, invalid_data,
  Libraries,
}
use lvos.Storage.Codec.{sqlite_i64}
use lvos.Storage.Outbox.{is_event, find_row, update_rows, delete_rows}
use lvos.Storage.Outbox.Unique.{
  Settles, Settles-refl, Settles-trans, Settles-same, delete_rows-Settles, update_rows-Settles,
}
use lvos.Storage.Profile.{transact-cases, transact-ok}
use lvos.Storage.Remote.Keeps.{Keeps, Keeps-refl, update_aggregate-Keeps}
use lvos.Storage.Sync.{
  is_newer_intent, based_row, acknowledge_revision, acknowledge_stats, acknowledge_event,
  acknowledge_loop, acknowledge_transaction, acknowledge_events, retry_loop, retried_row,
  mark_retry, bounded_error,
}

-- A row up to the revision that it is based on.
abbrev pub unbased : Option OutboxRow → Option OutboxRow
unbased none = none
unbased (some row) = some (record row { base_entity_revision = none })

find_row-delete_rows :
    (event_id gone : String) (rows : List OutboxRow)
    → find_row (is_event event_id) (delete_rows (is_event gone) rows)
      ≡ (if gone == event_id then none else find_row (is_event event_id) rows)
unfolding find_row delete_rows
find_row-delete_rows event_id gone [] = ground arith
find_row-delete_rows event_id gone (row ∷ rows) = ground (
  arith,
  find_row-delete_rows event_id gone rows,
  eq_iff row.event_id gone,
  eq_iff row.event_id event_id,
  eq_iff gone event_id,
)

find_row-based_row :
    (event_id : String) (test : OutboxRow → Bool) (revision : ℕ) (rows : List OutboxRow)
    → unbased (find_row (is_event event_id) (update_rows test (based_row revision) rows))
      ≡ unbased (find_row (is_event event_id) rows)
unfolding find_row update_rows
find_row-based_row event_id test revision [] = refl
find_row-based_row event_id test revision (row ∷ rows) =
    let rest = find_row-based_row event_id test revision rows in
    elim (Bool-cases (test row)) [
      | inl hit ↦ elim (Bool-cases (is_event event_id row)) [
        | inl own ↦ rw (hit, own) refl
        | inr other ↦ rw (hit, other) rest
      ]
      | inr miss ↦ elim (Bool-cases (is_event event_id row)) [
        | inl own ↦ rw (miss, own) refl
        | inr other ↦ rw (miss, other) rest
      ]
    ]

-- One of the acknowledged events has this identifier.
abbrev pub answered : Libraries → List AcknowledgedEvent → String → Bool
answered libraries [] event_id = false
answered libraries (item ∷ items) event_id =
    libraries.uuid_text item.event.event_id == event_id || answered libraries items event_id

-- What one acknowledgement does to the outbox.
record Acknowledged (event_id : String) (before after : List OutboxRow) : Type 0 where
  settles : Settles before after
  found :
      (id : String)
      → unbased (find_row (is_event id) after)
        ≡ (if event_id == id then none else unbased (find_row (is_event id) before))

acknowledge_revision-outbox :
    (db : ProfileDatabase) (key : List ℕ) (event_id : String) (revision : Option ℕ)
    {db' : ProfileDatabase}
    → acknowledge_revision db key event_id revision ≡ ok db'
    → Settles db.sync_outbox db'.sync_outbox
      × ((id : String)
          → unbased (find_row (is_event id) db'.sync_outbox)
            ≡ unbased (find_row (is_event id) db.sync_outbox))
unfolding acknowledge_revision
acknowledge_revision-outbox db key event_id none {db'} h =
    let same : db' ≡ db = ground (arith, h) in rw same (Settles-refl db.sync_outbox, λ id. refl)
acknowledge_revision-outbox db key event_id (some entity_revision) {db'} h =
    let (revision, fits, h1) = >>=-eq-ok (sqlite_i64 entity_revision) _ h in
    let test = is_newer_intent (key_text key) event_id in
    let same : db'.sync_outbox ≡ update_rows test (based_row revision) db.sync_outbox =
      ground (arith, h1) in
    rw same (
      update_rows-Settles (based_row revision) (λ row. (refl, refl)) test db.sync_outbox,
      λ id. find_row-based_row id test revision db.sync_outbox,
    )

acknowledge_stats-Keeps :
    (db : ProfileDatabase) (item : AcknowledgedEvent) (now : ℤ) {db' : ProfileDatabase}
    → acknowledge_stats db item now ≡ ok db'
    → Keeps db db'
unfolding acknowledge_stats
acknowledge_stats-Keeps db item now {db'} h =
    elim (Option-cases item.acknowledgement.aggregate_query_stats) [
      | inl absent ↦ let same : db' ≡ db = ground (arith, h, absent) in rw same (Keeps-refl db)
      | inr (aggregate, present) ↦
          update_aggregate-Keeps db item.event.content_key aggregate item.sent_query_count now
            (ground (arith, h, present))
    ]

acknowledge_event-Acknowledged :
    (libraries : Libraries) (db : ProfileDatabase) (item : AcknowledgedEvent) (now : ℤ)
    {db' : ProfileDatabase}
    → acknowledge_event libraries db item now ≡ ok db'
    → Acknowledged (libraries.uuid_text item.event.event_id) db.sync_outbox db'.sync_outbox
unfolding acknowledge_event
acknowledge_event-Acknowledged libraries db item now {db'} h =
    let event_id = libraries.uuid_text item.event.event_id in
    let (own, tested, h1) =
      >>=-eq-ok
        (guard (item.acknowledgement.event_id == event_id)
          (invalid_data "acknowledgement event mismatch"))
        _ h in
    let (based, first, h2) =
      >>=-eq-ok
        (acknowledge_revision db item.event.content_key event_id
          item.acknowledgement.entity_revision)
        _ h1 in
    let (counted, second, h3) = >>=-eq-ok (acknowledge_stats based item now) _ h2 in
    let (settles, found) =
      acknowledge_revision-outbox db item.event.content_key event_id
        item.acknowledgement.entity_revision first in
    let kept = (acknowledge_stats-Keeps based item now second).outbox in
    let same : db'.sync_outbox ≡ delete_rows (is_event event_id) based.sync_outbox =
      ground (arith, h3) ∙ ap (delete_rows (is_event event_id)) kept in
    rw same (record {
      settles = Settles-trans settles (delete_rows-Settles (is_event event_id) based.sync_outbox);
      found = λ id. ground (arith, find_row-delete_rows id event_id based.sync_outbox, found id);
    })

acknowledge_loop-Settles :
    (libraries : Libraries) (db : ProfileDatabase) (items : List AcknowledgedEvent) (now : ℤ)
    {db' : ProfileDatabase}
    → acknowledge_loop libraries db items now ≡ ok db'
    → Settles db.sync_outbox db'.sync_outbox
unfolding acknowledge_loop
acknowledge_loop-Settles libraries db [] now {db'} h =
    let same : db' ≡ db = ground (arith, h) in
    Settles-same (ap (λ (d : ProfileDatabase). d.sync_outbox) same)
acknowledge_loop-Settles libraries db (item ∷ items) now h =
    let (db1, first, h1) = >>=-eq-ok (acknowledge_event libraries db item now) _ h in
    Settles-trans (acknowledge_event-Acknowledged libraries db item now first).settles
      (acknowledge_loop-Settles libraries db1 items now h1)

acknowledge_loop-found :
    (libraries : Libraries) (db : ProfileDatabase) (items : List AcknowledgedEvent) (now : ℤ)
    (id : String) {db' : ProfileDatabase}
    → acknowledge_loop libraries db items now ≡ ok db'
    → unbased (find_row (is_event id) db'.sync_outbox) ≡ (
        if answered libraries items id
        then none
        else unbased (find_row (is_event id) db.sync_outbox))
unfolding acknowledge_loop
acknowledge_loop-found libraries db [] now id {db'} h =
    let same : db' ≡ db = ground (arith, h) in
    ap (λ (d : ProfileDatabase). unbased (find_row (is_event id) d.sync_outbox)) same
acknowledge_loop-found libraries db (item ∷ items) now id h =
    let (db1, first, h1) = >>=-eq-ok (acknowledge_event libraries db item now) _ h in
    ground (
      arith,
      (acknowledge_event-Acknowledged libraries db item now first).found id,
      acknowledge_loop-found libraries db1 items now id h1,
    )

-- After acknowledgements were taken over, exactly the acknowledged events have left the outbox.
-- Every other event is there if it was there before, and differs at most in the revision that it is
-- based on: a newer intent for the same favorite is not lost.
pub acknowledge_events-found :
    (libraries : Libraries) (committed : Bool) (db : ProfileDatabase)
    (items : List AcknowledgedEvent) (now : ℤ) (id : String) {db' : ProfileDatabase}
    → acknowledge_events libraries committed db items now ≡ (ok tt, db')
    → unbased (find_row (is_event id) db'.sync_outbox) ≡ (
        if answered libraries items id
        then none
        else unbased (find_row (is_event id) db.sync_outbox))
unfolding acknowledge_events acknowledge_transaction
acknowledge_events-found libraries committed db items now id {db'} h =
    let whole = transact-ok committed db (acknowledge_transaction libraries db items now) h in
    let (reached, looped, h1) = >>=-eq-ok (acknowledge_loop libraries db items now) _ whole in
    let same : db'.sync_outbox ≡ reached.sync_outbox = ground (arith, h1) in
    ap (λ (rows : List OutboxRow). unbased (find_row (is_event id) rows)) same
    ∙ acknowledge_loop-found libraries db items now id looped

retry_loop-Settles :
    (libraries : Libraries) (rows : List OutboxRow) (events : List OutboxEvent) (next_retry_at : ℤ)
    (message : String) (now : ℤ)
    → Settles rows (retry_loop libraries rows events next_retry_at message now)
unfolding retry_loop
retry_loop-Settles libraries rows [] next_retry_at message now = Settles-refl rows
retry_loop-Settles libraries rows (event ∷ events) next_retry_at message now =
    let test = is_event (libraries.uuid_text event.event_id) in
    let change = retried_row next_retry_at message now in
    Settles-trans (update_rows-Settles change (λ row. (refl, refl)) test rows)
      (retry_loop-Settles libraries (update_rows test change rows) events next_retry_at message now)

pub acknowledge_events-Settles :
    (libraries : Libraries) (committed : Bool) (db : ProfileDatabase)
    (items : List AcknowledgedEvent) (now : ℤ)
    → Settles db.sync_outbox (acknowledge_events libraries committed db items now).1.sync_outbox
unfolding acknowledge_events acknowledge_transaction
acknowledge_events-Settles libraries committed db items now =
    transact-cases
      (λ (r : StorageResult (Unit {0}) × ProfileDatabase). Settles db.sync_outbox r.1.sync_outbox)
      committed db (acknowledge_transaction libraries db items now)
      (λ e. Settles-refl db.sync_outbox)
      (λ done h.
        let (reached, looped, h1) = >>=-eq-ok (acknowledge_loop libraries db items now) _ h in
        let same : done.1.sync_outbox ≡ reached.sync_outbox = ground (arith, h1) in
        rw same (acknowledge_loop-Settles libraries db items now looped))

pub mark_retry-Settles :
    (libraries : Libraries) (committed : Bool) (db : ProfileDatabase) (events : List OutboxEvent)
    (next_retry_at : ℤ) (error : String) (now : ℤ)
    → Settles db.sync_outbox
        (mark_retry libraries committed db events next_retry_at error now).1.sync_outbox
unfolding mark_retry
mark_retry-Settles libraries true db events next_retry_at error now =
    retry_loop-Settles libraries db.sync_outbox events next_retry_at (bounded_error error) now
mark_retry-Settles libraries false db events next_retry_at error now = Settles-refl db.sync_outbox
