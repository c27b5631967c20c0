-- ===== src/Storage/Sync/Retry.antt =====
-- What a failed push leaves of the events that were sent.
use lvos.Base.{
  ℕ, suc, ◌+◌, ◌≤◌, String, ◌≡◌, ◌∙◌, ap, refl, inl, inr, Bool, true, false, Option, none, some,
  List, [], ◌∷◌, arith, ◌==◌, string_eq, eq_iff, if◌then◌else◌, Bool-cases,
}
use lvos.Base.Int.{ℤ, leb_ℤ}
use lvos.Storage.Model.{OutboxEvent, OutboxRow, ProfileDatabase, Libraries}
use lvos.Storage.Outbox.{is_event, find_row, update_rows}
use lvos.Storage.Outbox.Pending.{changed}
use lvos.Storage.Remote.{conflict_error}
use lvos.Storage.Sync.{is_ready, retried_row, retry_loop, bounded_error, mark_retry}

-- How often the event stands among those sent.
unfoldable pub times_sent : Libraries → String → List OutboxEvent → ℕ
times_sent libraries event_id [] = 0
times_sent libraries event_id (event ∷ events) =
    let rest = times_sent libraries event_id events in
    if libraries.uuid_text event.event_id == event_id then suc rest else rest

changed-same : (found : Option OutboxRow) → found ≡ changed (λ row. row) found
changed-same none = refl
changed-same (some row) = refl

changed-changed :
    (f g : OutboxRow → OutboxRow) (found : Option OutboxRow)
    → changed f (changed g found) ≡ changed (λ row. f (g row)) found
changed-changed f g none = refl
changed-changed f g (some row) = refl

module _ (next_retry_at : ℤ) (message : String) (now : ℤ) where
  abbrev retried_if : Bool → OutboxRow → OutboxRow
  retried_if true row = retried_row next_retry_at message now row
  retried_if false row = row

  find_row-update_rows_event :
      (sent event_id : String) (rows : List OutboxRow)
      → find_row
          (is_event event_id)
          (update_rows (is_event sent) (retried_row next_retry_at message now) rows)
        ≡ changed (retried_if (sent == event_id)) (find_row (is_event event_id) rows)
  unfolding find_row update_rows
  find_row-update_rows_event sent event_id [] = refl
  find_row-update_rows_event sent event_id (row ∷ rows) =
      let rest = find_row-update_rows_event sent event_id rows in
      elim (Bool-cases (sent == event_id)) [
        | inl same ↦ ground (
          arith,
          rest,
          same,
          eq_iff row.event_id sent,
          eq_iff row.event_id event_id,
          eq_iff sent event_id,
        )
        | inr other ↦ ground (
          arith,
          rest,
          other,
          eq_iff row.event_id sent,
          eq_iff row.event_id event_id,
          eq_iff sent event_id,
        )
      ]

  -- The row after all the events.
  unfoldable retried_by : Libraries → String → List OutboxEvent → OutboxRow → OutboxRow
  retried_by libraries event_id [] row = row
  retried_by libraries event_id (event ∷ events) row =
      retried_by libraries event_id events
        (retried_if (libraries.uuid_text event.event_id == event_id) row)

  find_row-retry_loop :
      (libraries : Libraries) (event_id : String) (events : List OutboxEvent)
      (rows : List OutboxRow)
      → find_row (is_event event_id) (retry_loop libraries rows events next_retry_at message now)
        ≡ changed (retried_by libraries event_id events) (find_row (is_event event_id) rows)
  unfolding retry_loop retried_by
  find_row-retry_loop libraries event_id [] rows = changed-same (find_row (is_event event_id) rows)
  find_row-retry_loop libraries event_id (event ∷ events) rows =
      let sent = libraries.uuid_text event.event_id in
      find_row-retry_loop libraries event_id events
        (update_rows (is_event sent) (retried_row next_retry_at message now) rows)
      ∙ ap (changed (retried_by libraries event_id events))
          (find_row-update_rows_event sent event_id rows)
      ∙ changed-changed (retried_by libraries event_id events) (retried_if (sent == event_id))
          (find_row (is_event event_id) rows)

  -- The row waits for the retry, with the error of the attempt.
  abbrev HasFailed : OutboxRow → Type 0
  HasFailed row = (row.next_retry_at ≡ some next_retry_at) × (row.last_error ≡ some message)

  retried_if-HasFailed :
      (hit : Bool) (row : OutboxRow) → HasFailed row → HasFailed (retried_if hit row)
  retried_if-HasFailed true row h = (refl, refl)
  retried_if-HasFailed false row h = h

  retried_if-attempts :
      (hit : Bool) (row : OutboxRow) (rest : ℕ)
      → (retried_if hit row).attempt_count + rest
        ≡ row.attempt_count + (if hit then suc rest else rest)
  retried_if-attempts true row rest = omega arith
  retried_if-attempts false row rest = refl

  module _ (libraries : Libraries) (event_id : String) where
    retried_by-HasFailed :
        (events : List OutboxEvent) (row : OutboxRow)
        → HasFailed row
        → HasFailed (retried_by libraries event_id events row)
    unfolding retried_by
    retried_by-HasFailed [] row h = h
    retried_by-HasFailed (event ∷ events) row h =
        let hit = libraries.uuid_text event.event_id == event_id in
        retried_by-HasFailed events (retried_if hit row) (retried_if-HasFailed hit row h)

    retried_by-hit :
        (hit : Bool) (events : List OutboxEvent) (row : OutboxRow) (rest : ℕ)
        → 1 ≤ (if hit then suc rest else rest)
        → (1 ≤ rest → HasFailed (retried_by libraries event_id events row))
        → HasFailed (retried_by libraries event_id events (retried_if hit row))
    retried_by-hit true events row rest h more =
        retried_by-HasFailed events (retried_row next_retry_at message now row) (refl, refl)
    retried_by-hit false events row rest h more = more h

    retried_by-sent :
        (events : List OutboxEvent) (row : OutboxRow)
        → 1 ≤ times_sent libraries event_id events
        → HasFailed (retried_by libraries event_id events row)
    unfolding retried_by times_sent
    retried_by-sent [] row h = absurd (omega (arith, h))
    retried_by-sent (event ∷ events) row h =
        retried_by-hit (libraries.uuid_text event.event_id == event_id) events row
          (times_sent libraries event_id events) h (retried_by-sent events row)

    retried_by-attempts :
        (events : List OutboxEvent) (row : OutboxRow)
        → (retried_by libraries event_id events row).attempt_count
          ≡ row.attempt_count + times_sent libraries event_id events
    unfolding retried_by times_sent
    retried_by-attempts [] row = omega arith
    retried_by-attempts (event ∷ events) row =
        let hit = libraries.uuid_text event.event_id == event_id in
        retried_by-attempts events (retried_if hit row)
        ∙ retried_if-attempts hit row (times_sent libraries event_id events)

-- The row of an event that was sent, after a failure.
pub record Retried (next_retry_at : ℤ) (sent : ℕ) (row : OutboxRow) (found : Option OutboxRow)
    : Type 0 where
  pub waiting : OutboxRow
  pub there : found ≡ some waiting
  pub attempts : waiting.attempt_count ≡ row.attempt_count + sent
  pub ready : (later : ℤ) → is_ready later waiting ≡ leb_ℤ next_retry_at later

-- After a failed push every event that was sent is still in the outbox, with each attempt counted,
-- and is ready again exactly from the retry time on, unless the error reads as a conflict.
pub mark_retry-Retried :
    (libraries : Libraries) (db : ProfileDatabase) (events : List OutboxEvent) (next_retry_at : ℤ)
    (error : String) (now : ℤ) (event_id : String) {row : OutboxRow}
    → find_row (is_event event_id) db.sync_outbox ≡ some row
    → 1 ≤ times_sent libraries event_id events
    → (bounded_error error == conflict_error) ≡ false
    → Retried next_retry_at (times_sent libraries event_id events) row (
        find_row
          (is_event event_id)
          (mark_retry libraries true db events next_retry_at error now).1.sync_outbox)
unfolding mark_retry
mark_retry-Retried libraries db events next_retry_at error now event_id {row} found sent retries =
    let message = bounded_error error in
    let waiting = retried_by next_retry_at message now libraries event_id events row in
    let failed = retried_by-sent next_retry_at message now libraries event_id events row sent in
    record {
      waiting = waiting;
      there =
          find_row-retry_loop next_retry_at message now libraries event_id events db.sync_outbox
          ∙ ap (changed (retried_by next_retry_at message now libraries event_id events)) found;
      attempts = retried_by-attempts next_retry_at message now libraries event_id events row;
      ready = λ later. rw (failed.0, failed.1, retries) (ground arith);
    }
