-- ===== src/Desktop/SyncEngine/Cycle.antt =====
-- The synchronization cycle of apps/desktop/src/sync_engine.rs: push, then pull until the server has
-- no more. The transport, the result of each COMMIT, the clock and the printing of errors are
-- arguments. The argument `round` counts the requests of a pull, so that the transport may answer
-- each of them differently; a pull is bounded by fuel.
pub mod Ends
use lvos.Base.{
  ℕ, zero, suc, String, Bool, true, false, not, Option, none, some, List, [], ◌∷◌, leb, ◌==◌,
  nat_eq, string_eq, length, if◌then◌else◌, Result, ok, err, ◌>>=◌, ok_or,
}
use lvos.Base.Int.{ℤ}
use lvos.Protocol.{PushEvent, PushAck, ChangesResponse}
use lvos.Storage.Model.{
  ProfileDatabase, OutboxEvent, AcknowledgedEvent, StorageResult, StorageError, Libraries,
}
use lvos.Storage.Page.{apply_remote_page}
use lvos.Storage.Sync.{
  ready_outbox_events, push_event, acknowledge_events, mark_retry, set_sync_error,
}
use lvos.Storage.Conflict.{
  ConflictResolution, converged, replay_prepared, manual_retry_required, resolve_conflict,
}
use lvos.Desktop.SyncEngine.{
  FavoriteConflict, TransportError, offline, access_expired, session_invalid, device_revoked,
  conflict, rejected, bad_response, incompatible_server, SessionError, transport, credential_store,
  no_persistent_session, invalid_credential, SyncEngineError, database, session, invalid_response,
  match_acknowledgements, retry_timestamp,
}

-- What the engine works with: `push` answers a request, `changes` one of a round, for a cursor and a
-- limit; `committed` says of each transaction whether its COMMIT succeeds.
pub record Surroundings : Type 0 where
  pub libraries : Libraries
  pub push : List PushEvent → Result SessionError (List PushAck)
  pub changes : ℕ → ℕ → ℕ → Result SessionError ChangesResponse
  pub committed : ℕ → Bool
  pub error_text : SessionError → String
  pub push_batch : ℕ
  pub pull_page : ℕ

pub data PushDisposition : Type 0 where
  continue replayed manual_conflict : PushDisposition
  retry_at : ℤ → PushDisposition
  halted : String → PushDisposition

pub data SyncRunOutcome : Type 0 where
  idle work_remaining conflict_left : SyncRunOutcome
  retry_later : ℤ → SyncRunOutcome
  stopped : String → SyncRunOutcome

abbrev pub is_offline : SessionError → Bool
is_offline (transport offline) = true
is_offline _ = false

abbrev pub is_session_halted : SessionError → Bool
is_session_halted (transport session_invalid) = true
is_session_halted (transport device_revoked) = true
is_session_halted no_persistent_session = true
is_session_halted invalid_credential = true
is_session_halted _ = false

-- A result of the engine, with the database that it leaves.
abbrev pub Run {ℓ} : Type ℓ → Type ℓ
Run A = Result SyncEngineError A × ProfileDatabase

unfoldable pub push_events_of :
    Libraries → ProfileDatabase → List OutboxEvent → StorageResult (List PushEvent)
push_events_of libraries db [] = ok []
push_events_of libraries db (event ∷ events) = do
  sent ← push_event libraries db event
  rest ← push_events_of libraries db events
  ok (sent ∷ rest)

-- `await?` on the database worker.
abbrev pub stored {ℓ κ} : {A : Type ℓ} {B : Type κ} → StorageResult A × ProfileDatabase → B → Run B
stored (err e, db) value = (err (database e), db)
stored (ok a, db) value = (ok value, db)

abbrev pub disposition_of : ConflictResolution → PushDisposition
disposition_of converged = continue
disposition_of replay_prepared = replayed
disposition_of manual_retry_required = manual_conflict

abbrev pub conflict_run : StorageResult ConflictResolution × ProfileDatabase → Run PushDisposition
conflict_run (err e, db) = (err (database e), db)
conflict_run (ok resolution, db) = (ok (disposition_of resolution), db)

unfoldable pub find_event : Libraries → String → List OutboxEvent → Option OutboxEvent
find_event libraries id [] = none
find_event libraries id (event ∷ events) =
    let rest = find_event libraries id events in
    if libraries.uuid_text event.event_id == id then some event else rest

abbrev pub only_event : List OutboxEvent → Option OutboxEvent
only_event (event ∷ []) = some event
only_event _ = none

abbrev pub or_only : Option OutboxEvent → List OutboxEvent → Option OutboxEvent
or_only (some event) events = some event
or_only none events = only_event events

-- The event that a conflict names, or the only one that was sent.
unfoldable pub conflicted_event : Libraries → Option String → List OutboxEvent → Option OutboxEvent
unfolding find_event
conflicted_event libraries none events = only_event events
conflicted_event libraries (some id) events = or_only (find_event libraries id events) events

unfoldable pub push_conflict :
    Surroundings → ProfileDatabase → List OutboxEvent → FavoriteConflict → ℤ → Run PushDisposition
unfolding conflicted_event
push_conflict s db events refused now =
    elim (conflicted_event s.libraries refused.event_id events) [
      | none ↦ (err invalid_response, db)
      | some event ↦ conflict_run (resolve_conflict (s.committed 0) db event refused.current now)
    ]

unfoldable pub push_offline :
    Surroundings → ProfileDatabase → List OutboxEvent → ℤ → Run PushDisposition
push_offline s db events now = elim (retry_timestamp events now) [
  | err e ↦ (err e, db)
  | ok time ↦
      stored (mark_retry s.libraries (s.committed 0) db events time "server_unavailable" now)
        (retry_at time)
]

unfoldable pub push_failed :
    Surroundings → ProfileDatabase → List OutboxEvent → SessionError → ℤ → Run PushDisposition
unfolding push_conflict push_offline
push_failed s db events (transport (conflict refused)) now = push_conflict s db events refused now
push_failed s db events error now =
    if is_offline error
    then push_offline s db events now
    else if is_session_halted error
    then (ok (halted (s.error_text error)), set_sync_error db (s.error_text error) now)
    else (err (session error), db)

unfoldable pub push_answered :
    Surroundings
    → ProfileDatabase
    → List OutboxEvent
    → List PushEvent
    → List PushAck
    → ℤ
    → Run PushDisposition
push_answered s db events sent acknowledgements now =
    elim (match_acknowledgements s.libraries.uuid_text events sent acknowledgements) [
      | err e ↦ (err e, db)
      | ok acknowledged ↦
          stored (acknowledge_events s.libraries (s.committed 0) db acknowledged now) continue
    ]

-- `SyncEngine::push_events`
unfoldable pub push_batch_of :
    Surroundings → ProfileDatabase → List OutboxEvent → ℤ → Run PushDisposition
unfolding push_events_of push_failed push_answered
push_batch_of s db events now = elim (push_events_of s.libraries db events) [
  | err e ↦ (err (database e), db)
  | ok sent ↦ elim (s.push sent) [
    | err e ↦ push_failed s db events e now
    | ok acknowledgements ↦ push_answered s db events sent acknowledgements now
  ]
]

-- What follows a page that was applied; `rest` is the next round.
abbrev pub next_round :
    ChangesResponse
    → Option (Run (Unit {0}))
    → StorageResult (Unit {0}) × ProfileDatabase
    → Option (Run (Unit {0}))
next_round response rest (err e, db) = some (err (database e), db)
next_round response rest (ok done, db) =
    if not response.has_more
    then some (ok tt, db)
    else if leb response.latest_revision response.next_revision
    then some (err invalid_response, db)
    else rest

abbrev pub pull_failed : Surroundings → ProfileDatabase → SessionError → ℤ → Run (Unit {0})
pull_failed s db error now =
    if is_offline error
    then (ok tt, set_sync_error db "server_unavailable" now)
    else (err (session error), set_sync_error db (s.error_text error) now)

-- No result where the fuel runs out.
unfoldable pub pull_all : Surroundings → ℕ → ℕ → ProfileDatabase → ℤ → Option (Run (Unit {0}))
pull_all s zero round db now = none
pull_all s (suc fuel) round db now =
    elim (s.changes round db.profile_meta.last_server_revision s.pull_page) [
      | err e ↦ some (pull_failed s db e now)
      | ok response ↦
          let page =
            apply_remote_page s.libraries (s.committed (suc round)) db response.changes
              response.next_revision now in
          let rest = pull_all s fuel (suc round) page.1 now in next_round response rest page
    ]

abbrev pub finished : Bool → Run (Unit {0}) → Run SyncRunOutcome
finished full (err e, db) = (err e, db)
finished full (ok done, db) = (ok (if full then work_remaining else idle), db)

abbrev pub finish : Bool → Option (Run (Unit {0})) → Option (Run SyncRunOutcome)
finish full none = none
finish full (some run) = some (finished full run)

-- What a push leads to: a result at once, or the pull.
unfoldable pub after_push :
    Surroundings → ℕ → Bool → Run PushDisposition → ℤ → Option (Run SyncRunOutcome)
unfolding pull_all
after_push s fuel full (err e, db) now = some (err e, db)
after_push s fuel full (ok continue, db) now = finish full (pull_all s fuel 0 db now)
after_push s fuel full (ok replayed, db) now = some (ok work_remaining, db)
after_push s fuel full (ok manual_conflict, db) now = some (ok conflict_left, db)
after_push s fuel full (ok (retry_at time), db) now = some (ok (retry_later time), db)
after_push s fuel full (ok (halted reason), db) now = some (ok (stopped reason), db)

abbrev pub push_ready : Surroundings → ProfileDatabase → List OutboxEvent → ℤ → Run PushDisposition
push_ready s db [] now = (ok continue, db)
push_ready s db (event ∷ events) now = push_batch_of s db (event ∷ events) now

unfoldable pub synchronize_once :
    Surroundings → ℕ → ProfileDatabase → ℤ → Option (Run SyncRunOutcome)
unfolding push_batch_of after_push
synchronize_once s fuel db now = elim (ready_outbox_events s.libraries db now s.push_batch) [
  | err e ↦ some (err (database e), db)
  | ok events ↦ after_push s fuel (length events == s.push_batch) (push_ready s db events now) now
]
