-- ===== src/Desktop/SyncEngine.antt =====
-- The pure parts of apps/desktop/src/sync_engine.rs: how a push's acknowledgements are matched with
-- the events that were sent, and when a failed push is tried again. An event's UUID is the list of
-- its bytes; how it is printed is an argument.
pub mod Matching
pub mod Cycle
use lvos.Base.{
  ℕ, zero, suc, ◌+◌, ◌^◌, ◌%◌, min, max, String, Bool, not, Option, none, some, List, [], ◌∷◌, ◌==◌,
  nat_eq, string_eq, length, Result, ok, err, ◌>>=◌, ◌>>◌, guard, ok_or, saturating_add, ltb,
  i64_limit, if◌then◌else◌,
}
use lvos.Base.Int.{ℤ, pos, negsuc, difference}
use lvos.Base.Table.{Table, get, put}
use lvos.Protocol.{PushEvent, PushAck, QueryStatsSnapshot, FavoriteRecord}
use lvos.Storage.Model.{StorageError, OutboxEvent, AcknowledgedEvent}

-- The errors of src/sync_transport.rs and src/sync_session.rs, without the kinds of `AuthError`.
pub record FavoriteConflict : Type 0 where
  pub event_id : Option String
  pub current : Option FavoriteRecord
  pub latest_revision : ℕ

pub data TransportError : Type 0 where
  offline access_expired session_invalid device_revoked : TransportError
  conflict : FavoriteConflict → TransportError
  rejected bad_response incompatible_server : TransportError

pub data SessionError : Type 0 where
  transport : TransportError → SessionError
  credential_store no_persistent_session invalid_credential : SessionError

pub data SyncEngineError : Type 0 where
  database : StorageError → SyncEngineError
  session : SessionError → SyncEngineError
  invalid_response clock : SyncEngineError

-- `into_iter().map(...).collect()` into a `HashMap`: a later entry replaces an earlier one.
unfoldable pub collect : List PushAck → Table String PushAck → Table String PushAck
collect [] table = table
collect (ack ∷ acks) table = collect acks (put table ack.event_id ack)

abbrev pub sent_count : PushEvent → Option ℕ
sent_count sent = elim sent.query_stats [ none ↦ none | some stats ↦ some stats.query_count ]

-- The `zip` and its `map`, which stops at the first event with no acknowledgement.
unfoldable pub match_events :
    (List ℕ → String)
    → Table String PushAck
    → List OutboxEvent
    → List PushEvent
    → Result SyncEngineError (List AcknowledgedEvent)
match_events to_string table [] sent = ok []
match_events to_string table (event ∷ events) [] = ok []
match_events to_string table (event ∷ events) (push ∷ sent) = do
  ack ← ok_or (get table (to_string event.event_id)) invalid_response
  rest ← match_events to_string table events sent
  ok (record { event = event; acknowledgement = ack; sent_query_count = sent_count push } ∷ rest)

unfoldable pub match_acknowledgements :
    (List ℕ → String)
    → List OutboxEvent
    → List PushEvent
    → List PushAck
    → Result SyncEngineError (List AcknowledgedEvent)
match_acknowledgements to_string events sent acknowledgements = do
  guard (length events == length sent) invalid_response
  guard (length events == length acknowledgements) invalid_response
  let table = collect acknowledgements []
  guard (length table == length events) invalid_response
  match_events to_string table events sent

unfoldable pub max_attempt : List OutboxEvent → ℕ
max_attempt [] = 0
max_attempt (event ∷ events) = max event.attempt_count (max_attempt events)

-- `as_bytes()[15]` of a UUID.
unfoldable pub byte_at : ℕ → List ℕ → ℕ
byte_at n [] = 0
byte_at zero (byte ∷ bytes) = byte
byte_at (suc n) (byte ∷ bytes) = byte_at n bytes

unfoldable pub jitter : List OutboxEvent → ℕ
jitter [] = 0
jitter (event ∷ events) = byte_at 15 event.event_id % 3

abbrev pub max_retry_seconds : ℕ
max_retry_seconds = 300

-- The exponent is at most 9, so that the power does not saturate.
unfoldable pub retry_delay : List OutboxEvent → ℕ
retry_delay events =
    min (saturating_add (2 ^ (min (max_attempt events) 8 + 1)) (jitter events)) max_retry_seconds

-- `now.checked_add(delay)` on `i64`, for a delay that is not negative.
abbrev pub checked_add : ℤ → ℕ → Option ℤ
checked_add (pos n) delay = if ltb (n + delay) i64_limit then some (pos (n + delay)) else none
checked_add (negsuc n) delay = some (difference delay (n + 1))

unfoldable pub retry_timestamp : List OutboxEvent → ℤ → Result SyncEngineError ℤ
retry_timestamp events now = ok_or (checked_add now (retry_delay events)) clock
