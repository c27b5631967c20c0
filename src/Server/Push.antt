-- ===== src/Server/Push.antt =====
-- `push_events` of apps/server/src/sync_repository.rs: a batch of events in one transaction.
pub mod Inversion
pub mod Conflict
pub mod Answers
pub mod Isolation
pub mod Replay
use lvos.Base.{
  ◌≡◌, refl, ℕ, String, Bool, true, false, Option, none, some, List, [], ◌∷◌, ◌++◌, max, ok, err,
  ◌>>=◌,
}
use lvos.Base.Int.{ℤ}
use lvos.Protocol.{PushEvent, PushAck, PushResponse}
use lvos.Server.Database.{Database, SyncResult, repository, database}
use lvos.Server.Rows.{user_revision}
use lvos.Server.Ack.{Digest, event_fingerprint, processed_ack, store_ack}
use lvos.Server.Apply.{EventOutcome, apply_event}

pub record MutationResult (T : Type 0) : Type 0 where
  pub value : T
  pub changed_revision : Option ℕ

-- Rust's `max` on `Option`, where `None` is below every value.
abbrev pub max_option : Option ℕ → Option ℕ → Option ℕ
max_option none b = b
max_option (some a) none = some a
max_option (some a) (some b) = some (max a b)

-- An event whose acknowledgement is not stored yet.
unfoldable pub process_event :
    Database → String → String → PushEvent → List ℕ → ℤ → SyncResult (EventOutcome × Database)
process_event db user_id device_id event fingerprint now = do
  applied ← apply_event db user_id device_id event now
  db' ← store_ack applied.1 user_id event fingerprint applied.0.ack now
  ok (applied.0, db')

-- One round of the loop; a stored acknowledgement is given again, and changes nothing.
unfoldable pub push_event :
    Digest → Database → String → String → PushEvent → ℤ → SyncResult (EventOutcome × Database)
push_event digest db user_id device_id event now = do
  fingerprint ← event_fingerprint digest event
  found ← processed_ack db user_id event fingerprint
  elim found [
    | some ack ↦ ok (record { ack = ack; changed_revision = none }, db)
    | none ↦ process_event db user_id device_id event fingerprint now
  ]

-- What the loop holds: the acknowledgements, `changed_revision` and the open transaction.
pub record Batch : Type 0 where
  pub acknowledgements : List PushAck
  pub changed_revision : Option ℕ
  pub db : Database

unfoldable pub push_loop : Digest → String → String → List PushEvent → ℤ → Batch → SyncResult Batch
push_loop digest user_id device_id [] now batch = ok batch
push_loop digest user_id device_id (event ∷ events) now batch = do
  pushed ← push_event digest batch.db user_id device_id event now
  push_loop digest user_id device_id events now (record {
    acknowledgements = batch.acknowledgements ++ pushed.0.ack ∷ [];
    changed_revision = max_option batch.changed_revision pushed.0.changed_revision;
    db = pushed.1;
  })

abbrev pub opened : Database → Batch
opened db = record { acknowledgements = []; changed_revision = none; db = db }

-- The transaction: the response and the database that it would commit.
unfoldable pub push_transaction :
    Digest
    → Database
    → String
    → String
    → List PushEvent
    → ℤ
    → SyncResult (MutationResult PushResponse × Database)
push_transaction digest db user_id device_id events now = do
  batch ← push_loop digest user_id device_id events now (opened db)
  latest_revision ← user_revision batch.db user_id
  ok (
    record {
      value = record {
        acknowledgements = batch.acknowledgements;
        latest_revision = latest_revision;
      };
      changed_revision = batch.changed_revision;
    },
    batch.db,
  )

-- A transaction that returns early is rolled back, and so is one whose COMMIT fails; `committed`
-- says whether SQLite's COMMIT succeeds.
abbrev pub transact {ℓ} :
    {A : Type ℓ} → Bool → Database → SyncResult (A × Database) → SyncResult A × Database
transact committed db (err e) = (err e, db)
transact true db (ok (a, db')) = (ok a, db')
transact false db (ok (a, db')) = (err (repository database), db)

-- What holds of the database before, and of every database that the transaction would commit,
-- holds of the database after, committed or not.
pub transact-keeps {ℓ κ} :
    {A : Type ℓ} (P : Database → Type κ) (committed : Bool) (db : Database)
    (m : SyncResult (A × Database))
    → P db
    → ((r : A × Database) → m ≡ ok r → P r.1)
    → P (transact committed db m).1
transact-keeps P committed db (err e) h k = h
transact-keeps P true db (ok (a, db')) h k = k (a, db') refl
transact-keeps P false db (ok (a, db')) h k = h

pub transact-ok {ℓ} :
    {A : Type ℓ} (db : Database) (m : SyncResult (A × Database)) {a : A} {db' : Database}
    → transact true db m ≡ (ok a, db')
    → m ≡ ok (a, db')
transact-ok db (ok (a, db')) h = cc
transact-ok db (err e) h = cc

unfoldable pub push_events :
    Digest
    → Bool
    → Database
    → String
    → String
    → List PushEvent
    → ℤ
    → SyncResult (MutationResult PushResponse) × Database
push_events digest committed db user_id device_id events now =
    transact committed db (push_transaction digest db user_id device_id events now)
