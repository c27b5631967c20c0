-- ===== src/Server/Push/Inversion.antt =====
-- What a successful round of the push loop went through.
use lvos.Base.{
  String, ◌≡◌, ◌⊎◌, inl, inr, none, some, List, ℕ, arith, ok, ok_or, >>=-eq-ok, Option-cases,
  string_eq, pair_eq,
}
use lvos.Base.Int.{ℤ}
use lvos.Base.Table.{Table, insert}
use lvos.Protocol.{PushEvent, PushAck}
use lvos.Server.Database.{Database, ProcessedRow, repository, database}
use lvos.Server.Ack.{Digest, event_fingerprint, processed_ack, ack_row, store_ack}
use lvos.Server.Apply.{EventOutcome, apply_event}
use lvos.Server.Push.{push_event, process_event}

-- The row that was stored for an acknowledgement.
pub record Stored (db : Database) (user_id : String) (event : PushEvent) (fingerprint : List ℕ)
    (ack : PushAck) (now : ℤ) (db' : Database) : Type 0 where
  pub row : ProcessedRow
  pub built : ack_row event fingerprint ack now ≡ ok row
  pub processed : Table (String × String) ProcessedRow
  pub inserted : insert db.processed (user_id, event.event_id) row ≡ some processed
  pub result : db' ≡ record db { processed = processed }

pub store_ack-Stored :
    (db : Database) (user_id : String) (event : PushEvent) (fingerprint : List ℕ) (ack : PushAck)
    (now : ℤ) {db' : Database}
    → store_ack db user_id event fingerprint ack now ≡ ok db'
    → Stored db user_id event fingerprint ack now db'
unfolding store_ack
store_ack-Stored db user_id event fingerprint ack now h =
    let (row, built, h1) = >>=-eq-ok (ack_row event fingerprint ack now) _ h in
    let (processed, inserted, h2) =
      >>=-eq-ok (ok_or (insert db.processed (user_id, event.event_id) row) (repository database)) _
        h1 in
    record {
      row = row;
      built = built;
      processed = processed;
      inserted = ground arith;
      result = ground arith;
    }

pub record Processed (db : Database) (user_id device_id : String) (event : PushEvent)
    (fingerprint : List ℕ) (now : ℤ) (pushed : EventOutcome × Database) : Type 0 where
  pub written : Database
  pub accepted : apply_event db user_id device_id event now ≡ ok (pushed.0, written)
  pub stored : Stored written user_id event fingerprint pushed.0.ack now pushed.1

pub process_event-Processed :
    (db : Database) (user_id device_id : String) (event : PushEvent) (fingerprint : List ℕ)
    (now : ℤ) {pushed : EventOutcome × Database}
    → process_event db user_id device_id event fingerprint now ≡ ok pushed
    → Processed db user_id device_id event fingerprint now pushed
unfolding process_event
process_event-Processed db user_id device_id event fingerprint now {pushed} h =
    let (applied, accepted, h1) = >>=-eq-ok (apply_event db user_id device_id event now) _ h in
    let (db', stored, h2) =
      >>=-eq-ok (store_ack applied.1 user_id event fingerprint applied.0.ack now) _ h1 in
    let s = store_ack-Stored applied.1 user_id event fingerprint applied.0.ack now stored in
    record {
      written = applied.1;
      accepted = ground arith;
      stored = record {
        row = s.row;
        built = ground arith;
        processed = s.processed;
        inserted = s.inserted;
        result = ground arith;
      };
    }

-- Either the acknowledgement was there, and nothing happened, or the event is processed now.
pub record Pushed (digest : Digest) (db : Database) (user_id device_id : String) (event : PushEvent)
    (now : ℤ) (pushed : EventOutcome × Database) : Type 0 where
  pub fingerprint : List ℕ
  pub printed : event_fingerprint digest event ≡ ok fingerprint
  pub ways :
      (processed_ack db user_id event fingerprint ≡ ok (some pushed.0.ack))
        × (pushed.0.changed_revision ≡ none)
        × (pushed.1 ≡ db)
      ⊎ (processed_ack db user_id event fingerprint ≡ ok none)
        × Processed db user_id device_id event fingerprint now pushed

pub push_event-Pushed :
    (digest : Digest) (db : Database) (user_id device_id : String) (event : PushEvent) (now : ℤ)
    {pushed : EventOutcome × Database}
    → push_event digest db user_id device_id event now ≡ ok pushed
    → Pushed digest db user_id device_id event now pushed
unfolding push_event
push_event-Pushed digest db user_id device_id event now h =
    let (fingerprint, printed, h1) = >>=-eq-ok (event_fingerprint digest event) _ h in
    let (found, searched, h2) = >>=-eq-ok (processed_ack db user_id event fingerprint) _ h1 in
    record {
      fingerprint = fingerprint;
      printed = printed;
      ways = elim (Option-cases found) [
        | inl fresh ↦ inr (
          ground arith,
          process_event-Processed db user_id device_id event fingerprint now (ground arith),
        )
        | inr (ack, known) ↦ inl (ground arith, ground arith, ground arith)
      ];
    }
