-- ===== src/Server/Push/Replay.antt =====
-- A batch that is sent again: a client that lost the answer repeats its request.
use lvos.Base.{
  ◌⊎◌, eq_iff, ℕ, String, true, ◌≡◌, refl, ap, ◌∙◌, inl, inr, Option, none, some, List, [], ◌∷◌,
  arith, ok, >>=-eq-ok, Option-cases, string_eq, pair_eq, ==_refl, list_eq, nat_eq,
}
use lvos.Base.Int.{ℤ}
use lvos.Base.Table.{get, get-insert_self, get-insert_kept}
use lvos.Protocol.{PushEvent, PushAck, PushResponse, AckStatus, applied, no_change}
use lvos.Server.Database.{Database, ProcessedRow}
use lvos.Server.Rows.{user_revision}
use lvos.Server.Ack.{Digest, processed_ack, read_ack, status_name, ack_row}
use lvos.Server.Apply.{EventOutcome}
use lvos.Server.Inversion.{apply_event-Applied}
use lvos.Server.Touches.{apply_event-Touches}
use lvos.Server.Push.{
  Batch, MutationResult, max_option, opened, push_event, push_loop, push_transaction, push_events,
  transact-ok,
}
use lvos.Server.Push.Inversion.{Processed, push_event-Pushed}

status_name-applied :
    (status : AckStatus)
    → (status ≡ applied) × (status_name status ≡ "applied")
      ⊎ (status ≡ no_change) × ¬ (status_name status ≡ "applied")
status_name-applied applied = inl (refl, refl)
status_name-applied no_change = inr (refl, λ p. cc ((eq_iff "no_change" "applied").1 p))

-- Reading back the row of an acknowledgement gives the acknowledgement.
read-ack_row :
    (event : PushEvent) (fingerprint : List ℕ) (ack : PushAck) (now : ℤ) {row : ProcessedRow}
    → ack.event_id ≡ event.event_id
    → ack_row event fingerprint ack now ≡ ok row
    → (read_ack event row ≡ ok ack) × (row.event_fingerprint ≡ fingerprint)
unfolding ack_row read_ack
read-ack_row event fingerprint ack now {row} own built =
    ground (arith, eq_iff row.ack_status "applied", status_name-applied ack.status)

processed_ack-found :
    (db : Database) (user_id : String) (event : PushEvent) (fingerprint : List ℕ)
    {row : ProcessedRow} {ack : PushAck}
    → get db.processed (user_id, event.event_id) ≡ some row
    → row.event_fingerprint ≡ fingerprint
    → read_ack event row ≡ ok ack
    → processed_ack db user_id event fingerprint ≡ ok (some ack)
unfolding processed_ack
processed_ack-found db user_id event fingerprint found same read =
    ground (arith, ==_refl fingerprint)

-- The rows of processed events in `db` are in `db'` too.
pub record Extends (db db' : Database) : Type 0 where
  pub kept :
      (key : String × String) (row : ProcessedRow)
      → get db.processed key ≡ some row
      → get db'.processed key ≡ some row

processed_ack-Extends :
    (db db' : Database) (user_id : String) (event : PushEvent) (fingerprint : List ℕ)
    {ack : PushAck}
    → Extends db db'
    → processed_ack db user_id event fingerprint ≡ ok (some ack)
    → processed_ack db' user_id event fingerprint ≡ ok (some ack)
unfolding processed_ack
processed_ack-Extends db db' user_id event fingerprint x h =
    elim (Option-cases (get db.processed (user_id, event.event_id))) [
      | inl missing ↦ absurd (ground arith)
      | inr (row, found) ↦ ground (arith, x.kept (user_id, event.event_id) row found)
    ]

Extends-refl : (db : Database) → Extends db db
Extends-refl db = record { kept = λ key row h. h }

Extends-trans : {a b c : Database} → Extends a b → Extends b c → Extends a c
Extends-trans s t = record { kept = λ key row h. t.kept key row (s.kept key row h) }

Processed-Extends :
    {db : Database} {user_id device_id : String} {event : PushEvent} {fingerprint : List ℕ}
    {now : ℤ} {pushed : EventOutcome × Database}
    → Processed db user_id device_id event fingerprint now pushed
    → Extends db pushed.1
Processed-Extends {db} {user_id} {device_id} {event} {now} {pushed} p =
    let s = p.stored in
    let kept = (apply_event-Touches db user_id device_id event now p.accepted).processed in
    record {
      kept = λ key row h.
          ap (λ (d : Database). get d.processed key) s.result
          ∙ get-insert_kept p.written.processed (user_id, event.event_id) key s.row s.inserted
              (ap (λ rows. get rows key) kept ∙ h);
    }

-- After a round the acknowledgement that it gave is stored.
Processed-stored :
    {db : Database} {user_id device_id : String} {event : PushEvent} {fingerprint : List ℕ}
    {now : ℤ} {pushed : EventOutcome × Database}
    → Processed db user_id device_id event fingerprint now pushed
    → processed_ack pushed.1 user_id event fingerprint ≡ ok (some pushed.0.ack)
Processed-stored {db} {user_id} {device_id} {event} {fingerprint} {now} {pushed} p =
    let s = p.stored in
    let a = apply_event-Applied db user_id device_id event now p.accepted in
    let own = ap (λ (r : EventOutcome × Database). r.0.ack.event_id) a.outcome in
    let (read, same) = read-ack_row event fingerprint pushed.0.ack now own s.built in
    processed_ack-found pushed.1 user_id event fingerprint
      (ap (λ (d : Database). get d.processed (user_id, event.event_id)) s.result
        ∙ get-insert_self p.written.processed (user_id, event.event_id) s.row s.inserted)
      same read

module _ (digest : Digest) (user_id : String) where
  push_event-Extends :
      (db : Database) (device_id : String) (event : PushEvent) (now : ℤ)
      {pushed : EventOutcome × Database}
      → push_event digest db user_id device_id event now ≡ ok pushed
      → Extends db pushed.1
  push_event-Extends db device_id event now h =
      elim (push_event-Pushed digest db user_id device_id event now h).ways [
        | inl (known, same, kept) ↦ rw kept (Extends-refl db)
        | inr (fresh, p) ↦ Processed-Extends p
      ]

  push_loop-Extends :
      (device_id : String) (events : List PushEvent) (now : ℤ) (batch : Batch) {done : Batch}
      → push_loop digest user_id device_id events now batch ≡ ok done
      → Extends batch.db done.db
  unfolding push_loop
  push_loop-Extends device_id [] now batch h = ground (arith, Extends-refl batch.db)
  push_loop-Extends device_id (event ∷ events) now batch h =
      let (pushed, p, rest) =
        >>=-eq-ok (push_event digest batch.db user_id device_id event now) _ h in
      Extends-trans (push_event-Extends batch.db device_id event now p)
        (push_loop-Extends device_id events now _ rest)

  -- Once pushed, an event is answered from the stored row, on every later database.
  push_event-again :
      (db db' : Database) (device_id device_id' : String) (event : PushEvent) (now now' : ℤ)
      {pushed : EventOutcome × Database}
      → push_event digest db user_id device_id event now ≡ ok pushed
      → Extends pushed.1 db'
      → push_event digest db' user_id device_id' event now'
        ≡ ok (record { ack = pushed.0.ack; changed_revision = none }, db')
  unfolding push_event
  push_event-again db db' device_id device_id' event now now' {pushed} h x =
      let p = push_event-Pushed digest db user_id device_id event now h in
      let stored : processed_ack pushed.1 user_id event p.fingerprint ≡ ok (some pushed.0.ack) =
        elim p.ways [
          | inl (known, same, kept) ↦ rw kept known
          | inr (fresh, done) ↦ Processed-stored done
        ] in
      ground
        (arith, p.printed, processed_ack-Extends pushed.1 db' user_id event p.fingerprint x stored)

  max_option-none : (a : Option ℕ) → max_option a none ≡ a
  max_option-none none = refl
  max_option-none (some a) = refl

  push_loop-again :
      (db' : Database) (device_id device_id' : String) (events : List PushEvent) (now now' : ℤ)
      (batch : Batch) (changed : Option ℕ) {done : Batch}
      → push_loop digest user_id device_id events now batch ≡ ok done
      → Extends done.db db'
      → push_loop digest user_id device_id' events now' (record {
        acknowledgements = batch.acknowledgements;
        changed_revision = changed;
        db = db';
      })
        ≡ ok (record {
          acknowledgements = done.acknowledgements;
          changed_revision = changed;
          db = db';
        })
  unfolding push_loop
  push_loop-again db' device_id device_id' [] now now' batch changed h x = ground arith
  push_loop-again db' device_id device_id' (event ∷ events) now now' batch changed h x =
      let (pushed, p, rest) =
        >>=-eq-ok (push_event digest batch.db user_id device_id event now) _ h in
      let later = Extends-trans (push_loop-Extends device_id events now _ rest) x in
      rw (push_event-again batch.db db' device_id device_id' event now now' p later) (
        rw (max_option-none changed)
          (push_loop-again db' device_id device_id' events now now' _ changed rest x))

-- A batch that was committed can be sent again, by any device of the user and at any time: it gets
-- the same response, changes no row, and reports no changed revision.
pub replay :
    (digest : Digest) (db : Database) (user_id device_id device_id' : String)
    (events : List PushEvent) (now now' : ℤ) {r : MutationResult PushResponse} {db' : Database}
    → push_events digest true db user_id device_id events now ≡ (ok r, db')
    → push_events digest true db' user_id device_id' events now'
      ≡ (ok (record { value = r.value; changed_revision = none }), db')
unfolding push_events push_transaction
replay digest db user_id device_id device_id' events now now' {r} {db'} h =
    let (done, looped, h1) =
      >>=-eq-ok (push_loop digest user_id device_id events now (opened db)) _
        (transact-ok db _ h) in
    let (latest, read, h2) = >>=-eq-ok (user_revision done.db user_id) _ h1 in
    let kept : done.db ≡ db' = ground arith in
    ground (
      arith,
      push_loop-again digest user_id done.db device_id device_id' events now now' (opened db) none
          looped (Extends-refl done.db),
    )
