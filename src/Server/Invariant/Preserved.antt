-- ===== src/Server/Invariant/Preserved.antt =====
-- `push_events` of apps/server/src/sync_repository.rs keeps what holds of a user's rows.
use lvos.Base.{
  ℕ, String, Bool, true, false, ◌||◌, ◌≡◌, ap, ◌∙◌, Option, List, [], ◌∷◌, inl, inr, arith, ok,
  >>=-eq-ok, string_eq, pair_eq, nat_eq,
}
use lvos.Base.Int.{ℤ}
use lvos.Protocol.{PushEvent, PushAck}
use lvos.Server.Database.{Database}
use lvos.Server.Rows.{has_favorite, user_revision}
use lvos.Server.Ack.{Digest}
use lvos.Server.Apply.{EventOutcome, apply_event, next_user_revision}
use lvos.Server.Inversion.{apply_event-Applied}
use lvos.Server.Grows.{Grows-trans, operation-Grows, merge-Grows}
use lvos.Server.Invariant.{
  IsConsistent, Fits-eq, merge-Fits, operation-stats, Grows-IsConsistent,
  record_change-IsConsistent,
}
use lvos.Server.Push.{
  Batch, opened, push_event, push_loop, push_events, push_transaction, transact-keeps,
}
use lvos.Server.Push.Inversion.{Stored, push_event-Pushed}

module _ (user_id : String) where
  next-IsConsistent :
      (changed : Bool) (db : Database) (event : PushEvent) (revision : Option ℕ) (now : ℤ)
      {next : ℕ × Database}
      → next_user_revision changed db user_id event revision now ≡ ok next
      → IsConsistent db user_id
      → IsConsistent next.1 user_id
  unfolding next_user_revision
  next-IsConsistent true db event revision now h c = grind (arith, record_change-IsConsistent)
  next-IsConsistent false db event revision now {next} h c =
      let (current, read, same) = >>=-eq-ok (user_revision db user_id) _ h in
      let kept : next.1 ≡ db = ground (arith, same) in rw kept c

  apply_event-IsConsistent :
      (db : Database) (device_id : String) (event : PushEvent) (now : ℤ)
      {applied : EventOutcome × Database}
      → apply_event db user_id device_id event now ≡ ok applied
      → IsConsistent db user_id
      → IsConsistent applied.1 user_id
  apply_event-IsConsistent db device_id event now {applied} h c =
      let a = apply_event-Applied db user_id device_id event now h in
      let operated = operation-Grows db user_id event.operation event a.current now a.operated in
      let merged = merge-Grows a.entity.db user_id device_id event a.stored in
      let stats = operation-stats db user_id event.operation event a.current now a.operated in
      let fits =
        merge-Fits a.entity.db user_id device_id event a.stored a.summed
          (Fits-eq db a.entity.db user_id stats c.fits) in
      rw a.outcome (
        next-IsConsistent (a.entity.changed || a.merged.0) a.merged.1 event a.entity.revision now
          a.advanced
          (Grows-IsConsistent db user_id a.merged.1 (Grows-trans operated merged) fits c))

  Stored-IsConsistent :
      {db db' : Database} {event : PushEvent} {fingerprint : List ℕ} {ack : PushAck} {now : ℤ}
      → Stored db user_id event fingerprint ack now db'
      → IsConsistent db user_id
      → IsConsistent db' user_id
  unfolding has_favorite
  Stored-IsConsistent {db} {db'} s c =
      Grows-IsConsistent db user_id db'
        (record {
          users = ap (λ (d : Database). d.users) s.result;
          change_log = ap (λ (d : Database). d.change_log) s.result;
          favorites = λ user key h. ap (λ (d : Database). has_favorite d user key) s.result ∙ h;
        })
        (Fits-eq db db' user_id (ap (λ (d : Database). d.device_query_stats) s.result) c.fits) c

  push_event-IsConsistent :
      (digest : Digest) (db : Database) (device_id : String) (event : PushEvent) (now : ℤ)
      {pushed : EventOutcome × Database}
      → push_event digest db user_id device_id event now ≡ ok pushed
      → IsConsistent db user_id
      → IsConsistent pushed.1 user_id
  push_event-IsConsistent digest db device_id event now {pushed} h c =
      elim (push_event-Pushed digest db user_id device_id event now h).ways [
        | inl (known, same, kept) ↦ rw kept c
        | inr (fresh, p) ↦
            Stored-IsConsistent p.stored
              (apply_event-IsConsistent db device_id event now p.accepted c)
      ]

  push_loop-IsConsistent :
      (digest : Digest) (device_id : String) (events : List PushEvent) (now : ℤ) (batch : Batch)
      {done : Batch}
      → push_loop digest user_id device_id events now batch ≡ ok done
      → IsConsistent batch.db user_id
      → IsConsistent done.db user_id
  unfolding push_loop
  push_loop-IsConsistent digest device_id [] now batch {done} h c =
      let kept : done.db ≡ batch.db = ground (arith, h) in rw kept c
  push_loop-IsConsistent digest device_id (event ∷ events) now batch h c =
      let (pushed, p, rest) =
        >>=-eq-ok (push_event digest batch.db user_id device_id event now) _ h in
      push_loop-IsConsistent digest device_id events now _ rest
        (push_event-IsConsistent digest batch.db device_id event now p c)

-- A push, committed or not and whatever it answers, leaves the rows of its user consistent.
pub push_events-IsConsistent :
    (digest : Digest) (committed : Bool) (db : Database) (user_id device_id : String)
    (events : List PushEvent) (now : ℤ)
    → IsConsistent db user_id
    → IsConsistent (push_events digest committed db user_id device_id events now).1 user_id
unfolding push_events push_transaction
push_events-IsConsistent digest committed db user_id device_id events now c =
    transact-keeps (λ d. IsConsistent d user_id) committed db
      (push_transaction digest db user_id device_id events now) c
      (λ r h.
        let (done, looped, h1) =
          >>=-eq-ok (push_loop digest user_id device_id events now (opened db)) _ h in
        let (latest, read, h2) = >>=-eq-ok (user_revision done.db user_id) _ h1 in
        let kept : r.1 ≡ done.db = ground (arith, h2) in
        let end = push_loop-IsConsistent user_id digest device_id events now (opened db) looped c in
        rw kept end)
