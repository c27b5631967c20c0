-- ===== src/Server/Push/Isolation.antt =====
-- A push of one user, and the other users' data.
use lvos.Base.{
  ℕ, String, Bool, ◌≡◌, ◌≢◌, refl, ap, ◌∙◌, inl, inr, List, [], ◌∷◌, arith, ok, >>=-eq-ok,
  string_eq, pair_eq,
}
use lvos.Base.Int.{ℤ}
use lvos.Base.Table.{get, get-insert_other}
use lvos.Protocol.{PushEvent, PushAck}
use lvos.Server.Database.{Database, ChangeRow}
use lvos.Server.Rows.{content_stats, user_revision, favorite_record, aggregate_stats}
use lvos.Server.Ack.{Digest}
use lvos.Server.Apply.{EventOutcome}
use lvos.Server.Changes.{user_changes, changes_since, read_changes, read_change, select_changes}
use lvos.Server.Touches.{Touches, apply_event-Touches, pair_ne}
use lvos.Server.Push.{
  Batch, opened, push_event, push_loop, push_transaction, push_events, transact-keeps,
}
use lvos.Server.Push.Inversion.{Stored, push_event-Pushed}

-- The rows of user `v` are the same in both databases.
pub record Untouched (v : String) (db db' : Database) : Type 0 where
  pub users : get db'.users v ≡ get db.users v
  pub favorites : (k : String) → get db'.favorites (v, k) ≡ get db.favorites (v, k)
  pub stats :
      (k : String)
      → content_stats db'.device_query_stats v k ≡ content_stats db.device_query_stats v k
  pub changes : user_changes db'.change_log v ≡ user_changes db.change_log v
  pub processed : (id : String) → get db'.processed (v, id) ≡ get db.processed (v, id)

Untouched-refl : (v : String) (db : Database) → Untouched v db db
Untouched-refl v db = record {
  users = refl;
  favorites = λ k. refl;
  stats = λ k. refl;
  changes = refl;
  processed = λ id. refl;
}

Untouched-trans :
    {v : String} {a b c : Database} → Untouched v a b → Untouched v b c → Untouched v a c
Untouched-trans s t = record {
  users = t.users ∙ s.users;
  favorites = λ k. t.favorites k ∙ s.favorites k;
  stats = λ k. t.stats k ∙ s.stats k;
  changes = t.changes ∙ s.changes;
  processed = λ id. t.processed id ∙ s.processed id;
}

module _ {u v : String} (other : v ≢ u) where
  Touches-Untouched : {db db' : Database} → Touches u db db' → Untouched v db db'
  Touches-Untouched t = record {
    users = t.users v other;
    favorites = λ k. t.favorites v k other;
    stats = λ k. t.stats v k other;
    changes = t.changes v other;
    processed = λ id. ap (λ rows. get rows (v, id)) t.processed;
  }

  Stored-Untouched :
      {db db' : Database} {event : PushEvent} {fingerprint : List ℕ} {ack : PushAck} {now : ℤ}
      → Stored db u event fingerprint ack now db'
      → Untouched v db db'
  Stored-Untouched {db} {db'} {event} s = rw s.result (record {
    users = refl;
    favorites = λ k. refl;
    stats = λ k. refl;
    changes = refl;
    processed = λ id.
        get-insert_other db.processed (u, event.event_id) (v, id) s.row s.inserted (pair_ne other);
  })

  push_event-Untouched :
      (digest : Digest) (db : Database) (device_id : String) (event : PushEvent) (now : ℤ)
      {pushed : EventOutcome × Database}
      → push_event digest db u device_id event now ≡ ok pushed
      → Untouched v db pushed.1
  push_event-Untouched digest db device_id event now {pushed} h =
      elim (push_event-Pushed digest db u device_id event now h).ways [
        | inl (known, same, kept) ↦ rw kept (Untouched-refl v db)
        | inr (fresh, p) ↦
            Untouched-trans
              (Touches-Untouched (apply_event-Touches db u device_id event now p.accepted))
              (Stored-Untouched p.stored)
      ]

  push_loop-Untouched :
      (digest : Digest) (device_id : String) (events : List PushEvent) (now : ℤ) (batch : Batch)
      {done : Batch}
      → push_loop digest u device_id events now batch ≡ ok done
      → Untouched v batch.db done.db
  unfolding push_loop
  push_loop-Untouched digest device_id [] now batch h = ground (arith, Untouched-refl v batch.db)
  push_loop-Untouched digest device_id (event ∷ events) now batch h =
      let (pushed, p, rest) = >>=-eq-ok (push_event digest batch.db u device_id event now) _ h in
      Untouched-trans (push_event-Untouched digest batch.db device_id event now p)
        (push_loop-Untouched digest device_id events now _ rest)

  push_events-Untouched :
      (digest : Digest) (committed : Bool) (db : Database) (device_id : String)
      (events : List PushEvent) (now : ℤ)
      → Untouched v db (push_events digest committed db u device_id events now).1
  unfolding push_events push_transaction
  push_events-Untouched digest committed db device_id events now =
      transact-keeps (Untouched v db) committed db _ (Untouched-refl v db) λ r h.
        (let (done, looped, h1) =
            >>=-eq-ok (push_loop digest u device_id events now (opened db)) _ h in
          let (latest, read, h2) = >>=-eq-ok (user_revision done.db u) _ h1 in
          let kept : done.db ≡ r.1 = ground arith in
          rw (← kept) (push_loop-Untouched digest device_id events now (opened db) looped))

-- What a user can read of the server.
module _ {v : String} {db db' : Database} (same : Untouched v db db') where
  aggregate_stats-Untouched : (k : String) → aggregate_stats db' v k ≡ aggregate_stats db v k
  unfolding aggregate_stats
  aggregate_stats-Untouched k = rw (same.stats k)

  pub favorite_record-Untouched : (k : String) → favorite_record db' v k ≡ favorite_record db v k
  unfolding favorite_record
  favorite_record-Untouched k = ground (arith, same.favorites k, aggregate_stats-Untouched k)

  pub user_revision-Untouched : user_revision db' v ≡ user_revision db v
  unfolding user_revision
  user_revision-Untouched = ground (arith, same.users)

  read_changes-Untouched :
      (rows : List (ℕ × ChangeRow)) → read_changes db' v rows ≡ read_changes db v rows
  unfolding read_changes read_change
  read_changes-Untouched [] = refl
  read_changes-Untouched ((revision, row) ∷ rows) =
      rw (favorite_record-Untouched row.content_key, read_changes-Untouched rows)

  pub changes_since-Untouched :
      (since limit : ℕ) → changes_since db' v since limit ≡ changes_since db v since limit
  unfolding changes_since select_changes
  changes_since-Untouched since limit =
      simp (user_revision-Untouched, same.changes, read_changes-Untouched)

-- A push of one user, whatever its events and outcome, changes nothing that another user reads:
-- the other user's favorites, revision and pages of changes are the same before and after.
pub isolation :
    (digest : Digest) (committed : Bool) (db : Database) (u v device_id : String)
    (events : List PushEvent) (now : ℤ)
    → v ≢ u
    → let db' = (push_events digest committed db u device_id events now).1 in
      (user_revision db' v ≡ user_revision db v)
      × ((k : String) → favorite_record db' v k ≡ favorite_record db v k)
      × ((since limit : ℕ) → changes_since db' v since limit ≡ changes_since db v since limit)
isolation digest committed db u v device_id events now other =
    let same = push_events-Untouched other digest committed db device_id events now in
    (user_revision-Untouched same, favorite_record-Untouched same, changes_since-Untouched same)
