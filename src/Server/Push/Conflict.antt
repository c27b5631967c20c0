-- ===== src/Server/Push/Conflict.antt =====
-- A batch that holds a stale event, and what is left of it.
use lvos.Base.{
  ℕ, String, ◌≡◌, ◌≢◌, refl, inl, inr, Bool, true, Option, none, some, List, [], ◌∷◌, ◌++◌, arith,
  ok, err, ◌>>=◌, Result-cases, string_eq, pair_eq, nat_eq,
}
use lvos.Base.Int.{ℤ}
use lvos.Protocol.{PushEvent, FavoriteRecord}
use lvos.Server.Database.{Database, conflict}
use lvos.Server.Rows.{user_revision, favorite_record}
use lvos.Server.Ack.{Digest, event_fingerprint, processed_ack}
use lvos.Server.Apply.{apply_event, check_base, refuse, is_favorite_operation, actual_revision}
use lvos.Server.Push.{
  Batch, opened, push_event, process_event, push_loop, push_events, push_transaction,
}

module _ (digest : Digest) (user_id device_id : String) (now : ℤ) where
  -- The loop over two lists is the loop over the first and then over the second.
  pub push_loop-append :
      (before after : List PushEvent) (batch : Batch)
      → push_loop digest user_id device_id (before ++ after) now batch ≡ (
          push_loop digest user_id device_id before now batch >>= λ middle.
          push_loop digest user_id device_id after now middle)
  unfolding push_loop
  push_loop-append [] after batch = refl
  push_loop-append (event ∷ before) after batch =
      elim (Result-cases (push_event digest batch.db user_id device_id event now)) [
        | inl (pushed, p) ↦ rw p (push_loop-append before after _)
        | inr (e, p) ↦ rw p refl
      ]

  -- A stale event is refused with the favorite and the revision that the server has.
  apply_event-stale :
      (db : Database) (event : PushEvent) {current : Option FavoriteRecord} {latest : ℕ}
      → favorite_record db user_id event.content_key ≡ ok current
      → user_revision db user_id ≡ ok latest
      → is_favorite_operation event.operation ≡ true
      → actual_revision current ≢ event.base_entity_revision
      → apply_event db user_id device_id event now
        ≡ err (
            conflict (record {
              event_id = some event.event_id;
              current = current;
              latest_revision = latest;
            }))
  unfolding apply_event check_base refuse
  apply_event-stale db event read revision favorite stale = ground arith

-- A batch in which some event is stale, once the events before it are carried out, is refused as a
-- whole. The answer names the event and gives the favorite and the user's revision as they are at
-- that point, and the database is the one from before.
pub push_events-stale :
    (digest : Digest) (committed : Bool) (db : Database) (user_id device_id : String)
    (before : List PushEvent) (event : PushEvent) (after : List PushEvent) (now : ℤ) {batch : Batch}
    {fingerprint : List ℕ} {current : Option FavoriteRecord} {latest : ℕ}
    → push_loop digest user_id device_id before now (opened db) ≡ ok batch
    → event_fingerprint digest event ≡ ok fingerprint
    → processed_ack batch.db user_id event fingerprint ≡ ok none
    → favorite_record batch.db user_id event.content_key ≡ ok current
    → user_revision batch.db user_id ≡ ok latest
    → is_favorite_operation event.operation ≡ true
    → actual_revision current ≢ event.base_entity_revision
    → push_events digest committed db user_id device_id (before ++ event ∷ after) now ≡ (
      err (
          conflict (record {
            event_id = some event.event_id;
            current = current;
            latest_revision = latest;
          })),
      db,
    )
unfolding push_events push_transaction push_loop push_event process_event
push_events-stale digest committed db user_id device_id before event after now {batch} b f p c l op
      stale =
    let refused = apply_event-stale digest user_id device_id now batch.db event c l op stale in
    let split = push_loop-append digest user_id device_id now before (event ∷ after) (opened db) in
    ground (arith, b, f, p, refused, split)
