-- ===== src/Storage/Counting.antt =====
-- What a recorded lookup counts.
use lvos.Base.{
  ℕ, ◌+◌, ◌≤◌, ◌<◌, String, ◌≡◌, ◌≢◌, refl, inl, inr, Bool, Option, none, some, List, arith, ok,
  string_eq, >>=-eq-ok, Bool-cases, Option-cases, i64_limit, ltb,
}
use lvos.Base.Int.{ℤ}
use lvos.Base.Table.{get, put, get-put_self, get-put_other}
use lvos.Core.Content.{key_text}
use lvos.Storage.Model.{ProfileDatabase, QueryStats, HistoryEntry, Libraries, effective_total}
use lvos.Storage.Outbox.{upsert_query_stats_event, stats_event, stats_payload, to_string}
use lvos.Storage.Outbox.Pending.{upsert_outbox-stats}
use lvos.Storage.Profile.{
  transact-ok, counted_query, count_query, first_query, in_sync_domain, record_transaction,
  record_successful_query, upsert_history,
}
use lvos.Storage.Identity.Moves.{total_of}

-- A counter as the profile stores it: it did not send more than it counted, and its columns fit
-- `i64`.
abbrev pub IsStored : Option QueryStats → Type 0
IsStored none = Unit
IsStored (some stats) =
    (stats.last_synced_device_query_count ≤ stats.device_query_count)
    × (stats.server_total_query_count < i64_limit)

counted_query-total :
    (before : Option QueryStats) (time : ℤ) {stats : QueryStats}
    → counted_query before time ≡ ok stats
    → IsStored before
    → (effective_total stats ≡ total_of before + 1) × (stats.last_queried_at ≡ time)
unfolding counted_query effective_total
counted_query-total none time {stats} h stored =
    let same : stats ≡ first_query time = ground (arith, h) in rw same (omega arith, refl)
counted_query-total (some old) time {stats} h stored =
    elim (Bool-cases (ltb (old.device_query_count + 1) i64_limit)) [
      | inr full ↦ absurd (ground (arith, h, full))
      | inl fits ↦
          let same : stats ≡ record old {
            device_query_count = old.device_query_count + 1;
            last_queried_at = time;
          } =
            ground (arith, h, fits) in
          rw same (
            elim (Option-cases old.server_snapshot_at) [
              | inl absent ↦ ground (arith, absent)
              | inr (at, present) ↦ ground (arith, present, fits, stored)
            ],
            refl,
          )
    ]

upsert_query_stats_event-stats :
    (libraries : Libraries) (event_id : String) (db : ProfileDatabase) (key : List ℕ)
    (stats : QueryStats) (now : ℤ) {db' : ProfileDatabase}
    → upsert_query_stats_event libraries event_id db key stats now ≡ ok db'
    → (db'.query_stats ≡ db.query_stats) × (db'.favorites ≡ db.favorites)
unfolding upsert_query_stats_event
upsert_query_stats_event-stats libraries event_id db key stats now h =
    let (payload, written, h1) =
      >>=-eq-ok (to_string (libraries.query_stats_json (stats_payload key stats))) _ h in
    upsert_outbox-stats (stats_event event_id db.profile_meta.device_id key payload now) db h1

record Recorded (libraries : Libraries) (event_id : String) (db : ProfileDatabase)
    (entry : HistoryEntry) (done : QueryStats × ProfileDatabase) : Type 0 where
  counter :
      counted_query (get db.query_stats (key_text entry.content.content_key)) entry.last_queried_at
      ≡ ok done.0
  stats : done.1.query_stats ≡ put db.query_stats (key_text entry.content.content_key) done.0
  favorites : done.1.favorites ≡ db.favorites

record_transaction-Recorded :
    (libraries : Libraries) (event_id : String) (db : ProfileDatabase) (entry : HistoryEntry)
    {done : QueryStats × ProfileDatabase}
    → record_transaction libraries event_id db entry ≡ ok done
    → Recorded libraries event_id db entry done
unfolding record_transaction upsert_history
record_transaction-Recorded libraries event_id db entry {done} h =
    let key = key_text entry.content.content_key in
    let (stats, one, h1) =
      >>=-eq-ok (counted_query (get db.query_stats key) entry.last_queried_at) _ h in
    let recorded = count_query db entry stats in
    elim (Bool-cases (in_sync_domain recorded key)) [
      | inl shared ↦
          let (db', written, h2) =
            >>=-eq-ok
              (upsert_query_stats_event libraries event_id recorded entry.content.content_key stats
                entry.last_queried_at)
              (λ db'. ok (stats, db')) {value = done} (ground (arith, h1, shared)) in
          let (counters, favorites) =
            upsert_query_stats_event-stats libraries event_id recorded entry.content.content_key
              stats entry.last_queried_at written in
          let result : done ≡ (stats, db') = ground (arith, h2) in
          rw result (record { counter = one; stats = counters; favorites = favorites })
      | inr private ↦
          let result : done ≡ (stats, recorded) = ground (arith, h1, private) in
          rw result (record { counter = one; stats = refl; favorites = refl })
    ]

-- A lookup that is recorded counts one: the total of its content, as it is stored and returned, is
-- one more than before, and its last time is that of the lookup. The counters of other contents and
-- all favorites stay as they are. The counter must not have sent more than it counted.
pub record_successful_query-total :
    (libraries : Libraries) (event_id : String) (committed : Bool) (db : ProfileDatabase)
    (entry : HistoryEntry) (other : String) {stats : QueryStats} {db' : ProfileDatabase}
    → IsStored (get db.query_stats (key_text entry.content.content_key))
    → record_successful_query libraries event_id committed db entry ≡ (ok stats, db')
    → key_text entry.content.content_key ≢ other
    → (get db'.query_stats (key_text entry.content.content_key) ≡ some stats)
      × (effective_total stats
          ≡ total_of (get db.query_stats (key_text entry.content.content_key)) + 1)
      × (stats.last_queried_at ≡ entry.last_queried_at)
      × (get db'.query_stats other ≡ get db.query_stats other)
      × (db'.favorites ≡ db.favorites)
unfolding record_successful_query
record_successful_query-total libraries event_id committed db entry other {stats} {db'} stored h
      differ =
    let key = key_text entry.content.content_key in
    let whole = transact-ok committed db (record_transaction libraries event_id db entry) h in
    let r = record_transaction-Recorded libraries event_id db entry whole in
    let (total, time) =
      counted_query-total (get db.query_stats key) entry.last_queried_at r.counter stored in
    (
      rw r.stats (get-put_self db.query_stats key stats),
      total,
      time,
      rw r.stats (get-put_other db.query_stats key other stats differ),
      r.favorites,
    )
