-- ===== src/Storage/Identity/Moves.antt =====
-- Moving the events to another device keeps the outbox distinct, and the counters keep their totals.
use lvos.Base.{
  ℕ, ◌-◌, String, ◌≡◌, refl, sym, ap, ◌∙◌, inl, inr, Bool, false, ◌||◌, not, Option, none, some,
  List, [], ◌∷◌, ◌++◌, arith, ok, guard, leb, ◌==◌, string_eq, list_eq, nat_eq, >>=-eq-ok,
  Bool-cases, Option-cases,
}
use mathlib.Core.List.{append-nil, append_assoc}
use lvos.Base.Int.{ℤ}
use lvos.Base.Table.{Table, get}
use lvos.Storage.Model.{
  ProfileDatabase, OutboxRow, QueryStats, StorageResult, sqlite, Libraries, effective_total,
  invalid_data, invalid_identifier,
}
use lvos.Storage.Outbox.{is_event, is_coalesced, exists_row}
use lvos.Storage.Outbox.Unique.{AllDistinct, clashes, exists_row-append, same_clashes}
use lvos.Storage.Outbox.Upsert.{appended_clash}
use lvos.Storage.Profile.{transact-cases}
use lvos.Storage.Identity.{
  moved_row, move_events, is_stats_event, coalesce_key_for, restart_counters, is_nil,
  replace_transaction, replace_device_identity,
}

-- A row in the middle may take a coalesce key that no other row has.
replace-AllDistinct :
    (front : List OutboxRow) (row row' : OutboxRow) (key : String) (back : List OutboxRow)
    → row'.event_id ≡ row.event_id
    → row'.coalesce_key ≡ some key
    → exists_row (is_coalesced key) (front ++ back) ≡ false
    → AllDistinct (front ++ row ∷ back)
    → AllDistinct (front ++ row' ∷ back)
unfolding exists_row
replace-AllDistinct [] row row' key back event own free h = (
  ap (λ (id : String). exists_row (is_event id) back) event ∙ h.0,
  same_clashes row' (record row { coalesce_key = some key }) back own ∙ free,
  h.2,
)
replace-AllDistinct (first ∷ front) row row' key back event own free h =
    let events = exists_row-append (is_event first.event_id) front (row ∷ back) in
    let clash = exists_row-append (clashes first) front (row ∷ back) in
    (
      exists_row-append (is_event first.event_id) front (row' ∷ back)
          ∙ ground (arith, h.0, events, ap (λ (id : String). id == first.event_id) event),
      exists_row-append (clashes first) front (row' ∷ back)
          ∙ ground (arith, h.1, clash, appended_clash first row' key own (ground (arith, free))),
      replace-AllDistinct front row row' key back event own (ground (arith, free)) h.2,
    )

move_events-AllDistinct :
    (device_id : String) (now : ℤ) (done rows : List OutboxRow) {moved : List OutboxRow}
    → move_events device_id now done rows ≡ ok moved
    → AllDistinct (done ++ rows)
    → AllDistinct moved
unfolding move_events
move_events-AllDistinct device_id now done [] {moved} h distinct =
    let same : moved ≡ done = ground (arith, h) in rw (same, sym (append-nil done)) distinct
move_events-AllDistinct device_id now done (row ∷ rows) {moved} h distinct =
    let key = coalesce_key_for device_id row.content_key in
    let next = moved_row device_id now row in
    elim (Bool-cases (is_stats_event row)) [
      | inl stats ↦ elim (Bool-cases (exists_row (is_coalesced key) (done ++ rows))) [
        | inl taken ↦ absurd (ground (arith, h, stats, taken))
        | inr free ↦
            move_events-AllDistinct device_id now (done ++ next ∷ []) rows
              (ground (arith, h, stats, free))
              (rw (append_assoc done (next ∷ []) rows)
                (replace-AllDistinct done row next key rows refl refl free distinct))
      ]
      | inr other ↦
          move_events-AllDistinct device_id now (done ++ row ∷ []) rows (ground (arith, h, other))
            (rw (append_assoc done (row ∷ []) rows) distinct)
    ]

-- What a replacement of the device's identity went through.
record Replaced (libraries : Libraries) (db : ProfileDatabase) (replacement : List ℕ) (now : ℤ)
    (db' : ProfileDatabase) : Type 0 where
  moved : move_events (libraries.uuid_text replacement) now [] db.sync_outbox ≡ ok db'.sync_outbox
  restarted : restart_counters db.query_stats ≡ ok db'.query_stats

replace_transaction-Replaced :
    (libraries : Libraries) (db : ProfileDatabase) (expected_current replacement : List ℕ) (now : ℤ)
    {done : Unit {0} × ProfileDatabase}
    → replace_transaction libraries db expected_current replacement now ≡ ok done
    → Replaced libraries db replacement now done.1
unfolding replace_transaction
replace_transaction-Replaced libraries db expected_current replacement now {done} h =
    let (a, first, h1) =
      >>=-eq-ok
        (guard
          (not (is_nil expected_current || (is_nil replacement || expected_current == replacement)))
          (invalid_identifier "device"))
        _ h in
    let (b, second, h2) =
      >>=-eq-ok
        (guard (db.profile_meta.device_id == libraries.uuid_text expected_current)
          (invalid_data "Profile Device identity does not match"))
        _ h1 in
    let (rows, moved, h3) =
      >>=-eq-ok (move_events (libraries.uuid_text replacement) now [] db.sync_outbox) _ h2 in
    let (stats, restarted, h4) = >>=-eq-ok (restart_counters db.query_stats) _ h3 in
    let events : done.1.sync_outbox ≡ rows = ground (arith, h4) in
    let counters : done.1.query_stats ≡ stats = ground (arith, h4) in
    record {
      moved = moved ∙ ap (λ (r : List OutboxRow). ok r) (sym events);
      restarted = restarted ∙ ap (λ (r : Table String QueryStats). ok r) (sym counters);
    }

pub replace_device_identity-AllDistinct :
    (libraries : Libraries) (committed : Bool) (db : ProfileDatabase)
    (expected_current replacement : List ℕ) (now : ℤ)
    → AllDistinct db.sync_outbox
    → AllDistinct
        (replace_device_identity libraries committed db expected_current replacement
          now).1.sync_outbox
unfolding replace_device_identity
replace_device_identity-AllDistinct libraries committed db expected_current replacement now h =
    transact-cases (λ (r : StorageResult (Unit {0}) × ProfileDatabase). AllDistinct r.1.sync_outbox)
      committed db (replace_transaction libraries db expected_current replacement now) (λ e. h)
      (λ done whole.
        move_events-AllDistinct (libraries.uuid_text replacement) now [] db.sync_outbox
          (replace_transaction-Replaced libraries db expected_current replacement now whole).moved
          h)

-- A counter that was never aggregated has sent nothing.
abbrev pub IsCounter : QueryStats → Type 0
IsCounter stats = stats.server_snapshot_at ≡ none → stats.last_synced_device_query_count ≡ 0

abbrev pub total_of : Option QueryStats → ℕ
total_of none = 0
total_of (some stats) = effective_total stats

abbrev restarted_counter : QueryStats → QueryStats
restarted_counter stats = record stats {
  device_query_count = stats.device_query_count - stats.last_synced_device_query_count;
  last_synced_device_query_count = 0;
}

effective_total-restarted_counter :
    (stats : QueryStats)
    → IsCounter stats
    → effective_total (restarted_counter stats) ≡ effective_total stats
unfolding effective_total
effective_total-restarted_counter stats counter = elim (Option-cases stats.server_snapshot_at) [
  | inl absent ↦ rw absent (omega (arith, counter absent))
  | inr (time, present) ↦ ground (arith, present)
]

restart_counters-total :
    (rows restarted : Table String QueryStats) (key : String) {stats : QueryStats}
    → restart_counters rows ≡ ok restarted
    → get rows key ≡ some stats
    → IsCounter stats
    → total_of (get restarted key) ≡ effective_total stats
unfolding restart_counters get
restart_counters-total [] restarted key h found counter = absurd (ground (arith, found))
restart_counters-total ((own, row) ∷ rows) restarted key {stats} h found counter =
    let (a, tested, h1) =
      >>=-eq-ok (guard (leb row.last_synced_device_query_count row.device_query_count) sqlite) _
        h in
    let (rest, done, h2) = >>=-eq-ok (restart_counters rows) _ h1 in
    let result : restarted ≡ (own, restarted_counter row) ∷ rest = ground (arith, h2) in
    elim (Bool-cases (own == key)) [
      | inl hit ↦
          let same : row ≡ stats = ground (arith, found, hit) in
          rw (result, hit, same) (effective_total-restarted_counter stats counter)
      | inr miss ↦
          rw (result, miss)
            (restart_counters-total rows rest key done (ground (arith, found, miss)) counter)
    ]

-- When the installation gets a new device identity, the total that is shown for a content stays the
-- same, although the device's own counter starts again at what was not sent yet. The content's
-- counter must have sent nothing as long as it has no total of the server.
pub replace_device_identity-total :
    (libraries : Libraries) (committed : Bool) (db : ProfileDatabase)
    (expected_current replacement : List ℕ) (now : ℤ) (key : String) {stats : QueryStats}
    → get db.query_stats key ≡ some stats
    → IsCounter stats
    → total_of (
        get
          (replace_device_identity libraries committed db expected_current replacement
            now).1.query_stats
          key)
      ≡ effective_total stats
unfolding replace_device_identity
replace_device_identity-total libraries committed db expected_current replacement now key {stats}
      found counter =
    transact-cases
      (λ (r : StorageResult (Unit {0}) × ProfileDatabase).
        total_of (get r.1.query_stats key) ≡ effective_total stats)
      committed db (replace_transaction libraries db expected_current replacement now)
      (λ e. ap total_of found)
      (λ done whole.
        restart_counters-total db.query_stats done.1.query_stats key
          (replace_transaction-Replaced libraries db expected_current replacement now
            whole).restarted
          found counter)
