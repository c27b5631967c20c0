-- ===== src/Storage/Outbox/Upsert.antt =====
-- An upsert of an outbox row keeps events and coalesce keys distinct.
use lvos.Base.{
  ℕ, String, ◌≡◌, refl, sym, ap, ◌∙◌, inl, inr, true, false, Option, some, List, [], ◌∷◌, ◌++◌,
  arith, ok, string_eq, eq_iff, Bool-cases, Option-cases, >>=-eq-ok,
}
use lvos.Storage.Model.{OutboxRow, ProfileDatabase}
use lvos.Storage.Outbox.{
  is_event, is_coalesced, exists_row, update_rows, write_outbox, upsert_outbox, optional_sqlite,
  PendingOutbox, fresh_row, coalesced_row,
}
use lvos.Storage.Outbox.Unique.{
  AllDistinct, clashes, exists_row-append, exists_row-update_rows, update_rows-none, same_clashes,
}

pub appended_clash :
    (row fresh : OutboxRow) (key : String)
    → fresh.coalesce_key ≡ some key
    → is_coalesced key row ≡ false
    → clashes row fresh ≡ false
appended_clash row fresh key own differ = elim (Option-cases row.coalesce_key) [
  | inl absent ↦ ground (arith, absent)
  | inr (other, present) ↦ ground (arith, own, present, differ, eq_iff key other, eq_iff other key)
]

-- The rows behind one that has the coalesce key do not have it.
no_other :
    (key : String) (row : OutboxRow) (rows : List OutboxRow)
    → is_coalesced key row ≡ true
    → exists_row (clashes row) rows ≡ false
    → exists_row (is_coalesced key) rows ≡ false
no_other key row rows hit h = elim (Option-cases row.coalesce_key) [
  | inl absent ↦ absurd (ground (arith, hit, absent))
  | inr (other, present) ↦
      let same : other ≡ key = ground (arith, hit, present, eq_iff other key) in
      same_clashes (record row { coalesce_key = some key }) row rows
        (ap (λ (k : String). some k) (sym same) ∙ sym present)
      ∙ h
]

append-AllDistinct :
    (rows : List OutboxRow) (fresh : OutboxRow) (key : String)
    → fresh.coalesce_key ≡ some key
    → exists_row (is_event fresh.event_id) rows ≡ false
    → exists_row (is_coalesced key) rows ≡ false
    → AllDistinct rows
    → AllDistinct (rows ++ fresh ∷ [])
unfolding exists_row
append-AllDistinct [] fresh key own event coalesced h = (refl, refl, tt)
append-AllDistinct (row ∷ rows) fresh key own event coalesced h = (
  exists_row-append (is_event row.event_id) rows (fresh ∷ [])
      ∙ ground (
        arith,
        h.0,
        event,
        eq_iff row.event_id fresh.event_id,
        eq_iff fresh.event_id row.event_id,
      ),
  exists_row-append (clashes row) rows (fresh ∷ [])
      ∙ ground (arith, h.1, appended_clash row fresh key own (ground (arith, coalesced))),
  append-AllDistinct rows fresh key own (ground (arith, event)) (ground (arith, coalesced)) h.2,
)

module _ (event : PendingOutbox) (revision : Option ℕ) where
  coalesce-AllDistinct :
      (rows : List OutboxRow)
      → exists_row (is_event event.event_id) rows ≡ false
      → AllDistinct rows
      → AllDistinct
          (update_rows (is_coalesced event.coalesce_key) (coalesced_row event revision) rows)
  unfolding update_rows exists_row
  coalesce-AllDistinct [] fresh h = tt
  coalesce-AllDistinct (row ∷ rows) fresh h =
      let change = coalesced_row event revision in
      elim (Bool-cases (is_coalesced event.coalesce_key row)) [
        | inl hit ↦
            let other = no_other event.coalesce_key row rows hit h.1 in
            let same = update_rows-none (is_coalesced event.coalesce_key) change rows other in
            rw (hit, same) (ground (arith, fresh), h.1, h.2)
        | inr miss ↦ rw miss (
          exists_row-update_rows (is_event row.event_id) (is_coalesced event.coalesce_key) change
              (λ other keep. ground (
                arith,
                fresh,
                eq_iff row.event_id event.event_id,
                eq_iff event.event_id row.event_id,
              ))
              rows h.0,
          exists_row-update_rows (clashes row) (is_coalesced event.coalesce_key) change
              (λ other keep. keep) rows h.1,
          coalesce-AllDistinct rows (ground (arith, fresh)) h.2,
        )
      ]

write_outbox-AllDistinct :
    (event : PendingOutbox) (revision : Option ℕ) (rows : List OutboxRow) {rows' : List OutboxRow}
    → write_outbox event revision rows ≡ ok rows'
    → AllDistinct rows
    → AllDistinct rows'
unfolding write_outbox
write_outbox-AllDistinct event revision rows {rows'} h distinct =
    elim (Bool-cases (exists_row (is_event event.event_id) rows)) [
      | inl taken ↦ absurd (ground (arith, h, taken))
      | inr free ↦ elim (Bool-cases (exists_row (is_coalesced event.coalesce_key) rows)) [
        | inl found ↦
            let same : rows'
                ≡ update_rows (is_coalesced event.coalesce_key) (coalesced_row event revision)
                    rows =
              ground (arith, h, free, found) in
            rw same (coalesce-AllDistinct event revision rows free distinct)
        | inr missing ↦
            let same : rows' ≡ rows ++ fresh_row event revision ∷ [] =
              ground (arith, h, free, missing) in
            rw same (
              append-AllDistinct rows (fresh_row event revision) event.coalesce_key refl free
                missing distinct)
      ]
    ]

pub upsert_outbox-AllDistinct :
    (event : PendingOutbox) (db : ProfileDatabase) {db' : ProfileDatabase}
    → upsert_outbox event db ≡ ok db'
    → AllDistinct db.sync_outbox
    → AllDistinct db'.sync_outbox
unfolding upsert_outbox
upsert_outbox-AllDistinct event db {db'} h distinct =
    let (revision, fits, h1) = >>=-eq-ok (optional_sqlite event.revision) _ h in
    let (rows, written, h2) = >>=-eq-ok (write_outbox event revision db.sync_outbox) _ h1 in
    let same : db'.sync_outbox ≡ rows = ground (arith, h2) in
    rw same (write_outbox-AllDistinct event revision db.sync_outbox written distinct)
