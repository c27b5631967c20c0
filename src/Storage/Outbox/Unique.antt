-- ===== src/Storage/Outbox/Unique.antt =====
-- The outbox holds each event and each coalesce key once; what the statements on it keep.
use lvos.Base.{
  String, ◌≡◌, refl, ap, ◌∙◌, inl, inr, Bool, false, ◌||◌, Option, none, some, List, [], ◌∷◌, ◌++◌,
  arith, string_eq, Bool-cases, Option-cases,
}
use lvos.Storage.Model.{OutboxRow}
use lvos.Storage.Outbox.{is_event, is_coalesced, exists_row, update_rows, delete_rows}

-- The other row has the same coalesce key, which is not NULL.
abbrev pub clashes : OutboxRow → OutboxRow → Bool
clashes row other = elim row.coalesce_key [ none ↦ false | some key ↦ is_coalesced key other ]

abbrev pub AllDistinct : List OutboxRow → Type 0
AllDistinct [] = Unit
AllDistinct (row ∷ rows) =
    (exists_row (is_event row.event_id) rows ≡ false)
    × (exists_row (clashes row) rows ≡ false)
    × AllDistinct rows

-- No event is new, and distinct rows stay distinct.
pub record Settles (before after : List OutboxRow) : Type 0 where
  pub shrinks :
      (event_id : String)
      → exists_row (is_event event_id) before ≡ false
      → exists_row (is_event event_id) after ≡ false
  pub distinct : AllDistinct before → AllDistinct after

pub Settles-refl : (rows : List OutboxRow) → Settles rows rows
Settles-refl rows = record { shrinks = λ event_id h. h; distinct = λ h. h }

pub Settles-trans :
    {first second third : List OutboxRow}
    → Settles first second
    → Settles second third
    → Settles first third
Settles-trans a b = record {
  shrinks = λ event_id h. b.shrinks event_id (a.shrinks event_id h);
  distinct = λ h. b.distinct (a.distinct h);
}

pub Settles-same : {rows rows' : List OutboxRow} → rows' ≡ rows → Settles rows rows'
Settles-same {rows} same = rw same (Settles-refl rows)

module _ (test : OutboxRow → Bool) where
  pub exists_row-append :
      (rows more : List OutboxRow)
      → exists_row test (rows ++ more) ≡ (exists_row test rows || exists_row test more)
  unfolding exists_row
  exists_row-append [] more = refl
  exists_row-append (row ∷ rows) more = ground (arith, exists_row-append rows more)

  exists_row-delete_rows :
      (where_test : OutboxRow → Bool) (rows : List OutboxRow)
      → exists_row test rows ≡ false
      → exists_row test (delete_rows where_test rows) ≡ false
  unfolding exists_row delete_rows
  exists_row-delete_rows where_test [] h = refl
  exists_row-delete_rows where_test (row ∷ rows) h =
      ground (arith, exists_row-delete_rows where_test rows)

  pub exists_row-update_rows :
      (where_test : OutboxRow → Bool) (change : OutboxRow → OutboxRow)
      → ((row : OutboxRow) → test row ≡ false → test (change row) ≡ false)
      → (rows : List OutboxRow) → exists_row test rows ≡ false
      → exists_row test (update_rows where_test change rows) ≡ false
  unfolding exists_row update_rows
  exists_row-update_rows where_test change kept [] h = refl
  exists_row-update_rows where_test change kept (row ∷ rows) h =
      ground (arith, kept row, exists_row-update_rows where_test change kept rows)

  -- An UPDATE that finds no row changes nothing.
  pub update_rows-none :
      (change : OutboxRow → OutboxRow) (rows : List OutboxRow)
      → exists_row test rows ≡ false
      → update_rows test change rows ≡ rows
  unfolding exists_row update_rows
  update_rows-none change [] h = refl
  update_rows-none change (row ∷ rows) h = ground (arith, update_rows-none change rows)

-- What a DELETE leaves of distinct rows is distinct.
delete_rows-AllDistinct :
    (test : OutboxRow → Bool) (rows : List OutboxRow)
    → AllDistinct rows
    → AllDistinct (delete_rows test rows)
unfolding delete_rows
delete_rows-AllDistinct test [] h = tt
delete_rows-AllDistinct test (row ∷ rows) h = elim (Bool-cases (test row)) [
  | inl gone ↦ rw gone (delete_rows-AllDistinct test rows h.2)
  | inr stays ↦ rw stays (
    exists_row-delete_rows (is_event row.event_id) test rows h.0,
    exists_row-delete_rows (clashes row) test rows h.1,
    delete_rows-AllDistinct test rows h.2,
  )
]

pub delete_rows-Settles :
    (test : OutboxRow → Bool) (rows : List OutboxRow) → Settles rows (delete_rows test rows)
delete_rows-Settles test rows = record {
  shrinks = λ event_id. exists_row-delete_rows (is_event event_id) test rows;
  distinct = delete_rows-AllDistinct test rows;
}

-- A change that leaves both keys of every row alone.
abbrev pub KeepsKeys : (OutboxRow → OutboxRow) → Type 0
KeepsKeys change =
    (row : OutboxRow)
    → ((change row).event_id ≡ row.event_id) × ((change row).coalesce_key ≡ row.coalesce_key)

abbrev clash_with : Option String → OutboxRow → Bool
clash_with own other = elim own [ none ↦ false | some key ↦ is_coalesced key other ]

pub same_clashes :
    (row row' : OutboxRow) (rows : List OutboxRow)
    → row.coalesce_key ≡ row'.coalesce_key
    → exists_row (clashes row) rows ≡ exists_row (clashes row') rows
same_clashes row row' rows same =
    ap (λ (key : Option String). exists_row (clash_with key) rows) same

module _ (change : OutboxRow → OutboxRow) (kept : KeepsKeys change) where
  is_event_kept :
      (event_id : String) (row : OutboxRow)
      → is_event event_id row ≡ false
      → is_event event_id (change row) ≡ false
  is_event_kept event_id row h = rw (kept row).0 h

  clashes_kept :
      (first row : OutboxRow) → clashes first row ≡ false → clashes first (change row) ≡ false
  clashes_kept first row h = elim (Option-cases first.coalesce_key) [
    | inl absent ↦ rw absent refl
    | inr (key, present) ↦ ground (arith, h, present, (kept row).1)
  ]

  update_rows-AllDistinct :
      (test : OutboxRow → Bool) (rows : List OutboxRow)
      → AllDistinct rows
      → AllDistinct (update_rows test change rows)
  unfolding update_rows
  update_rows-AllDistinct test [] h = tt
  update_rows-AllDistinct test (row ∷ rows) h =
      let events =
        exists_row-update_rows (is_event row.event_id) test change (is_event_kept row.event_id) rows
          h.0 in
      let keys = exists_row-update_rows (clashes row) test change (clashes_kept row) rows h.1 in
      let rest = update_rows-AllDistinct test rows h.2 in
      elim (Bool-cases (test row)) [
        | inl hit ↦ rw hit (
          ap (λ (id : String). exists_row (is_event id) (update_rows test change rows)) (kept row).0
              ∙ events,
          same_clashes (change row) row (update_rows test change rows) (kept row).1 ∙ keys,
          rest,
        )
        | inr miss ↦ rw miss (events, keys, rest)
      ]

  pub update_rows-Settles :
      (test : OutboxRow → Bool) (rows : List OutboxRow)
      → Settles rows (update_rows test change rows)
  update_rows-Settles test rows = record {
    shrinks = λ event_id.
        exists_row-update_rows (is_event event_id) test change (is_event_kept event_id) rows;
    distinct = update_rows-AllDistinct test rows;
  }
