-- ===== src/Storage/Sync/Ready.antt =====
-- The batch of outbox events that is sent next.
use lvos.Base.{
  sym, ◌++◌, none, some, Option, ◌≢◌, ◌⊎◌, false, String, string_eq, Option-cases, eq_iff,
  if◌then◌else◌, ℕ, zero, suc, min, ◌≡◌, ◌∙◌, ap, refl, inl, inr, not, true, List, [], ◌∷◌, arith,
  ok, guard, length, length-take, take, All, ◌==◌, nat_eq, int_eq, Bool-cases, >>=-eq-ok,
}
use mathlib.Core.List.{Permᴰ}
use mathlib.Core.List.Permᴰ
use lvos.Storage.Remote.{conflict_error}
use lvos.Base.Int.{ℤ, ◌≤ℤ◌}
use lvos.Storage.Model.{OutboxEvent, OutboxRow, ProfileDatabase, Libraries, invalid_data}
use lvos.Storage.Codec.{parse_outbox}
use lvos.Storage.Sync.{
  is_ready, is_open, is_before, ready_rows, insert_row, order_rows, parse_rows, ready_outbox_events,
}

-- The rows that LIMIT leaves out.
unfoldable drop : ℕ → List OutboxRow → List OutboxRow
drop zero rows = rows
drop (suc n) [] = []
drop (suc n) (row ∷ rows) = drop n rows

module _ {ℓ} (P : OutboxRow → Type ℓ) where
  insert_row-All :
      (row : OutboxRow) (rows : List OutboxRow) → P row → All P rows → All P (insert_row row rows)
  unfolding insert_row
  insert_row-All row [] p h = (p, tt)
  insert_row-All row (head ∷ rows) p h = elim (Bool-cases (is_before row head)) [
    | inl before ↦ rw before (p, h)
    | inr after ↦ rw after (h.0, insert_row-All row rows p h.1)
  ]

  order_rows-All : (rows : List OutboxRow) → All P rows → All P (order_rows rows)
  unfolding order_rows
  order_rows-All [] h = tt
  order_rows-All (row ∷ rows) h = insert_row-All row (order_rows rows) h.0 (order_rows-All rows h.1)

  take-All : (n : ℕ) (rows : List OutboxRow) → All P rows → All P (take n rows)
  take-All zero rows h = tt
  take-All (suc n) [] h = tt
  take-All (suc n) (row ∷ rows) h = (h.0, take-All n rows h.1)

  drop-All : (n : ℕ) (rows : List OutboxRow) → All P rows → All P (drop n rows)
  unfolding drop
  drop-All zero rows h = h
  drop-All (suc n) [] h = tt
  drop-All (suc n) (row ∷ rows) h = drop-All n rows h.1

  all_of : (rows : List OutboxRow) → ((row : OutboxRow) → P row) → All P rows
  all_of [] h = tt
  all_of (row ∷ rows) h = (h row, all_of rows h)

module _ {ℓ κ} (P : OutboxRow → Type ℓ) (Q : OutboxRow → Type κ) where
  both_All : (rows : List OutboxRow) → All P rows → All Q rows → All (λ row. P row × Q row) rows
  both_All [] p q = tt
  both_All (row ∷ rows) p q = ((p.0, q.0), both_All rows p.1 q.1)

module _ {ℓ κ} {P : OutboxRow → Type ℓ} {Q : OutboxRow → Type κ} where
  All-map : (rows : List OutboxRow) → ((row : OutboxRow) → P row → Q row) → All P rows → All Q rows
  All-map [] step h = tt
  All-map (row ∷ rows) step h = (step row h.0, All-map rows step h.1)

perm-middle : (row : OutboxRow) (xs ys : List OutboxRow) → Permᴰ (xs ++ row ∷ ys) (row ∷ xs ++ ys)
perm-middle row [] ys = Permᴰ.refl (row ∷ ys)
perm-middle row (x ∷ xs) ys =
    Permᴰ.trans (Permᴰ.cons refl (perm-middle row xs ys)) (Permᴰ.swap refl refl)

insert_row-Permᴰ :
    (row : OutboxRow) (rows : List OutboxRow) → Permᴰ (insert_row row rows) (row ∷ rows)
unfolding insert_row
insert_row-Permᴰ row [] = Permᴰ.refl (row ∷ [])
insert_row-Permᴰ row (head ∷ rows) = elim (Bool-cases (is_before row head)) [
  | inl before ↦ rw before (Permᴰ.refl (row ∷ head ∷ rows))
  | inr after ↦
      rw after (Permᴰ.trans (Permᴰ.cons refl (insert_row-Permᴰ row rows)) (Permᴰ.swap refl refl))
]

order_rows-Permᴰ : (rows : List OutboxRow) → Permᴰ (order_rows rows) rows
unfolding order_rows
order_rows-Permᴰ [] = Permᴰ.nil
order_rows-Permᴰ (row ∷ rows) =
    Permᴰ.trans (insert_row-Permᴰ row (order_rows rows)) (Permᴰ.cons refl (order_rows-Permᴰ rows))

take-drop : (n : ℕ) (rows : List OutboxRow) → take n rows ++ drop n rows ≡ rows
unfolding drop
take-drop zero rows = refl
take-drop (suc n) [] = refl
take-drop (suc n) (row ∷ rows) = ap (λ (rest : List OutboxRow). row ∷ rest) (take-drop n rows)

-- The rows that WHERE leaves out.
unfoldable held_rows : ℤ → List OutboxRow → List OutboxRow
held_rows now [] = []
held_rows now (row ∷ rows) =
    let rest = held_rows now rows in if is_ready now row then rest else row ∷ rest

ready_rows-Permᴰ :
    (now : ℤ) (rows : List OutboxRow) → Permᴰ (ready_rows now rows ++ held_rows now rows) rows
unfolding ready_rows held_rows
ready_rows-Permᴰ now [] = Permᴰ.nil
ready_rows-Permᴰ now (row ∷ rows) = elim (Bool-cases (is_ready now row)) [
  | inl ready ↦ rw ready (Permᴰ.cons refl (ready_rows-Permᴰ now rows))
  | inr waits ↦ rw waits (
      Permᴰ.trans (perm-middle row (ready_rows now rows) (held_rows now rows))
        (Permᴰ.cons refl (ready_rows-Permᴰ now rows)))
]

-- The row may be sent: its retry time, if it has one, has come, and it is not in conflict.
abbrev pub IsWaiting : ℤ → OutboxRow → Type 0
IsWaiting now row =
    ((row.next_retry_at ≡ none) ⊎ ((time : ℤ) × (row.next_retry_at ≡ some time) × (time ≤ℤ now)))
    × (row.last_error ≢ some "favorite_conflict")

last_error-open :
    (error : Option String) → error ≢ some "favorite_conflict" → is_open error ≡ false → ⊥
last_error-open none calm shut = ground (arith, shut)
last_error-open (some message) calm shut =
    calm (ap (λ (m : String). some m) (ground (arith, shut, eq_iff message conflict_error)))

is_ready-IsWaiting : (now : ℤ) (row : OutboxRow) → is_ready now row ≡ true → IsWaiting now row
is_ready-IsWaiting now row ready = (
  elim (Option-cases row.next_retry_at) [
    | inl never ↦ inl never
    | inr (time, at) ↦ inr (time, at, ground (arith, ready, at))
  ],
  λ same. absurd (ground (arith, ready, same, eq_iff conflict_error conflict_error)),
)

is_ready-held : (now : ℤ) (row : OutboxRow) → is_ready now row ≡ false → ¬ IsWaiting now row
is_ready-held now row held (inl never, calm) =
    absurd (last_error-open row.last_error calm (ground (arith, held, never)))
is_ready-held now row held (inr (time, at, due), calm) =
    absurd (last_error-open row.last_error calm (ground (arith, held, at, due)))

ready_rows-All : (now : ℤ) (rows : List OutboxRow) → All (IsWaiting now) (ready_rows now rows)
unfolding ready_rows
ready_rows-All now [] = tt
ready_rows-All now (row ∷ rows) = elim (Bool-cases (is_ready now row)) [
  | inl ready ↦ rw ready (is_ready-IsWaiting now row ready, ready_rows-All now rows)
  | inr waits ↦ rw waits (ready_rows-All now rows)
]

held_rows-All :
    (now : ℤ) (rows : List OutboxRow) → All (λ row. ¬ IsWaiting now row) (held_rows now rows)
unfolding held_rows
held_rows-All now [] = tt
held_rows-All now (row ∷ rows) = elim (Bool-cases (is_ready now row)) [
  | inl ready ↦ rw ready (held_rows-All now rows)
  | inr waits ↦ rw waits (is_ready-held now row waits, held_rows-All now rows)
]

abbrev pub Precedes : OutboxRow → OutboxRow → Type 0
Precedes a b = a.created_at ≤ℤ b.created_at

abbrev pub IsOrderedRows : List OutboxRow → Type 0
IsOrderedRows [] = Unit
IsOrderedRows (row ∷ rows) = All (Precedes row) rows × IsOrderedRows rows

insert_row-IsOrderedRows :
    (row : OutboxRow) (rows : List OutboxRow)
    → IsOrderedRows rows
    → IsOrderedRows (insert_row row rows)
unfolding insert_row
insert_row-IsOrderedRows row [] h = (tt, tt)
insert_row-IsOrderedRows row (head ∷ rows) h = elim (Bool-cases (is_before row head)) [
  | inl before ↦
      let le : Precedes row head = ground (arith, before) in
      rw before ((le, All-map rows (λ other more. omega (arith, le, more)) h.0), h)
  | inr after ↦
      let le : Precedes head row = ground (arith, after) in
      rw after
        (insert_row-All (Precedes head) row rows le h.0, insert_row-IsOrderedRows row rows h.1)
]

order_rows-IsOrderedRows : (rows : List OutboxRow) → IsOrderedRows (order_rows rows)
unfolding order_rows
order_rows-IsOrderedRows [] = tt
order_rows-IsOrderedRows (row ∷ rows) =
    insert_row-IsOrderedRows row (order_rows rows) (order_rows-IsOrderedRows rows)

take-IsOrderedRows :
    (n : ℕ) (rows : List OutboxRow) → IsOrderedRows rows → IsOrderedRows (take n rows)
take-IsOrderedRows zero rows h = tt
take-IsOrderedRows (suc n) [] h = tt
take-IsOrderedRows (suc n) (row ∷ rows) h =
    (take-All (Precedes row) n rows h.0, take-IsOrderedRows n rows h.1)

-- What LIMIT leaves out is not older than what it takes.
take-oldest :
    (n : ℕ) (rows : List OutboxRow)
    → IsOrderedRows rows
    → All (λ later. All (λ sent. Precedes sent later) (take n rows)) (drop n rows)
unfolding drop
take-oldest zero rows h = all_of (λ later. All (λ sent. Precedes sent later) []) rows (λ row. tt)
take-oldest (suc n) [] h = tt
take-oldest (suc n) (row ∷ rows) h =
    both_All (Precedes row) (λ later. All (λ sent. Precedes sent later) (take n rows)) (drop n rows)
      (drop-All (Precedes row) n rows h.0) (take-oldest n rows h.1)

-- Each event is its row, read.
abbrev pub AreRead : Libraries → List OutboxRow → List OutboxEvent → Type 0
AreRead libraries [] [] = Unit
AreRead libraries (row ∷ rows) (event ∷ events) =
    (parse_outbox libraries row ≡ ok event) × AreRead libraries rows events
AreRead libraries _ _ = ⊥

parse_rows-AreRead :
    (libraries : Libraries) (rows : List OutboxRow) {events : List OutboxEvent}
    → parse_rows libraries rows ≡ ok events
    → AreRead libraries rows events
unfolding parse_rows
parse_rows-AreRead libraries [] {events} parsed =
    let same : events ≡ [] = ground (arith, parsed) in rw same tt
parse_rows-AreRead libraries (row ∷ rows) {events} parsed =
    let (event, one, h1) = >>=-eq-ok (parse_outbox libraries row) _ parsed in
    let (rest, more, h2) = >>=-eq-ok (parse_rows libraries rows) _ h1 in
    let same : events ≡ event ∷ rest = ground (arith, h2) in
    rw same (one, parse_rows-AreRead libraries rows more)

-- How a batch divides the outbox: the rows that are sent, those that the limit leaves for later,
-- and those that are held back.
pub record Batch (libraries : Libraries) (db : ProfileDatabase) (now : ℤ) (limit : ℕ)
    (events : List OutboxEvent) : Type 0 where
  pub sent : List OutboxRow
  pub later : List OutboxRow
  pub held : List OutboxRow
  pub divides : Permᴰ ((sent ++ later) ++ held) db.sync_outbox
  pub read : AreRead libraries sent events
  pub full : length sent ≡ min limit (length (sent ++ later))
  pub waiting : All (IsWaiting now) (sent ++ later)
  pub holds : All (λ row. ¬ IsWaiting now row) held
  pub ordered : IsOrderedRows sent
  pub oldest : All (λ row. All (λ first. first.created_at ≤ℤ row.created_at) sent) later

-- A batch divides the outbox. It sends rows that are ready, that is, whose retry time is not ahead
-- and whose last error is not a conflict, and every other ready row is left for later; what is
-- neither is not ready. As many are sent as the limit allows, in the order of their creation, and
-- none that is left for later was created before one that is sent.
pub ready_outbox_events-Batch :
    (libraries : Libraries) (db : ProfileDatabase) (now : ℤ) (limit : ℕ) {events : List OutboxEvent}
    → ready_outbox_events libraries db now limit ≡ ok events
    → Batch libraries db now limit events
unfolding ready_outbox_events
ready_outbox_events-Batch libraries db now limit {events} h =
    let ready = ready_rows now db.sync_outbox in
    let held = held_rows now db.sync_outbox in
    let sorted = order_rows ready in
    let (positive, checked, parsed) =
      >>=-eq-ok (guard (not (limit == 0)) (invalid_data "Outbox batch limit is zero")) _ h in
    let whole = take-drop limit sorted in
    let in_order = order_rows-IsOrderedRows ready in
    record {
      sent = take limit sorted;
      later = drop limit sorted;
      held = held;
      divides = rw whole (
          Permᴰ.trans (Permᴰ.append_right held (order_rows-Permᴰ ready))
            (ready_rows-Permᴰ now db.sync_outbox));
      read = parse_rows-AreRead libraries (take limit sorted) parsed;
      full =
          length-take limit sorted
          ∙ ap (λ (rows : List OutboxRow). min limit (length rows)) (sym whole);
      waiting = rw whole (order_rows-All (IsWaiting now) ready (ready_rows-All now db.sync_outbox));
      holds = held_rows-All now db.sync_outbox;
      ordered = take-IsOrderedRows limit sorted in_order;
      oldest = take-oldest limit sorted in_order;
    }
