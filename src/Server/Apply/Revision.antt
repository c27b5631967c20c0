-- ===== src/Server/Apply/Revision.antt =====
-- The user's revision across an event and across a push.
use lvos.Base.{
  ℕ, ◌+◌, ◌<◌, String, ◌≡◌, refl, sym, ap, ◌∙◌, inl, inr, ◌⊎◌, Bool, true, false, ◌||◌, Option,
  none, some, List, [], ◌∷◌, arith, ok, >>=-eq-ok, string_eq, if◌then◌else◌, pair_eq, nat_eq,
}
use lvos.Base.Int.{ℤ}
use lvos.Base.Table.{get, get-put_self}
use lvos.Protocol.{PushEvent, PushResponse}
use lvos.Server.Database.{Database, UserRow}
use lvos.Server.Rows.{user_revision}
use lvos.Server.Ack.{Digest}
use lvos.Server.Apply.{EventOutcome, apply_event, next_user_revision}
use lvos.Server.Inversion.{apply_event-Applied, record_change-Logged}
use lvos.Server.Grows.{Grows-trans, operation-Grows, merge-Grows}
use lvos.Server.Push.{
  MutationResult, Batch, opened, max_option, push_event, push_loop, push_events, push_transaction,
  transact-ok,
}
use lvos.Server.Push.Inversion.{push_event-Pushed}

-- From revision `n` on, the user has come to `m`, and `changed` reports it if it is another one.
abbrev pub Tracks : ℕ → ℕ → Option ℕ → Type 0
Tracks n m changed = (m ≡ n) × (changed ≡ none) ⊎ (n < m) × (changed ≡ some m)

module _ (user_id : String) where
  user_revision-users :
      (db db' : Database)
      → db'.users ≡ db.users
      → user_revision db' user_id ≡ user_revision db user_id
  unfolding user_revision
  user_revision-users db db' same = rw same refl

  next-true :
      (db : Database) (event : PushEvent) (revision : Option ℕ) (now : ℤ) (n : ℕ)
      {next : ℕ × Database}
      → next_user_revision true db user_id event revision now ≡ ok next
      → user_revision db user_id ≡ ok n
      → (next.0 ≡ n + 1) × (user_revision next.1 user_id ≡ ok (n + 1))
  unfolding next_user_revision user_revision
  next-true db event none now n h read = absurd (ground (arith, h))
  next-true db event (some revision) now n {next} h read =
      let l = record_change-Logged db user_id event.content_key revision event.operation now h in
      let row : UserRow = record l.user { sync_revision = l.user.sync_revision + 1 } in
      let same : l.user.sync_revision ≡ n = ground (arith, read, l.found) in
      let stored : get next.1.users user_id ≡ some row =
        ap (λ (x : ℕ × Database). get x.1.users user_id) l.result
        ∙ get-put_self db.users user_id row in
      (ap (λ (x : ℕ × Database). x.0) l.result ∙ ap (λ k. k + 1) same, ground (arith, stored, same))

  next-Tracks :
      (changed : Bool) (db : Database) (event : PushEvent) (revision : Option ℕ) (now : ℤ) (n : ℕ)
      {next : ℕ × Database}
      → next_user_revision changed db user_id event revision now ≡ ok next
      → user_revision db user_id ≡ ok n
      → (user_revision next.1 user_id ≡ ok next.0)
        × Tracks n next.0 (if changed then some next.0 else none)
  unfolding next_user_revision
  next-Tracks true db event revision now n h read =
      let (counted, stored) = next-true db event revision now n h read in
      (stored ∙ ap ok (sym counted), inr (omega (arith, counted), refl))
  next-Tracks false db event revision now n {next} h read =
      let kept : next ≡ (n, db) = ground (arith, h, read) in
      let same : next.1 ≡ db = ap (λ (x : ℕ × Database). x.1) kept in
      let number : next.0 ≡ n = ap (λ (x : ℕ × Database). x.0) kept in
      (
        ap (λ (d : Database). user_revision d user_id) same ∙ read ∙ ap ok (sym number),
        inl (number, refl),
      )

  apply_event-Tracks :
      (db : Database) (device_id : String) (event : PushEvent) (now : ℤ) (n : ℕ)
      {applied : EventOutcome × Database}
      → apply_event db user_id device_id event now ≡ ok applied
      → user_revision db user_id ≡ ok n
      → (m : ℕ) × (user_revision applied.1 user_id ≡ ok m) × Tracks n m applied.0.changed_revision
  apply_event-Tracks db device_id event now n {applied} h read =
      let a = apply_event-Applied db user_id device_id event now h in
      let grown =
        Grows-trans (operation-Grows db user_id event.operation event a.current now a.operated)
          (merge-Grows a.entity.db user_id device_id event a.stored) in
      let before = user_revision-users db a.merged.1 grown.users ∙ read in
      let (after, tracks) =
        next-Tracks (a.entity.changed || a.merged.0) a.merged.1 event a.entity.revision now n
          a.advanced before in
      (
        a.next.0,
        ap (λ (x : EventOutcome × Database). user_revision x.1 user_id) a.outcome ∙ after,
        rw a.outcome tracks,
      )

  push_event-Tracks :
      (digest : Digest) (db : Database) (device_id : String) (event : PushEvent) (now : ℤ) (n : ℕ)
      {pushed : EventOutcome × Database}
      → push_event digest db user_id device_id event now ≡ ok pushed
      → user_revision db user_id ≡ ok n
      → (m : ℕ) × (user_revision pushed.1 user_id ≡ ok m) × Tracks n m pushed.0.changed_revision
  push_event-Tracks digest db device_id event now n {pushed} h read =
      elim (push_event-Pushed digest db user_id device_id event now h).ways [
        | inl (known, same, kept) ↦
            (n, ap (λ (d : Database). user_revision d user_id) kept ∙ read, inl (refl, same))
        | inr (fresh, p) ↦
            let (m, after, tracks) = apply_event-Tracks db device_id event now n p.accepted read in
            let users = ap (λ (d : Database). d.users) p.stored.result in
            (m, user_revision-users p.written pushed.1 users ∙ after, tracks)
      ]

  max_option-Tracks :
      (n m k : ℕ) (a b : Option ℕ) → Tracks n m a → Tracks m k b → Tracks n k (max_option a b)
  max_option-Tracks n m k none none s t = ground arith
  max_option-Tracks n m k none (some b) s t = ground arith
  max_option-Tracks n m k (some a) none s t = ground arith
  max_option-Tracks n m k (some a) (some b) s t = ground arith

  push_loop-Tracks :
      (digest : Digest) (device_id : String) (events : List PushEvent) (now : ℤ) (n m : ℕ)
      (batch : Batch) {done : Batch}
      → push_loop digest user_id device_id events now batch ≡ ok done
      → user_revision batch.db user_id ≡ ok m
      → Tracks n m batch.changed_revision
      → (k : ℕ) × (user_revision done.db user_id ≡ ok k) × Tracks n k done.changed_revision
  unfolding push_loop
  push_loop-Tracks digest device_id [] now n m batch {done} h read tracks =
      let kept : done ≡ batch = ground (arith, h) in rw kept (m, read, tracks)
  push_loop-Tracks digest device_id (event ∷ events) now n m batch h read tracks =
      let (pushed, p, rest) =
        >>=-eq-ok (push_event digest batch.db user_id device_id event now) _ h in
      let (k, after, step) = push_event-Tracks digest batch.db device_id event now m p read in
      push_loop-Tracks digest device_id events now n k _ rest after
        (max_option-Tracks n m k batch.changed_revision pushed.0.changed_revision tracks step)

-- The revision that a push reports to the user's other devices is the revision that its response
-- calls the latest, which is also the one in the database that it commits. A push reports none
-- exactly when that revision is still the one from before.
pub push_events-Tracks :
    (digest : Digest) (db : Database) (user_id device_id : String) (events : List PushEvent)
    (now : ℤ) (n : ℕ) {r : MutationResult PushResponse} {db' : Database}
    → push_events digest true db user_id device_id events now ≡ (ok r, db')
    → user_revision db user_id ≡ ok n
    → (user_revision db' user_id ≡ ok r.value.latest_revision)
      × Tracks n r.value.latest_revision r.changed_revision
unfolding push_events push_transaction
push_events-Tracks digest db user_id device_id events now n {r} {db'} h read =
    let (done, looped, h1) =
      >>=-eq-ok (push_loop digest user_id device_id events now (opened db)) _
        (transact-ok db _ h) in
    let (latest, found, h2) = >>=-eq-ok (user_revision done.db user_id) _ h1 in
    let (k, after, tracks) =
      push_loop-Tracks user_id digest device_id events now n n (opened db) looped read
        (inl (refl, refl)) in
    let same : k ≡ r.value.latest_revision = ground (arith, after, found, h2) in
    let kept : db' ≡ done.db = ground (arith, h2) in
    let changed : r.changed_revision ≡ done.changed_revision = ground (arith, h2) in
    (
      ap (λ (d : Database). user_revision d user_id) kept ∙ after ∙ ap ok same,
      rw (← same, changed) tracks,
    )
