-- ===== src/Desktop/SyncEngine/Cycle/Ends.antt =====
-- A pull from a server with consistent rows comes to an end, with the profile caught up.
use lvos.Base.{
  ℕ, zero, suc, ◌-◌, ◌≤◌, ◌<◌, String, ◌≡◌, refl, ap, ◌∙◌, inl, inr, Option, some, arith, ltb, ok,
  err, Bool-cases, i64_limit,
}
use lvos.Base.Int.{ℤ}
use lvos.Protocol.{ChangesResponse}
use lvos.Server.Database.{Database}
use lvos.Server.Invariant.{IsConsistent}
use lvos.Server.Changes.{changes_since}
use lvos.Server.Changes.Page.{changes_since-IsPage}
use lvos.Storage.Model.{ProfileDatabase, ProfileMeta, StorageResult}
use lvos.Storage.Page.{apply_remote_page}
use lvos.Storage.Page.Cursor.{Synced, apply_remote_page-Synced}
use lvos.Desktop.SyncEngine.{database}
use lvos.Desktop.SyncEngine.Cycle.{Surroundings, Run, pull_all, next_round}

-- The pull succeeded and the profile's cursor is the given revision; or the profile refused a page
-- or could not commit it.
abbrev pub EndsAt : ℕ → Run (Unit {0}) → Type 0
EndsAt revision (ok done, db) = db.profile_meta.last_server_revision ≡ revision
EndsAt revision (err (database e), db) = Unit
EndsAt revision (err _, db) = ⊥

-- The requests of a pull are answered by `changes_since` on one state of the server.
abbrev pub Serves : Surroundings → Database → String → Type 0
Serves s server user_id =
    (round since : ℕ) (page : ChangesResponse)
    → changes_since server user_id since s.pull_page ≡ ok page
    → s.changes round since s.pull_page ≡ ok page

-- A round ends the pull, unless there is more: then the rest does.
round_ends :
    (revision : ℕ) (db : ProfileDatabase) (page : ChangesResponse) (now : ℤ)
    (rest : Option (Run (Unit {0}))) (r : StorageResult (Unit {0}) × ProfileDatabase)
    → page.next_revision ≤ revision
    → page.latest_revision ≡ revision
    → page.has_more ≡ ltb page.next_revision page.latest_revision
    → Synced db page.changes page.next_revision now r
    → (r.1.profile_meta.last_server_revision ≡ page.next_revision
        → page.next_revision < revision
        → (run : Run (Unit {0})) × (rest ≡ some run) × EndsAt revision run)
    → (run : Run (Unit {0})) × (next_round page rest r ≡ some run) × EndsAt revision run
round_ends revision db page now rest (err e, db') below latest more synced ih =
    ((err (database e), db'), refl, tt)
round_ends revision db page now rest (ok done, db') below latest more synced ih =
    let cursor : db'.profile_meta.last_server_revision ≡ page.next_revision =
      ap (λ (meta : ProfileMeta). meta.last_server_revision) synced.2 in
    elim (Bool-cases page.has_more) [
      | inl yet ↦
          let less : page.next_revision < revision = ground (arith, more, yet, latest) in
          let (run, same, ends) = ih cursor less in
          (run, ground (arith, same, yet, less, latest), ends)
      | inr none_left ↦
          let last : page.next_revision ≡ revision =
            ground (arith, more, none_left, latest, below) in
          ((ok tt, db'), rw none_left refl, cursor ∙ last)
    ]

pull_all_step :
    (s : Surroundings) (fuel round : ℕ) (db : ProfileDatabase) (now : ℤ) (page : ChangesResponse)
    → s.changes round db.profile_meta.last_server_revision s.pull_page ≡ ok page
    → pull_all s (suc fuel) round db now
      ≡ next_round page
          (pull_all s fuel
            (suc round)
            (apply_remote_page s.libraries
              (s.committed (suc round))
              db
              page.changes
              page.next_revision
              now).1
            now)
          (apply_remote_page s.libraries
            (s.committed (suc round))
            db
            page.changes
            page.next_revision
            now)
unfolding pull_all
pull_all_step s fuel round db now page answer = rw (pull_all, answer) refl

module _ (s : Surroundings) (server : Database) (user_id : String)
    (consistent : IsConsistent server user_id) (serves : Serves s server user_id)
    (positive : 0 < s.pull_page) (fits : s.pull_page < i64_limit) (now : ℤ) where
  pull_all_round :
      (fuel round : ℕ) (db : ProfileDatabase)
      → db.profile_meta.last_server_revision ≤ consistent.user.sync_revision
      → consistent.user.sync_revision - db.profile_meta.last_server_revision < fuel
      → (run : Run (Unit {0})) × (pull_all s fuel round db now ≡ some run)
        × EndsAt consistent.user.sync_revision run
  pull_all_round zero round db below enough = absurd (omega (arith, enough))
  pull_all_round (suc fuel) round db below enough =
      let revision = consistent.user.sync_revision in
      let cursor = db.profile_meta.last_server_revision in
      let (page, served, rows, count, next, latest, more) =
        changes_since-IsPage server user_id cursor s.pull_page consistent below fits in
      let committed = s.committed (suc round) in
      let applied =
        apply_remote_page s.libraries committed db page.changes page.next_revision now in
      let (run, same, ends) =
        round_ends revision db page now (pull_all s fuel (suc round) applied.1 now) applied
          (omega (arith, next, count, below)) latest more
          (apply_remote_page-Synced s.libraries committed db page.changes page.next_revision now)
          (λ moved less.
            pull_all_round fuel (suc round) applied.1 (omega (arith, moved, less))
              (omega (arith, moved, less, next, count, enough, positive))) in
      (run, pull_all_step s fuel round db now page (serves round cursor page served) ∙ same, ends)

-- A pull from a server whose rows for the user are consistent ends after at most as many rounds as
-- the profile is behind, and one more. It ends with the profile's cursor at the server's revision,
-- unless the profile refuses a page or cannot commit it; in particular no response is found
-- invalid. The page size must be positive and fit `i64`.
pub pull_all-EndsAt :
    (s : Surroundings) (server : Database) (user_id : String)
    (consistent : IsConsistent server user_id) (db : ProfileDatabase) (now : ℤ) (fuel : ℕ)
    → Serves s server user_id
    → 0 < s.pull_page
    → s.pull_page < i64_limit
    → db.profile_meta.last_server_revision ≤ consistent.user.sync_revision
    → consistent.user.sync_revision - db.profile_meta.last_server_revision < fuel
    → (run : Run (Unit {0})) × (pull_all s fuel 0 db now ≡ some run)
      × EndsAt consistent.user.sync_revision run
pull_all-EndsAt s server user_id consistent db now fuel serves positive fits below enough =
    pull_all_round s server user_id consistent serves positive fits now fuel 0 db below enough
