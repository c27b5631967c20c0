-- ===== src/Server/Invariant/State.antt =====
-- `set_favorite_state` of apps/server/src/sync_repository.rs keeps what holds of a user's rows.
use lvos.Base.{
  ℕ, String, Bool, ◌≡◌, Option, none, some, inl, inr, arith, ok, ok_or, checked_add_one,
  if◌then◌else◌, Bool-cases, ◌==◌, >>=-eq-ok, string_eq, pair_eq, nat_eq,
}
use lvos.Base.Int.{ℤ}
use lvos.Protocol.{FavoriteRecord}
use lvos.Server.Database.{Database, repository, not_found, invalid_event}
use lvos.Server.Rows.{favorite_record, record_change}
use lvos.Server.Apply.{is_active, update_state, refuse}
use lvos.Server.FavoriteState.{
  same_state, set_favorite_state, state_transaction, apply_state, switch_state, state_operation,
}
use lvos.Server.Grows.{update_state-Grows}
use lvos.Server.Invariant.{IsConsistent, Fits-eq, Grows-IsConsistent, record_change-IsConsistent}
use lvos.Server.Push.{transact-keeps}

module _ (db : Database) (user_id : String) where
  update_state-stats :
      (key : String) (deleted_at : Option ℤ) (revision : ℕ) (now : ℤ) {db' : Database}
      → update_state db user_id key deleted_at revision now ≡ ok db'
      → db'.device_query_stats ≡ db.device_query_stats
  unfolding update_state
  update_state-stats key deleted_at revision now h = ground arith

  switch_state-IsConsistent :
      (key : String) (current : FavoriteRecord) (active : Bool) (now : ℤ)
      {switched : Option ℕ × Database}
      → switch_state db user_id key current active now ≡ ok switched
      → IsConsistent db user_id
      → IsConsistent switched.1 user_id
  unfolding switch_state
  switch_state-IsConsistent key current active now {switched} h c =
      let (revision, next, h1) =
        >>=-eq-ok (ok_or (checked_add_one current.entity_revision) invalid_event) _ h in
      let deleted_at = if active then none else some now in
      let (db', updated, h2) =
        >>=-eq-ok (update_state db user_id key deleted_at revision now) _ h1 in
      let (logged, recorded, h3) =
        >>=-eq-ok (record_change db' user_id key revision (state_operation active) now) _ h2 in
      let kept : switched.1 ≡ logged.1 = ground (arith, h3) in
      rw kept (
        record_change-IsConsistent db' user_id key revision (state_operation active) now recorded (
          Grows-IsConsistent db user_id db'
            (update_state-Grows db user_id key deleted_at revision now updated)
            (Fits-eq db db' user_id (update_state-stats key deleted_at revision now updated) c.fits)
            c))

  apply_state-IsConsistent :
      (key : String) (current : FavoriteRecord) (active : Bool) (now : ℤ)
      {switched : Option ℕ × Database}
      → apply_state db user_id key current active now ≡ ok switched
      → IsConsistent db user_id
      → IsConsistent switched.1 user_id
  unfolding apply_state
  apply_state-IsConsistent key current active now {switched} h c =
      elim (Bool-cases (same_state (is_active current) active)) [
        | inl same ↦ let kept : switched.1 ≡ db = ground (arith, h, same) in rw kept c
        | inr differ ↦
            switch_state-IsConsistent key current active now {switched = switched}
              (ground (arith, h, differ)) c
      ]

-- A request to switch a favorite leaves the rows of its user consistent, whether it is carried out,
-- refused or fails.
pub set_favorite_state-IsConsistent :
    (committed : Bool) (db : Database) (user_id key : String) (active : Bool) (base : ℕ) (now : ℤ)
    → IsConsistent db user_id
    → IsConsistent (set_favorite_state committed db user_id key active base now).1 user_id
unfolding set_favorite_state state_transaction refuse
set_favorite_state-IsConsistent committed db user_id key active base now c =
    transact-keeps (λ d. IsConsistent d user_id) committed db
      (state_transaction db user_id key active base now) c
      (λ r h.
        let (found, read, h1) = >>=-eq-ok (favorite_record db user_id key) _ h in
        let (current, there, h2) = >>=-eq-ok (ok_or found (repository not_found)) _ h1 in
        let (applied, switched, h3) =
          >>=-eq-ok
            (if current.entity_revision == base
              then apply_state db user_id key current active now
              else refuse db user_id none (some current))
            _ h2 in
        let (after, reread, h4) = >>=-eq-ok (favorite_record applied.1 user_id key) _ h3 in
        let kept : r.1 ≡ applied.1 = ground (arith, h4) in
        rw kept (
          apply_state-IsConsistent db user_id key current active now {switched = applied}
            (ground (arith, switched)) c))
