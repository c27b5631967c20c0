-- ===== src/Server/FavoriteState.antt =====
-- `set_favorite_state` of apps/server/src/sync_repository.rs: a favorite is switched on or off
-- from the server's own pages.
use lvos.Base.{
  ℕ, String, Bool, true, false, not, Option, none, some, ◌==◌, nat_eq, if◌then◌else◌, ok, ◌>>=◌,
  ok_or, checked_add_one,
}
use lvos.Base.Int.{ℤ}
use lvos.Protocol.{FavoriteRecord, SyncOperation, favorite_upsert, favorite_delete}
use lvos.Server.Database.{Database, SyncResult, repository, not_found, invalid_event}
use lvos.Server.Rows.{favorite_record, record_change}
use lvos.Server.Apply.{refuse, is_active, update_state}
use lvos.Server.Push.{MutationResult, transact}

abbrev pub state_operation : Bool → SyncOperation
state_operation true = favorite_upsert
state_operation false = favorite_delete

-- The two states are the same.
abbrev pub same_state : Bool → Bool → Bool
same_state true active = active
same_state false active = not active

-- The state differs: the row is updated and the change logged.
unfoldable pub switch_state :
    Database → String → String → FavoriteRecord → Bool → ℤ → SyncResult (Option ℕ × Database)
switch_state db user_id content_key current active now = do
  entity_revision ← ok_or (checked_add_one current.entity_revision) invalid_event
  db' ← update_state db user_id content_key (if active then none else some now) entity_revision now
  logged ← record_change db' user_id content_key entity_revision (state_operation active) now
  ok (some logged.0, logged.1)

unfoldable pub apply_state :
    Database → String → String → FavoriteRecord → Bool → ℤ → SyncResult (Option ℕ × Database)
apply_state db user_id content_key current active now =
    if same_state (is_active current) active
    then ok (none, db)
    else switch_state db user_id content_key current active now

unfoldable pub state_transaction :
    Database
    → String
    → String
    → Bool
    → ℕ
    → ℤ
    → SyncResult (MutationResult FavoriteRecord × Database)
state_transaction db user_id content_key active base_entity_revision now = do
  found ← favorite_record db user_id content_key
  current ← ok_or found (repository not_found)
  applied ←
      if current.entity_revision == base_entity_revision
      then apply_state db user_id content_key current active now
      else refuse db user_id none (some current)
  after ← favorite_record applied.1 user_id content_key
  result ← ok_or after invalid_event
  ok (record { value = result; changed_revision = applied.0 }, applied.1)

unfoldable pub set_favorite_state :
    Bool
    → Database
    → String
    → String
    → Bool
    → ℕ
    → ℤ
    → SyncResult (MutationResult FavoriteRecord) × Database
set_favorite_state committed db user_id content_key active base_entity_revision now =
    transact committed db (state_transaction db user_id content_key active base_entity_revision now)
