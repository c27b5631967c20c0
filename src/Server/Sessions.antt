-- ===== src/Server/Sessions.antt =====
-- The sessions of apps/server/src/repository.rs: a session belongs to a device of a user, and is
-- found by the hash of one of its two tokens. A fresh identifier (UUID) is an argument.
pub mod Operations
pub mod Refusal
use lvos.Base.{
  ℕ, String, Bool, true, false, ◌&&◌, ◌||◌, not, Option, none, some, List, [], ◌∷◌, ◌==◌, string_eq,
  pair_eq, if◌then◌else◌, Result, ok, err, ◌>>=◌, ◌>>◌, guard, ok_or,
}
use lvos.Base.Int.{ℤ, leb_ℤ, saturating_sub}
use lvos.Base.Table.{Table, get, put, insert}
use lvos.Server.Database.{
  Database, UserRow, DeviceRow, SessionRow, RepositoryError, database, not_found, session_invalid,
  access_expired, refresh_expired, session_revoked, device_revoked, user_disabled,
}

abbrev pub RepositoryResult {ℓ} : Type ℓ → Type ℓ
RepositoryResult A = Result RepositoryError A

pub record UserCredential : Type 0 where
  pub user_id : String
  pub username : String
  pub password_hash : String
  pub sync_revision : ℕ
  pub disabled : Bool

pub record Principal : Type 0 where
  pub session_id : String
  pub user_id : String
  pub username : String
  pub device_id : String
  pub platform : String
  pub latest_revision : ℕ

pub record SessionIdentity : Type 0 where
  pub session_id : String
  pub user_id : String
  pub username : String
  pub device_id : String
  pub platform : String
  pub latest_revision : ℕ

-- `IS NOT NULL`
abbrev pub is_some {ℓ} : {A : Type ℓ} → Option A → Bool
is_some none = false
is_some (some a) = true

abbrev pub coalesce : Option ℤ → ℤ → Option ℤ
coalesce none now = some now
coalesce (some at) now = some at

unfoldable pub user_by_username : Table String UserRow → String → Option UserCredential
user_by_username [] username = none
user_by_username ((user_id, row) ∷ users) username =
    let rest = user_by_username users username in
    if row.username == username
    then some (record {
      user_id = user_id;
      username = row.username;
      password_hash = row.password_hash;
      sync_revision = row.sync_revision;
      disabled = is_some row.disabled_at;
    })
    else rest

-- The user of the configuration is added, or found; `user_id` is fresh.
unfoldable pub bootstrap_user :
    Database → String → String → String → ℤ → RepositoryResult (String × Database)
bootstrap_user db username password_hash user_id now = elim (user_by_username db.users username) [
  | some user ↦ ok (user.user_id, db)
  | none ↦ do
    users ←
        ok_or
          (insert db.users user_id (record {
            username = username;
            password_hash = password_hash;
            sync_revision = 0;
            created_at = now;
            disabled_at = none;
          }))
          database
    ok (user_id, record db { users = users })
]

-- The hashes are UNIQUE: another session may have neither.
unfoldable pub token_taken : Table String SessionRow → String → String → String → Bool
token_taken [] session_id access refresh = false
token_taken ((id, row) ∷ rows) session_id access refresh =
    not (id == session_id) && (row.access_token_hash == access || row.refresh_token_hash == refresh)
    || token_taken rows session_id access refresh

-- `query_row(...).optional()` over a UNIQUE column.
unfoldable pub find_session :
    (SessionRow → Bool) → Table String SessionRow → Option (String × SessionRow)
find_session test [] = none
find_session test ((id, row) ∷ rows) =
    let rest = find_session test rows in if test row then some (id, row) else rest

-- A row of sessions JOIN users JOIN devices.
pub record Joined : Type 0 where
  pub session_id : String
  pub session : SessionRow
  pub user : UserRow
  pub device : DeviceRow

unfoldable pub joined : Database → (SessionRow → Bool) → Option Joined
joined db test = elim (find_session test db.sessions) [
  | none ↦ none
  | some found ↦ elim (get db.users found.1.user_id) [
    | none ↦ none
    | some user ↦ elim (get db.devices (found.1.user_id, found.1.device_id)) [
      | none ↦ none
      | some device ↦
          some (record { session_id = found.0; session = found.1; user = user; device = device })
    ]
  ]
]

abbrev pub by_access : String → SessionRow → Bool
by_access hash row = row.access_token_hash == hash

abbrev pub by_refresh : String → SessionRow → Bool
by_refresh hash row = row.refresh_token_hash == hash

abbrev pub principal_of : Joined → Principal
principal_of row = record {
  session_id = row.session_id;
  user_id = row.session.user_id;
  username = row.user.username;
  device_id = row.session.device_id;
  platform = row.device.platform;
  latest_revision = row.user.sync_revision;
}

abbrev pub identity_of : Joined → SessionIdentity
identity_of row = record {
  session_id = row.session_id;
  user_id = row.session.user_id;
  username = row.user.username;
  device_id = row.session.device_id;
  platform = row.device.platform;
  latest_revision = row.user.sync_revision;
}

-- UPDATE of one row, by its primary key.
unfoldable pub update_session : Database → String → (SessionRow → SessionRow) → Database
update_session db session_id change = elim (get db.sessions session_id) [
  | none ↦ db
  | some row ↦ record db { sessions = put db.sessions session_id (change row) }
]

unfoldable pub update_device : Database → String → String → (DeviceRow → DeviceRow) → Database
update_device db user_id device_id change = elim (get db.devices (user_id, device_id)) [
  | none ↦ db
  | some row ↦ record db { devices = put db.devices (user_id, device_id) (change row) }
]

-- A transaction: what its body returns, and the database after its commit or its rollback.
abbrev pub commit {ℓ} :
    {A : Type ℓ}
    → Bool
    → Database
    → RepositoryResult (RepositoryResult A × Database)
    → RepositoryResult A × Database
commit committed db (err e) = (err e, db)
commit true db (ok (answer, db')) = (answer, db')
commit false db (ok (answer, db')) = (err database, db)

-- The CHECK on the platform.
abbrev pub valid_platform : String → Bool
valid_platform platform = platform == "windows" || platform == "macos"

abbrev pub renewed_device : String → Option String → ℤ → DeviceRow → DeviceRow
renewed_device platform device_name now row = record row {
  platform = platform;
  device_name = device_name;
  last_seen_at = now;
}

abbrev pub fresh_device : String → Option String → ℤ → DeviceRow
fresh_device platform device_name now = record {
  platform = platform;
  device_name = device_name;
  created_at = now;
  last_seen_at = now;
  revoked_at = none;
}

-- The device of a login: a revoked one is refused, a known one is renewed, a new one is added.
unfoldable pub register_device :
    Database → String → String → String → Option String → ℤ → RepositoryResult Database
register_device db user_id device_id platform device_name now =
    elim (get db.devices (user_id, device_id)) [
      | none ↦
          guard (valid_platform platform && is_some (get db.users user_id)) database
          >> ok (record db {
            devices = put db.devices (user_id, device_id) (fresh_device platform device_name now);
          })
      | some row ↦
          guard (not (is_some row.revoked_at)) device_revoked
          >> (guard (valid_platform platform) database
              >> ok (record db {
                devices =
                    put db.devices (user_id, device_id)
                      (renewed_device platform device_name now row);
              }))
    ]

abbrev pub fresh_session : String → String → String → String → ℤ → ℤ → SessionRow
fresh_session user_id device_id access_hash refresh_hash access_expires_at now = record {
  user_id = user_id;
  device_id = device_id;
  access_token_hash = access_hash;
  refresh_token_hash = refresh_hash;
  access_expires_at = access_expires_at;
  created_at = now;
  last_refreshed_at = now;
  last_seen_at = now;
  revoked_at = none;
}
