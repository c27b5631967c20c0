-- ===== src/Server/Sessions/Operations.antt =====
-- The operations on sessions and devices (apps/server/src/repository.rs).
use lvos.Base.{
  String, Bool, ◌&&◌, not, Option, none, some, [], ◌∷◌, ◌==◌, string_eq, pair_eq, if◌then◌else◌, ok,
  err, ◌>>=◌, ◌>>◌, guard, ok_or,
}
use lvos.Base.Int.{ℤ, leb_ℤ, saturating_sub}
use lvos.Base.Table.{Table, get, put, insert}
use lvos.Server.Database.{
  Database, DeviceRow, SessionRow, database, not_found, session_invalid, access_expired,
  refresh_expired, session_revoked, device_revoked, user_disabled,
}
use lvos.Server.Sessions.{
  RepositoryResult, UserCredential, Principal, SessionIdentity, Joined, is_some, coalesce,
  token_taken, joined, by_access, by_refresh, principal_of, identity_of, update_session,
  update_device, commit, register_device, fresh_session,
}

unfoldable pub session_body :
    Database
    → UserCredential
    → String
    → String
    → Option String
    → String
    → String
    → ℤ
    → String
    → ℤ
    → RepositoryResult (RepositoryResult SessionIdentity × Database)
session_body db user device_id platform device_name access refresh expires session_id now = do
  db' ← register_device db user.user_id device_id platform device_name now
  guard (not (token_taken db'.sessions session_id access refresh)) database
  sessions ←
      ok_or
        (insert db'.sessions session_id
          (fresh_session user.user_id device_id access refresh expires now))
        database
  ok (
    ok (record {
      session_id = session_id;
      user_id = user.user_id;
      username = user.username;
      device_id = device_id;
      platform = platform;
      latest_revision = user.sync_revision;
    }),
    record db' { sessions = sessions },
  )

unfoldable pub create_session :
    Bool
    → Database
    → UserCredential
    → String
    → String
    → Option String
    → String
    → String
    → ℤ
    → String
    → ℤ
    → RepositoryResult SessionIdentity × Database
create_session committed db user device_id platform device_name access refresh expires session_id
      now =
    commit committed db
      (session_body db user device_id platform device_name access refresh expires session_id now)

abbrev pub seen_session : ℤ → SessionRow → SessionRow
seen_session now row = record row { last_seen_at = now }

abbrev pub seen_device : ℤ → DeviceRow → DeviceRow
seen_device now row = record row { last_seen_at = now }

-- The four early returns, in their order.
unfoldable pub check_access : Joined → ℤ → RepositoryResult (Unit {0})
check_access row now =
    guard (not (is_some row.user.disabled_at)) user_disabled
    >> (guard (not (is_some row.device.revoked_at)) device_revoked
        >> (guard (not (is_some row.session.revoked_at)) session_revoked
            >> guard (not (leb_ℤ row.session.access_expires_at now)) access_expired))

-- The principal, and the database with the two updates of `last_seen_at`.
unfoldable pub authenticate_access : Database → String → ℤ → RepositoryResult (Principal × Database)
authenticate_access db access_hash now = do
  row ← ok_or (joined db (by_access access_hash)) session_invalid
  check_access row now
  let seen = update_session db row.session_id (seen_session now)
  ok (
    principal_of row,
    update_device seen row.session.user_id row.session.device_id (seen_device now),
  )

abbrev pub revoked_session : ℤ → SessionRow → SessionRow
revoked_session now row = record row { revoked_at = some now }

abbrev pub rotated_session : String → String → ℤ → ℤ → SessionRow → SessionRow
rotated_session access refresh expires now row = record row {
  access_token_hash = access;
  refresh_token_hash = refresh;
  access_expires_at = expires;
  last_refreshed_at = now;
  last_seen_at = now;
}

unfoldable pub check_refresh : Joined → RepositoryResult (Unit {0})
check_refresh row =
    guard (not (is_some row.user.disabled_at)) user_disabled
    >> (guard (not (is_some row.device.revoked_at)) device_revoked
        >> guard (not (is_some row.session.revoked_at)) session_revoked)

-- `now.saturating_sub(last_seen_at) >= refresh_idle_ttl_seconds`
abbrev pub is_idle : Joined → ℤ → ℤ → Bool
is_idle row idle_ttl now = leb_ℤ idle_ttl (saturating_sub now row.session.last_seen_at)

-- The tokens are replaced, and the session and its device are seen.
unfoldable pub rotate_body :
    Database
    → Joined
    → String
    → String
    → ℤ
    → ℤ
    → RepositoryResult (RepositoryResult SessionIdentity × Database)
rotate_body db row access refresh expires now =
    let rotated = update_session db row.session_id (rotated_session access refresh expires now) in
    guard (not (token_taken db.sessions row.session_id access refresh)) database
    >> ok (
      ok (identity_of row),
      update_device rotated row.session.user_id row.session.device_id (seen_device now),
    )

-- A session that was idle for too long is revoked, which is committed before the refusal.
unfoldable pub refresh_body :
    Database
    → String
    → String
    → String
    → ℤ
    → ℤ
    → ℤ
    → RepositoryResult (RepositoryResult SessionIdentity × Database)
refresh_body db refresh_hash access refresh expires idle_ttl now = do
  row ← ok_or (joined db (by_refresh refresh_hash)) session_invalid
  check_refresh row
  if is_idle row idle_ttl now
      then ok (err refresh_expired, update_session db row.session_id (revoked_session now))
      else rotate_body db row access refresh expires now

unfoldable pub rotate_refresh :
    Bool
    → Database
    → String
    → String
    → String
    → ℤ
    → ℤ
    → ℤ
    → RepositoryResult SessionIdentity × Database
rotate_refresh committed db refresh_hash access refresh expires idle_ttl now =
    commit committed db (refresh_body db refresh_hash access refresh expires idle_ttl now)

abbrev pub closed_session : ℤ → SessionRow → SessionRow
closed_session now row = record row { revoked_at = coalesce row.revoked_at now }

abbrev pub closed_device : ℤ → DeviceRow → DeviceRow
closed_device now row = record row { revoked_at = coalesce row.revoked_at now }

unfoldable pub revoke_session : Database → String → ℤ → Database
revoke_session db session_id now = update_session db session_id (closed_session now)

-- UPDATE sessions ... WHERE user_id = ?1 AND device_id = ?2
unfoldable pub close_sessions :
    Table String SessionRow → String → String → ℤ → Table String SessionRow
close_sessions [] user_id device_id now = []
close_sessions ((id, row) ∷ rows) user_id device_id now =
    let rest = close_sessions rows user_id device_id now in
    if row.user_id == user_id && row.device_id == device_id
    then (id, closed_session now row) ∷ rest
    else (id, row) ∷ rest

unfoldable pub revoke_body :
    Database → String → String → ℤ → RepositoryResult (RepositoryResult (Unit {0}) × Database)
revoke_body db user_id device_id now = elim (get db.devices (user_id, device_id)) [
  | none ↦ err not_found
  | some row ↦ ok (
    ok tt,
    record db {
      devices = put db.devices (user_id, device_id) (closed_device now row);
      sessions = close_sessions db.sessions user_id device_id now;
    },
  )
]

unfoldable pub revoke_device :
    Bool → Database → String → String → ℤ → RepositoryResult (Unit {0}) × Database
revoke_device committed db user_id device_id now =
    commit committed db (revoke_body db user_id device_id now)
