-- ===== src/Server/Examples/Sessions.antt =====
-- A session that is used, refreshed and closed, and a name whose logins fail.
use lvos.Base.{
  min, suc, String, ◌≡◌, ◌≢◌, refl, true, false, not, ◌&&◌, leb, none, some, [], ◌∷◌, ok, string_eq,
  pair_eq, u32_max,
}
use lvos.Base.Int.{ℤ, pos, leb_ℤ, saturating_sub}
use lvos.Base.Table.{get, put}
use lvos.Server.Database.{Database, SessionRow}
use lvos.Server.Sessions.{
  Joined, Principal, SessionIdentity, joined, find_session, token_taken, update_session,
  update_device, by_access, by_refresh, principal_of, identity_of,
}
use lvos.Server.Sessions.Operations.{
  authenticate_access, check_access, check_refresh, rotate_refresh, refresh_body, rotate_body,
  revoke_device, revoke_body, close_sessions, is_idle,
}
use lvos.Server.Sessions.Refusal.{
  IsOpen, authenticate_access-IsOpen, rotate_refresh-IsOpen, revoke_device-refused,
}
use lvos.Server.Limiter.{is_blocked, record_failures, clear, is_blocked-record_failures}
use lvos.Server.Examples.{start, device}

abbrev session : SessionRow
session = record {
  user_id = "ada";
  device_id = "laptop";
  access_token_hash = "access";
  refresh_token_hash = "refresh";
  access_expires_at = pos 100;
  created_at = pos 2;
  last_refreshed_at = pos 2;
  last_seen_at = pos 2;
  revoked_at = none;
}

abbrev online : Database
online = record start { sessions = ("s1", session) ∷ [] }

abbrev principal : Principal
principal = record {
  session_id = "s1";
  user_id = "ada";
  username = "ada";
  device_id = "laptop";
  platform = "macos";
  latest_revision = 0;
}

abbrev identity : SessionIdentity
identity = record {
  session_id = "s1";
  user_id = "ada";
  username = "ada";
  device_id = "laptop";
  platform = "macos";
  latest_revision = 0;
}

authenticate_access-IsOpen_example :
    (row : Joined) × (joined online (by_access "access") ≡ some row)
    × IsOpen row
    × (leb_ℤ row.session.access_expires_at (pos 6) ≡ false)
    × (principal ≡ principal_of row)
unfolding authenticate_access check_access joined find_session update_session update_device get put
authenticate_access-IsOpen_example =
    authenticate_access-IsOpen online "access" (pos 6) {principal = principal} refl

rotate_refresh-IsOpen_example :
    (row : Joined) × (joined online (by_refresh "refresh") ≡ some row)
    × IsOpen row
    × (is_idle row (pos 50) (pos 6) ≡ false)
    × (identity ≡ identity_of row)
unfolding rotate_refresh refresh_body check_refresh rotate_body joined find_session token_taken
    update_session update_device get put
rotate_refresh-IsOpen_example =
    rotate_refresh-IsOpen true online "refresh" "access2" "refresh2" (pos 200) (pos 50) (pos 6)
      {identity = identity} refl

abbrev revoked : Database
revoked = record online {
  devices =
      (("ada", "laptop"), record device { revoked_at = some (pos 9) })
      ∷ (("ada", "desk"), device)
      ∷ [];
  sessions = ("s1", record session { revoked_at = some (pos 9) }) ∷ [];
}

revoke_device-refused_example :
    ((access_hash : String) (later : ℤ) (someone : Principal) (after : Database)
      → authenticate_access revoked access_hash later ≡ ok (someone, after)
      → ◌≢◌ {A = String × String} (someone.user_id, someone.device_id) ("ada", "laptop"))
    × ((refresh_hash access refresh : String) (expires idle_ttl later : ℤ)
          (someone : SessionIdentity) (after : Database)
        → rotate_refresh true revoked refresh_hash access refresh expires idle_ttl later
          ≡ (ok someone, after)
        → ◌≢◌ {A = String × String} (someone.user_id, someone.device_id) ("ada", "laptop"))
unfolding revoke_device revoke_body close_sessions get put
revoke_device-refused_example =
    revoke_device-refused online "ada" "laptop" (pos 9) {db' = revoked} refl

is_blocked-record_failures_example :
    (is_blocked
      (record_failures (clear [] "ada") "ada" (pos 10 ∷ pos 12 ∷ []) (pos 60))
      "ada"
      (pos 15)
      2
      (pos 60)).0
    ≡ (not (leb_ℤ (pos 60) (saturating_sub (pos 15) (pos 10))) && leb 2 (min (suc 1) u32_max))
is_blocked-record_failures_example =
    is_blocked-record_failures "ada" (pos 60) (pos 10) (pos 15) [] (pos 12 ∷ []) 2 refl (refl, tt)
