-- ===== src/Server/Sessions/Refusal.antt =====
-- When a token is accepted, and that none of a revoked device is
-- (apps/server/src/repository.rs).
use lvos.Base.{
  String, Bool, true, false, ◌≡◌, ◌≢◌, refl, sym, ap, ◌∙◌, inl, inr, Option, none, some, arith, ok,
  ok_or, err, >>=-eq-ok, Option-cases, string_eq, pair_eq,
}
use lvos.Base.Int.{ℤ, leb_ℤ}
use lvos.Base.Table.{get, put, get-put_self}
use lvos.Server.Database.{Database, DeviceRow, SessionRow, session_invalid}
use lvos.Server.Sessions.{
  RepositoryResult, coalesce, Joined, Principal, SessionIdentity, joined, find_session, by_access,
  by_refresh, principal_of, identity_of, commit,
}
use lvos.Server.Sessions.Operations.{
  authenticate_access, check_access, check_refresh, rotate_refresh, refresh_body, rotate_body,
  is_idle, revoke_device, revoke_body, closed_device,
}

-- The session is open: its user, its device and the session itself are not closed.
abbrev pub IsOpen : Joined → Type 0
IsOpen row =
    (row.user.disabled_at ≡ none) × (row.device.revoked_at ≡ none) × (row.session.revoked_at ≡ none)

joined-device :
    (db : Database) (test : SessionRow → Bool) {row : Joined}
    → joined db test ≡ some row
    → get db.devices (row.session.user_id, row.session.device_id) ≡ some row.device
unfolding joined
joined-device db test {row} h = elim (Option-cases (find_session test db.sessions)) [
  | inl missing ↦ absurd (ground (arith, h, missing))
  | inr (found, at) ↦ elim (Option-cases (get db.users found.1.user_id)) [
    | inl missing ↦ absurd (ground (arith, h, at, missing))
    | inr (user, known) ↦
        elim (Option-cases (get db.devices (found.1.user_id, found.1.device_id))) [
          | inl missing ↦ absurd (ground (arith, h, at, known, missing))
          | inr (device, there) ↦ ground (arith, h, at, known, there)
        ]
  ]
]

-- An access token that is accepted belongs to an open session that has not expired, and the
-- principal is that session's.
pub authenticate_access-IsOpen :
    (db : Database) (access_hash : String) (now : ℤ) {principal : Principal} {db' : Database}
    → authenticate_access db access_hash now ≡ ok (principal, db')
    → (row : Joined) × (joined db (by_access access_hash) ≡ some row)
      × IsOpen row
      × (leb_ℤ row.session.access_expires_at now ≡ false)
      × (principal ≡ principal_of row)
unfolding authenticate_access check_access
authenticate_access-IsOpen db access_hash now {principal} h =
    let (row, found, h1) =
      >>=-eq-ok (ok_or (joined db (by_access access_hash)) session_invalid) _ h in
    let (_, checked, h2) = >>=-eq-ok (check_access row now) _ h1 in
    (
      row,
      ground (arith, found),
      (ground (arith, checked), ground (arith, checked), ground (arith, checked)),
      ground (arith, checked),
      ground (arith, h2),
    )

commit-ok :
    (committed : Bool) (db : Database)
    (m : RepositoryResult (RepositoryResult SessionIdentity × Database))
    {identity : SessionIdentity} {db' : Database}
    → commit committed db m ≡ (ok identity, db')
    → m ≡ ok (ok identity, db')
commit-ok true db (ok (answer, after)) h = ground (arith, h)
commit-ok false db (ok (answer, after)) h = absurd (ground (arith, h))
commit-ok committed db (err e) h = absurd (ground (arith, h))

-- A refresh token that is rotated belongs to an open session that was not idle for too long, and
-- the identity is that session's.
pub rotate_refresh-IsOpen :
    (committed : Bool) (db : Database) (refresh_hash access refresh : String)
    (expires idle_ttl now : ℤ) {identity : SessionIdentity} {db' : Database}
    → rotate_refresh committed db refresh_hash access refresh expires idle_ttl now
      ≡ (ok identity, db')
    → (row : Joined) × (joined db (by_refresh refresh_hash) ≡ some row)
      × IsOpen row
      × (is_idle row idle_ttl now ≡ false)
      × (identity ≡ identity_of row)
unfolding rotate_refresh refresh_body check_refresh rotate_body
rotate_refresh-IsOpen committed db refresh_hash access refresh expires idle_ttl now {identity} h =
    let body = commit-ok committed db _ h in
    let (row, found, h1) =
      >>=-eq-ok (ok_or (joined db (by_refresh refresh_hash)) session_invalid) _ body in
    let (_, checked, h2) = >>=-eq-ok (check_refresh row) _ h1 in
    (
      row,
      ground (arith, found),
      (ground (arith, checked), ground (arith, checked), ground (arith, checked)),
      ground (arith, h2),
      ground (arith, h2),
    )

coalesce-some : (a : Option ℤ) (now : ℤ) → (at : ℤ) × (coalesce a now ≡ some at)
coalesce-some none now = (now, refl)
coalesce-some (some at) now = (at, refl)

revoke_body-closed :
    (db : Database) (user_id device_id : String) (now : ℤ) {db' : Database}
    → revoke_device true db user_id device_id now ≡ (ok tt, db')
    → (device : DeviceRow) × (get db'.devices (user_id, device_id) ≡ some device)
      × ((at : ℤ) × (device.revoked_at ≡ some at))
unfolding revoke_device revoke_body
revoke_body-closed db user_id device_id now {db'} h =
    elim (Option-cases (get db.devices (user_id, device_id))) [
      | inl missing ↦ absurd (ground (arith, h, missing))
      | inr (row, there) ↦
          let stored = get-put_self db.devices (user_id, device_id) (closed_device now row) in
          let kept : db'.devices ≡ put db.devices (user_id, device_id) (closed_device now row) =
            ground (arith, h, there) in
          (
            closed_device now row,
            ap (λ rows. get rows (user_id, device_id)) kept ∙ stored,
            coalesce-some row.revoked_at now,
          )
    ]

-- Once a device is revoked, no access token authenticates as it and no refresh token is rotated
-- for it, whatever the token and the time.
pub revoke_device-refused :
    (db : Database) (user_id device_id : String) (now : ℤ) {db' : Database}
    → revoke_device true db user_id device_id now ≡ (ok tt, db')
    → ((access_hash : String) (later : ℤ) (principal : Principal) (after : Database)
        → authenticate_access db' access_hash later ≡ ok (principal, after)
        → ◌≢◌ {A = String × String} (principal.user_id, principal.device_id) (user_id, device_id))
      × ((refresh_hash access refresh : String) (expires idle_ttl later : ℤ)
            (identity : SessionIdentity) (after : Database)
          → rotate_refresh true db' refresh_hash access refresh expires idle_ttl later
            ≡ (ok identity, after)
          → ◌≢◌ {A = String × String} (identity.user_id, identity.device_id) (user_id, device_id))
revoke_device-refused db user_id device_id now {db'} h =
    let (device, there, (at, closed)) = revoke_body-closed db user_id device_id now h in
    let refused : (test : SessionRow → Bool) (row : Joined)
        → joined db' test ≡ some row
        → IsOpen row
        → ◌≢◌ {A = String × String} (row.session.user_id, row.session.device_id)
            (user_id, device_id) =
      λ test row found opened same.
        let own = joined-device db' test found in
        let device' : some row.device ≡ some device = sym own ∙ ap (get db'.devices) same ∙ there in
        ground (arith, device', closed, opened) in
    (
      λ access_hash later principal after ok'.
          let (row, found, opened, live, own) =
            authenticate_access-IsOpen db' access_hash later ok' in
          λ same.
            refused (by_access access_hash) row found opened
              (ap (λ (p : Principal). (p.user_id, p.device_id)) (sym own) ∙ same),
      λ refresh_hash access refresh expires idle_ttl later identity after ok'.
          let (row, found, opened, live, own) =
            rotate_refresh-IsOpen true db' refresh_hash access refresh expires idle_ttl later ok' in
          λ same.
            refused (by_refresh refresh_hash) row found opened
              (ap (λ (p : SessionIdentity). (p.user_id, p.device_id)) (sym own) ∙ same),
    )
