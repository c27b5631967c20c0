-- ===== src/Server/Limiter.antt =====
-- `LoginRateLimiter` of apps/server/src/lib.rs: failed logins are counted per name, in windows.
use lvos.Base.{
  ℕ, suc, ◌+◌, min, String, Bool, false, ◌≡◌, refl, ap, ◌∙◌, inl, inr, Bool-cases, Option, none,
  some, List, [], ◌∷◌, length, All, arith, string_eq, ==_refl, leb, if◌then◌else◌, u32_max, not,
  ◌&&◌,
}
use lvos.Base.Int.{ℤ, leb_ℤ, saturating_sub}
use lvos.Base.Table.{Table, get, put, remove, get-put_self, get-remove}

pub record AttemptBucket : Type 0 where
  pub failures : ℕ
  pub window_started_at : ℤ

-- `now.saturating_sub(window_started_at) >= window_seconds`
abbrev pub is_over : AttemptBucket → ℤ → ℤ → Bool
is_over bucket now window_seconds =
    leb_ℤ window_seconds (saturating_sub now bucket.window_started_at)

-- The answer for the bucket that is found, and the attempts after: a window that is over is removed.
abbrev pub judge :
    Table String AttemptBucket
    → String
    → ℤ
    → ℕ
    → ℤ
    → Option AttemptBucket
    → Bool × Table String AttemptBucket
judge attempts username now max_failures window_seconds none = (false, attempts)
judge attempts username now max_failures window_seconds (some bucket) =
    if is_over bucket now window_seconds
    then (false, remove attempts username)
    else (leb max_failures bucket.failures, attempts)

unfoldable pub is_blocked :
    Table String AttemptBucket → String → ℤ → ℕ → ℤ → Bool × Table String AttemptBucket
is_blocked attempts username now max_failures window_seconds =
    judge attempts username now max_failures window_seconds (get attempts username)

-- `entry(...).or_insert(...)`
abbrev pub entered : Option AttemptBucket → ℤ → AttemptBucket
entered none now = record { failures = 0; window_started_at = now }
entered (some bucket) now = bucket

-- `failures.saturating_add(1)` on `u32`.
abbrev pub counted : AttemptBucket → AttemptBucket
counted bucket = record bucket { failures = min (bucket.failures + 1) u32_max }

abbrev pub restarted : AttemptBucket → ℤ → ℤ → AttemptBucket
restarted bucket now window_seconds =
    if is_over bucket now window_seconds
    then record { failures = 0; window_started_at = now }
    else bucket

unfoldable pub record_failure :
    Table String AttemptBucket → String → ℤ → ℤ → Table String AttemptBucket
record_failure attempts username now window_seconds =
    put attempts username
      (counted (restarted (entered (get attempts username) now) now window_seconds))

unfoldable pub clear : Table String AttemptBucket → String → Table String AttemptBucket
clear attempts username = remove attempts username

-- The failures of one name, one after the other.
unfoldable pub record_failures :
    Table String AttemptBucket → String → List ℤ → ℤ → Table String AttemptBucket
record_failures attempts username [] window_seconds = attempts
record_failures attempts username (now ∷ times) window_seconds =
    record_failures (record_failure attempts username now window_seconds) username times
      window_seconds

module _ (username : String) (window_seconds : ℤ) (start : ℤ) where
  -- The time lies in the window that began at `start`.
  abbrev pub IsWithin : ℤ → Type 0
  IsWithin now = leb_ℤ window_seconds (saturating_sub now start) ≡ false

  abbrev bucket_of : ℕ → AttemptBucket
  bucket_of failures = record { failures = failures; window_started_at = start }

  same :
      (now : ℤ) (failures : ℕ) (attempts : Table String AttemptBucket)
      → get attempts username ≡ some (bucket_of (min failures u32_max))
      → IsWithin now
      → counted (restarted (entered (get attempts username) now) now window_seconds)
        ≡ counted (bucket_of (min failures u32_max))
  same now failures attempts h within = rw (h, within) refl

  record_failures-count :
      (attempts : Table String AttemptBucket) (failures : ℕ) (times : List ℤ)
      → get attempts username
        ≡ some (record { failures = min failures u32_max; window_started_at = start })
      → All IsWithin times
      → get (record_failures attempts username times window_seconds) username
        ≡ some
            (record { failures = min (failures + length times) u32_max; window_started_at = start })
  unfolding record_failures record_failure
  record_failures-count attempts failures [] h within = ground (arith, h)
  record_failures-count attempts failures (now ∷ times) h within =
      let next = counted (record { failures = min failures u32_max; window_started_at = start }) in
      let stored = get-put_self attempts username next in
      let count : min (min failures u32_max + 1) u32_max ≡ min (failures + 1) u32_max =
        omega arith in
      let rest =
        record_failures-count (put attempts username next) (failures + 1) times
          (ground (arith, stored, count)) within.1 in
      let step : record_failure attempts username now window_seconds ≡ put attempts username next =
        ap (λ b. put attempts username b) (same now failures attempts h within.0) in
      let sum : failures + 1 + length times ≡ failures + suc (length times) = omega arith in
      ap (λ t. get (record_failures t username times window_seconds) username) step
      ∙ rest
      ∙ ap (λ n. some (bucket_of (min n u32_max))) sum

  record_failures-first :
      (attempts : Table String AttemptBucket) (times : List ℤ)
      → get attempts username ≡ none
      → IsWithin start
      → All IsWithin times
      → get (record_failures attempts username (start ∷ times) window_seconds) username
        ≡ some (bucket_of (min (suc (length times)) u32_max))
  unfolding record_failures record_failure
  record_failures-first attempts times absent first within =
      let opening : counted (restarted (entered (get attempts username) start) start window_seconds)
          ≡ bucket_of 1 =
        rw (absent, first) refl in
      let one : 1 + length times ≡ suc (length times) = omega arith in
      ap
        (λ b.
          get (record_failures (put attempts username b) username times window_seconds) username)
        opening
      ∙ record_failures-count (put attempts username (bucket_of 1)) 1 times
          (get-put_self attempts username (bucket_of 1)) within
      ∙ ap (λ n. some (bucket_of (min n u32_max))) one

is_blocked-found :
    (attempts : Table String AttemptBucket) (username : String) (now : ℤ) (max_failures : ℕ)
    (window_seconds : ℤ) {bucket : AttemptBucket}
    → get attempts username ≡ some bucket
    → (is_blocked attempts username now max_failures window_seconds).0
      ≡ (not (is_over bucket now window_seconds) && leb max_failures bucket.failures)
unfolding is_blocked
is_blocked-found attempts username now max_failures window_seconds {bucket} h =
    let answer = λ (found : Option AttemptBucket).
      (judge attempts username now max_failures window_seconds found).0 in
    elim (Bool-cases (is_over bucket now window_seconds)) [
      | inl over ↦ ap answer h ∙ rw over refl
      | inr within ↦ ap answer h ∙ rw within refl
    ]

-- After a name was cleared and its login then failed at `start` and at further times of the window
-- that begins there, the name is blocked at any time of that window exactly when the number of
-- failures has reached the limit, and at no time after the window.
pub is_blocked-record_failures :
    (username : String) (window_seconds start now : ℤ) (attempts : Table String AttemptBucket)
    (times : List ℤ) (max_failures : ℕ)
    → IsWithin username window_seconds start start
    → All (IsWithin username window_seconds start) times
    → (is_blocked
        (record_failures (clear attempts username) username (start ∷ times) window_seconds)
        username
        now
        max_failures
        window_seconds).0
      ≡ (not (leb_ℤ window_seconds (saturating_sub now start))
          && leb max_failures (min (suc (length times)) u32_max))
unfolding clear
is_blocked-record_failures username window_seconds start now attempts times max_failures first
      within =
    let fresh : get (remove attempts username) username ≡ none =
      ground (arith, get-remove attempts username username, ==_refl username) in
    let bucket =
      record_failures-first username window_seconds start (remove attempts username) times fresh
        first within in
    is_blocked-found
      (record_failures (clear attempts username) username (start ∷ times) window_seconds) username
      now max_failures window_seconds bucket
