-- ===== src/Base/Word.antt =====
-- The checked conversions between the machine integers `u32`, `u64`, `usize` and `i64`.
use Prim.Native.Nat.{ℕ, ◌+◌, ◌-◌, min}
use mathlib.Core.Option.{Option, none, some}
use lvos.Base.Tests.{ltb, if◌then◌else◌}

-- 2^63, the first value that an `i64` cannot hold.
abbrev pub i64_limit : ℕ
i64_limit = 9223372036854775808

abbrev pub u64_limit : ℕ
u64_limit = 18446744073709551616

-- `i64::try_from(n)` of a `u64`.
abbrev pub i64_try_from : ℕ → Option ℕ
i64_try_from n = if ltb n i64_limit then some n else none

-- `n.checked_add(1)` on `u64`.
abbrev pub checked_add_one : ℕ → Option ℕ
checked_add_one n = if ltb (n + 1) u64_limit then some (n + 1) else none

-- `a.saturating_add(b)` on `u64`.
abbrev pub saturating_add : ℕ → ℕ → ℕ
saturating_add a b = min (a + b) (u64_limit - 1)

abbrev pub u32_max : ℕ
u32_max = 4294967295
