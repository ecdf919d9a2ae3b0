-- ===== src/Base/Clock.antt =====
-- Go's `time`: a point in time is the number of nanoseconds since the zero `Time` (year 1), so that
-- `IsZero` is a test for 0. A `Duration` is an int64 number of nanoseconds.
use mathlib.Core.Path.{◌≡◌}
use Prim.Native.Nat.{ℕ, ◌+◌, ◌-◌, ◌*◌, ◌%◌, ◌^◌, ◌≤◌}
use mathlib.Core.Bool.{Bool, ◌&&◌, not}
use native.Mathlib.Omega.{arith}
use gitvm.Base.Tests.{ltb, nat_beq, if◌then◌else◌}

abbrev pub Time : Type 0
Time = ℕ

-- `t.Add(time.Duration(seconds) * time.Second)`: the product wraps at 64 bits, and from 2 ^ 63 on it
-- is a negative number. (`t` is past 2 ^ 63 nanoseconds from the year 293 on, so that the
-- difference does not stop at 0.)
unfoldable pub add_seconds : Time → ℕ → Time
add_seconds t seconds =
    let d = seconds * 1000000000 % 2 ^ 64 in if ltb d (2 ^ 63) then t + d else t + d - 2 ^ 64

-- Up to 292 years nothing wraps.
pub add_seconds_exact :
    (t seconds : ℕ) → seconds ≤ 9223372036 → add_seconds t seconds ≡ t + seconds * 1000000000
unfolding add_seconds
add_seconds_exact t seconds h = ground arith

-- `!t.IsZero() && now.After(t)`
unfoldable pub has_passed : Time → Time → Bool
has_passed now t = not (nat_beq t 0) && ltb t now
