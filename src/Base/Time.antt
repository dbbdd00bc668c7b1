-- ===== src/Base/Time.antt =====
-- time.Time and time.Duration. A time is its nanoseconds since year 1, whose first instant is the
-- zero Time; a Duration is an int64 of nanoseconds.
use Prim.Native.Nat.{ℕ, ◌-◌}
use mathlib.Core.Bool.{Bool}
use orchard_gh_bridge.Base.Tests.{ltb, leb, ◌==◌, if◌then◌else◌}
use orchard_gh_bridge.Base.Int.{ℤ, pos, negsuc, two_63}

abbrev pub Time : Type 0
Time = ℕ

abbrev pub Duration : Type 0
Duration = ℤ

-- t.IsZero()
abbrev pub is_zero : Time → Bool
is_zero t = t == 0

abbrev pub second : ℕ
second = 1000000000

-- t.Sub(u), which stops at the least and the greatest Duration.
abbrev pub sub_time : Time → Time → Duration
sub_time t u =
    if leb u t
    then pos (if ltb (t - u) two_63 then t - u else two_63 - 1)
    else negsuc (if ltb (u - t - 1) two_63 then u - t - 1 else two_63 - 1)
