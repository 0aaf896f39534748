-- ===== src/Base/Words.antt =====
-- Time, durations and machine words.
use Prim.Native.Nat.{ℕ, suc, ◌*◌, ◌+◌, ◌-◌, ◌%◌, ◌^◌}
use background_tasks.Base.Int.{ℤ, pos, negsuc, sub_ℕ, pos_part, neg_part}

-- A `time.Time`: nanoseconds since the zero time, so that `IsZero` is a test for 0.
abbrev pub Time : Type 0
Time = ℕ

-- A `time.Duration`: nanoseconds, of either sign.
abbrev pub Duration : Type 0
Duration = ℤ

abbrev pub second : ℕ
second = 1000000000

-- `t.Add(d)`; an instant before the zero time is not represented.
abbrev pub add_time : Time → Duration → Time
add_time t d = t + pos_part d - neg_part d

-- `now.Sub(t)`, and `time.Since(t)` at the instant `now`.
abbrev pub since : Time → Time → Duration
since now t = sub_ℕ now t

abbrev pub u64 : ℕ → ℕ
u64 n = n % 2 ^ 64

-- `time.Duration(n) * time.Second`
abbrev pub seconds : ℤ → Duration
seconds (pos n) = pos (n * second)
seconds (negsuc n) = sub_ℕ 0 (suc n * second)
