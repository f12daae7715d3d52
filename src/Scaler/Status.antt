-- ===== src/Scaler/Status.antt =====
-- The table of new statuses in the comment of `computeActiveCondition` (kpa.go), and where the code
-- follows it.
use serving.Prelude.{ℕ, zero, suc, ltb, ◌==◌, if◌then◌else◌}
use serving.Prelude.Int.{ℤ, pos, negsuc}
use serving.Scaler.Defs.{Activity, activating, active, inactive}

-- The rows for want = -1.
abbrev pub unknown_rows : ℕ → ℕ → Activity → Activity
unknown_rows ready min inactive = inactive
unknown_rows ready min activating =
    if ltb ready min then activating else if min == 0 then inactive else active
unknown_rows ready min active =
    if ltb ready min then activating else if min == 0 then inactive else active

-- The table, by want, got, min and the old status.
abbrev pub activity_table : ℤ → ℕ → ℕ → Activity → Activity
activity_table (pos zero) ready min old = inactive
activity_table (pos (suc n)) ready min old = if ltb ready min then activating else active
activity_table (negsuc n) ready min old = unknown_rows ready min old
