-- ===== src/Common/Clock.antt =====
-- Times as nanoseconds since Go's zero time, and durations as int64 nanoseconds.
use gpuswarm.Common.{ℕ, Bool, if◌then◌else◌, ltb}
use gpuswarm.Common.Int.{ℤ, pos, sub_ℕ, ltb_ℤ, ◌+ℤ◌, pos_part, min_int64, max_int64}

-- t.Sub(u): the difference, held within the range of a Duration.
unfoldable pub time_sub : ℕ → ℕ → ℤ
time_sub t u =
    let d = sub_ℕ t u in
    if ltb_ℤ max_int64 d then max_int64 else if ltb_ℤ d min_int64 then min_int64 else d

-- t.After(u)
unfoldable pub time_after : ℕ → ℕ → Bool
time_after t u = ltb u t

-- t.Add(d); a sum before the zero time stays there.
unfoldable pub time_add : ℕ → ℤ → ℕ
unfolding ◌+ℤ◌
time_add t d = pos_part (pos t +ℤ d)
