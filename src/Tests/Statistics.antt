-- ===== src/Tests/Statistics.antt =====
-- The statistics at concrete calls: two first calls at once, and the text of a running time.
use rblpolicyd.Prelude.{
  ℕ, ◌≡◌, ◌≤◌, refl, true, false, some, [], ◌∷◌, Bytes, length, ◌==◌, if◌then◌else◌, arith,
}
use rblpolicyd.Stats.{fmt_secs, cleared, recorded}
use rblpolicyd.Stats.Latest.{Holds, recorded-Holds}
use rblpolicyd.Stats.Running.{read_time, fmt_secs-read_time}
use rblpolicyd.Stats.FirstUse.{
  tests, Timing, test_unset, clear, mark, enter, TimeRun, begin, next, IsSettled, Kept,
  TimeRun-Kept,
}

abbrev taken : ℕ → ℕ
taken k = if k == 0 then 5 else 6

abbrev unused : Timing
unused = record { times = record { init = false; ring = cleared }; call = λ k. tests }

-- Both calls find the flag unset, and the second clears the ring behind the entry of the first.
abbrev both : (q : Timing) × TimeRun taken unused (6 ∷ 5 ∷ []) q
both = (
  _,
  next
      (next
        (next
          (next
            (next
              (next (next (next begin (test_unset 0 refl refl)) (test_unset 1 refl refl))
                (clear 0 refl))
              (mark 0 refl))
            (enter 0 refl))
          (clear 1 refl))
        (mark 1 refl))
      (enter 1 refl),
)

TimeRun-Kept_example :
    Kept (6 ∷ 5 ∷ []) both.0.times.ring
    × (IsSettled unused → IsSettled both.0 × Holds both.0.times.ring (6 ∷ 5 ∷ []))
TimeRun-Kept_example = TimeRun-Kept [] (recorded-Holds cleared 0 []).0 both.1

-- Of two durations the ring has one.
first_is_lost : both.0.times.ring.count ≡ 1
unfolding recorded cleared
first_is_lost = refl

fmt_secs-read_time_example :
    (text : Bytes) × (read_time 5 text ≡ 694861)
    × (length text ≤ 126)
    × (fmt_secs (λ n. true) 694861 ≡ some text)
fmt_secs-read_time_example = fmt_secs-read_time (λ n. true) 694861 (omega arith)
