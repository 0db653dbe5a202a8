-- ===== src/Stats.antt =====
-- stats.c: how many threads ran, how long the last of them took, and the text of a running time. A C
-- `int` is given by its 32 bits, an `unsigned long long` by its 64. The mutexes make each function one
-- step but for `stats_worker_time` and `stats_solver_time`, which are here as one thread alone runs
-- them; FirstUse has their steps where several threads call them. The line of `stats_log` is in Log.
pub mod Log
pub mod Running
pub mod FirstUse
pub mod Latest
pub mod Totals
pub mod Average
use rblpolicyd.Prelude.{
  ℕ, zero, suc, ◌+◌, ◌-◌, ◌*◌, ◌/◌, ◌%◌, ◌^◌, Bool, true, false, [], ◌∷◌, ◌++◌, Bytes, Option, none,
  some, length, take, ltb, ◌==◌, if◌then◌else◌,
}
use rblpolicyd.CString.{print}

abbrev pub int_mod : ℕ
int_mod = 2 ^ 32

abbrev pub ull_mod : ℕ
ull_mod = 2 ^ 64

abbrev ringbuffers : ℕ
ringbuffers = 16

-- `ring_t`
pub record Ring : Type 0 where
  pub count : ℕ
  pub index : ℕ
  pub val : ℕ → ℕ

-- the counts of one kind of thread: `num_workers`, `now_workers` and `max_workers`, and the like
pub record Counts : Type 0 where
  pub num : ℕ
  pub now : ℕ
  pub most : ℕ

-- `stats_worker_thr` and `stats_solver_thr`; `n` is the count of a manager, and below 2 ^ 31
unfoldable pub stats_thr : Counts → ℕ → Counts
stats_thr c n = record {
  num = (c.num + 1) % int_mod;
  now = n;
  most = if ltb c.most n then n else c.most;
}

pub record Timeval : Type 0 where
  pub tv_sec : ℕ
  pub tv_usec : ℕ

-- `tv_usec / 1000 + tv_sec`
unfoldable pub moment : Timeval → ℕ
moment t = (t.tv_usec / 1000 + t.tv_sec) % ull_mod

-- `duration = (l_end - l_start)`
unfoldable pub duration : Timeval → Timeval → ℕ
duration start end = ((moment end + (ull_mod - moment start)) % ull_mod) % int_mod

unfoldable pub set_val : (ℕ → ℕ) → ℕ → ℕ → (ℕ → ℕ)
set_val val i d j = if j == i then d else val j

unfoldable pub recorded : Ring → ℕ → Ring
recorded r d = record {
  count = if ltb r.count ringbuffers then r.count + 1 else r.count;
  index = (r.index + 1) % ringbuffers;
  val = set_val r.val r.index d;
}

-- `memset(&workertime, 0, sizeof(workertime))`
unfoldable pub cleared : Ring
cleared = record { count = 0; index = 0; val = λ i. 0 }

-- A ring with the flag of its first use.
pub record Times : Type 0 where
  pub init : Bool
  pub ring : Ring

-- `stats_worker_time` and `stats_solver_time`
unfoldable pub stats_time : Times → Timeval → Timeval → Times
stats_time t start end = record {
  init = true;
  ring = recorded (if t.init then t.ring else cleared) (duration start end);
}

-- an `int` as an `unsigned long long`
unfoldable pub widened : ℕ → ℕ
widened v = if ltb v (2 ^ 31) then v else v + (ull_mod - int_mod)

-- `for (i = 0; i < r->count; i++) sum += r->val[i]`, with `n` turns left
unfoldable pub sum_loop : ℕ → (ℕ → ℕ) → ℕ → ℕ → ℕ
sum_loop zero val i sum = sum
sum_loop (suc n) val i sum = sum_loop n val (suc i) ((sum + widened (val i)) % ull_mod)

unfoldable pub ring_average : Ring → ℕ
ring_average r = if r.count == 0 then 0 else (sum_loop r.count r.val 0 0 / r.count) % int_mod

pub record Split : Type 0 where
  pub weeks : ℕ
  pub days : ℕ
  pub hours : ℕ
  pub minutes : ℕ
  pub seconds : ℕ

unfoldable pub split : ℕ → Split
split s =
    let w = s / 604800 in
    let s₁ = s - w * 604800 in
    let d = s₁ / 86400 in
    let s₂ = s₁ - d * 86400 in
    let h = s₂ / 3600 in
    let s₃ = s₂ - h * 3600 in
    let m = s₃ / 60 in record { weeks = w; days = d; hours = h; minutes = m; seconds = s₃ - m * 60 }

-- `%02d`
unfoldable pub two_digits : ℕ → Bytes
two_digits n = if ltb n 10 then b'0' ∷ print n else print n

unfoldable pub fmt_parts : Split → Bytes
fmt_parts t =
    print t.weeks
    ++ (b'w'
        ∷ (print t.days
            ++ (b'd'
                ∷ (two_digits t.hours
                    ++ (b'h'
                        ∷ (two_digits t.minutes
                            ++ (b'm' ∷ (two_digits t.seconds ++ (b's' ∷ [])))))))))

-- `snprintf(buf, 127, ...)` writes at most 126 bytes.
unfoldable pub fmt_buffer : ℕ → Bytes
fmt_buffer s = take 126 (fmt_parts (split s))

unfoldable pub fmt_secs : (strdup : ℕ → Bool) → ℕ → Option Bytes
fmt_secs strdup s = if strdup (length (fmt_buffer s) + 1) then some (fmt_buffer s) else none

-- the variables of the file; `start` is the time of `stats_start`
pub record Stats : Type 0 where
  pub workers : Counts
  pub solvers : Counts
  pub workertime : Times
  pub solvertime : Times
  pub start : ℕ
  pub requests : ℕ

unfoldable pub stats_worker_thr : ℕ → Stats → Stats
stats_worker_thr n s = record s { workers = stats_thr s.workers n }

unfoldable pub stats_solver_thr : ℕ → Stats → Stats
stats_solver_thr n s = record s { solvers = stats_thr s.solvers n }

unfoldable pub stats_worker_time : Timeval → Timeval → Stats → Stats
stats_worker_time start end s = record s { workertime = stats_time s.workertime start end }

unfoldable pub stats_solver_time : Timeval → Timeval → Stats → Stats
stats_solver_time start end s = record s { solvertime = stats_time s.solvertime start end }

unfoldable pub stats_request : Stats → Stats
stats_request s = record s { requests = (s.requests + 1) % int_mod }

unfoldable pub stats_start : ℕ → Stats → Stats
stats_start now s = record s { start = now }
