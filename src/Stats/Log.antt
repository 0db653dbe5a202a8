-- ===== src/Stats/Log.antt =====
-- `stats_log`. Floating point numbers are a parameter: what the code does with them is a conversion, a
-- quotient and `%0.1f`.
use rblpolicyd.Prelude.{
  ℕ, ◌+◌, ◌-◌, ◌%◌, ◌^◌, Bool, Option, none, some, ◌++◌, Bytes, codes, ltb, if◌then◌else◌,
}
use rblpolicyd.Prelude.Int.{ℤ, pos, negsuc}
use rblpolicyd.CString.{print}
use rblpolicyd.Address.{print_int}
use rblpolicyd.Stats.{int_mod, ring_average, Counts, fmt_secs, Stats}

pub record Float {ℓ} (F : Type ℓ) : Type ℓ where
  pub of_int : ℤ → F
  pub quotient : F → F → F
  pub print_tenths : F → Bytes

-- the number that the 32 bits of an `int` stand for
unfoldable pub signed : ℕ → ℤ
signed v = if ltb v (2 ^ 31) then pos v else negsuc (int_mod - 1 - v)

-- the arguments of the line, in its order; `requests` stands for the quotient, too
pub record LogLine : Type 0 where
  pub running : Bytes
  pub runtime : ℕ
  pub requests : ℕ
  pub workers : Counts
  pub worker_average : ℕ
  pub solvers : Counts
  pub solver_average : ℕ

-- the requests per minute; without a running time it divides by a zero
unfoldable pub per_minute {ℓ} : {F : Type ℓ} → Float F → LogLine → F
per_minute float l =
    float.quotient (float.of_int (signed l.requests))
      (float.quotient (float.of_int (pos l.runtime)) (float.of_int (pos 60)))

-- `%u`, `%d ms avg`, `%d parallel` and `%d current`, with `what` behind the number
unfoldable pub counts_text : Bytes → Counts → ℕ → Bytes
counts_text what c average =
    print c.num
    ++ what
    ++ print_int (signed average)
    ++ codes " ms avg, "
    ++ print_int (signed c.most)
    ++ codes " parallel, "
    ++ print_int (signed c.now)
    ++ codes " current)"

unfoldable pub line_text {ℓ} : {F : Type ℓ} → Float F → LogLine → Bytes
line_text float l =
    codes "Running for "
    ++ l.running
    ++ codes "; "
    ++ print_int (signed l.requests)
    ++ codes " requests ("
    ++ float.print_tenths (per_minute float l)
    ++ codes " req/min); "
    ++ counts_text (codes " workers (") l.workers l.worker_average
    ++ codes "; "
    ++ counts_text (codes " solvers (") l.solvers l.solver_average

-- What `stats_log` gives to `syslog`: the notice that there is no memory, or the line.
pub data Logged : Type 0 where
  out_of_memory : Logged
  logged : LogLine → Logged

unfoldable pub log_line : ℕ → Bytes → Stats → LogLine
log_line runtime running s = record {
  running = running;
  runtime = runtime;
  requests = s.requests;
  workers = s.workers;
  worker_average = ring_average s.workertime.ring;
  solvers = s.solvers;
  solver_average = ring_average s.solvertime.ring;
}

unfoldable pub log_with : ℕ → Option Bytes → Stats → Logged
log_with runtime none s = out_of_memory
log_with runtime (some running) s = logged (log_line runtime running s)

-- `runtime = now - start`
unfoldable pub runtime_at : ℕ → Stats → ℕ
runtime_at now s = (now + (int_mod - s.start % int_mod)) % int_mod

unfoldable pub stats_log : (strdup : ℕ → Bool) → ℕ → Stats → Logged
stats_log strdup now s = log_with (runtime_at now s) (fmt_secs strdup (runtime_at now s)) s

unfoldable pub message {ℓ} : {F : Type ℓ} → Float F → Logged → Bytes
message float out_of_memory = codes "Out of memory in stats_log()"
message float (logged l) = line_text float l
