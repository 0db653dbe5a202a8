-- ===== src/PidFile.antt =====
-- pidfile.c: the file with the id of the running daemon. The file system and `kill` are given by what
-- they answer.
pub mod Written
use rblpolicyd.Prelude.{
  ℕ, ◌+◌, ◌-◌, ◌*◌, ◌^◌, ◌&&◌, Bool, true, false, Option, none, some, [], ◌∷◌, Bytes, ltb, ◌==◌,
  if◌then◌else◌,
}
use rblpolicyd.CString.{print}
use rblpolicyd.CString.Strtol.{within}

-- The result of `pid_get`: -1, a number, or a sum that an `int` does not hold, which C leaves
-- undefined.
pub data Pid : Type 0 where
  cannot_open : Pid
  pid : ℕ → Pid
  overflow : Pid

-- the digits at the beginning
unfoldable pub pid_loop : ℕ → Bytes → Pid
pid_loop n [] = pid n
pid_loop n (c ∷ cs) =
    let sum = 10 * n + (c - b'0') in
    let rest = pid_loop sum cs in
    if within b'0' b'9' c then (if ltb sum (2 ^ 31) then rest else overflow) else pid n

unfoldable pub pid_get : Option Bytes → Pid
pid_get none = cannot_open
pid_get (some contents) = pid_loop 0 contents

-- `stat` fails, or says whether the file is regular; what `fopen` gives to read; for which
-- processes `kill(pid, 0)` returns 0: not for one that lives and belongs to somebody else.
pub record Files : Type 0 where
  pub stat : Option Bool
  pub contents : Option Bytes
  pub kill_succeeds : ℕ → Bool

-- The check returns 0 (`true`) or -1, and did or did not remove the file.
pub data Check : Type 0 where
  checked : Bool → Bool → Check
  undefined : Check

-- from `kill` on
unfoldable pub check_process : Bool → Bool → Check
check_process regular killed =
    if killed
    then checked false false
    else if regular
    then checked true true
    else checked false false

unfoldable pub check_pid : Files → Bool → Pid → Check
check_pid f regular cannot_open = checked true false
check_pid f regular (pid n) =
    if n == 0 then checked true false else check_process regular (f.kill_succeeds n)
check_pid f regular overflow = undefined

unfoldable pub pid_check : Files → Check
pid_check f = elim f.stat [
  | none ↦ checked true false
  | some regular ↦ check_pid f regular (pid_get f.contents)
]

-- What `fopen`, `fprintf` and `fclose` say, for a process id that is not negative: the result, and the
-- text of the file if it was opened and all of the writes went well.
pub record Stream : Type 0 where
  pub opens : Bool
  pub prints : Bool
  pub closes : Bool

pub record Wrote : Type 0 where
  pub ok : Bool
  pub contents : Option Bytes

unfoldable pub pid_write : Stream → ℕ → Wrote
pid_write s n =
    if s.opens
    then record {
      ok = s.prints && s.closes;
      contents = if s.prints && s.closes then some (print n) else none;
    }
    else record { ok = false; contents = none }
