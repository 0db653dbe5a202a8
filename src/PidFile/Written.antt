-- ===== src/PidFile/Written.antt =====
-- What `pid_check` says of a file that `pid_write` wrote.
use rblpolicyd.Prelude.{
  ℕ, zero, suc, ◌+◌, ◌-◌, ◌*◌, ◌/◌, ◌%◌, ◌^◌, ◌<◌, ◌≡◌, refl, ap, ◌∙◌, Bool, true, false, some, [],
  ◌∷◌, Bytes, ◌==◌, if◌then◌else◌, arith,
}
use rblpolicyd.CString.{print, print_loop}
use rblpolicyd.CString.Strtol.{within}
use rblpolicyd.PidFile.{
  pid, pid_loop, pid_get, Files, checked, check_process, check_pid, pid_check, Stream, pid_write,
}

pid_digit :
    (n c : ℕ) (cs : Bytes)
    → within b'0' b'9' c ≡ true
    → 10 * n + (c - b'0') < 2 ^ 31
    → pid_loop n (c ∷ cs) ≡ pid_loop (10 * n + (c - b'0')) cs
unfolding pid_loop
pid_digit n c cs d fits = ground arith

pid_loop-print_loop :
    (fuel n : ℕ) (out : Bytes)
    → n < fuel
    → n < 2 ^ 31
    → pid_loop 0 (print_loop fuel n out) ≡ pid_loop n out
unfolding print_loop
pid_loop-print_loop zero n out h fits = elim h [ ]
pid_loop-print_loop (suc fuel) n out h fits = ground (
  arith,
  pid_loop-print_loop fuel (n / 10) ((b'0' + n % 10) ∷ out),
  pid_digit 0 (b'0' + n % 10) out,
  pid_digit (n / 10) (b'0' + n % 10) out,
)

-- The number that is written is read back.
pid_get-print : (n : ℕ) → n < 2 ^ 31 → pid_get (some (print n)) ≡ pid n
unfolding pid_get pid_loop print
pid_get-print n fits = pid_loop-print_loop (suc n) n [] (omega arith) fits

pid_write-contents :
    (s : Stream) (n : ℕ) → (pid_write s n).ok ≡ true → (pid_write s n).contents ≡ some (print n)
unfolding pid_write
pid_write-contents s n ok = ground arith

-- Where the id of a process was written without an error, the check of that file refuses to start,
-- and leaves the file, if `kill(pid, 0)` returns 0. If it returns an error, as for a process that has
-- ended, and also for a living one that may not be signalled, the check removes the file and allows
-- the start if the file is a regular one, and refuses if it is not.
pub pid_check-pid_write :
    (s : Stream) (n : ℕ) (f : Files) (regular : Bool)
    → 0 < n
    → n < 2 ^ 31
    → (pid_write s n).ok ≡ true
    → f.contents ≡ (pid_write s n).contents
    → f.stat ≡ some regular
    → pid_check f ≡ (
        if f.kill_succeeds n
        then checked false false
        else if regular
        then checked true true
        else checked false false)
unfolding pid_check check_pid check_process
pid_check-pid_write s n f regular positive fits ok same st =
    let written : f.contents ≡ some (print n) = same ∙ pid_write-contents s n ok in
    let read : pid_get f.contents ≡ pid n = ap pid_get written ∙ pid_get-print n fits in
    let real : (n == 0) ≡ false = ground arith in rw (st, read, real) refl
