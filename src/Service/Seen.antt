-- ===== src/Service/Seen.antt =====
-- A run of the whole daemon, seen from the accept loop and from the queries of its workers.
use rblpolicyd.Prelude.{
  ℕ, suc, ◌+◌, ◌≤◌, ◌≡◌, refl, ap, true, some, List, [], ◌∷◌, ◌++◌, length, arith,
}
use rblpolicyd.Request.{Event}
use rblpolicyd.Address.{Octets}
use rblpolicyd.CfgFile.{CfgItem}
use rblpolicyd.ThrMgr.{Heap}
use rblpolicyd.Worker.{Env}
use rblpolicyd.Startup.{Ready}
use rblpolicyd.Tally.{
  lock, load_questions, store_questions, load_positive, store_positive, skip, unlock,
}
use rblpolicyd.Workers
use rblpolicyd.Workers.{Workers, Step, in_query, in_tally, answer_to, Run}
use rblpolicyd.ThrMgr.Members.{without}
use rblpolicyd.Server.Crew
use rblpolicyd.Server.Crew.{is_live, hired, Lives}
use rblpolicyd.Service.{
  Service, total, threads, daemon_of, numbered, number_of, gone, accepts, works, leaves, Runs,
  begins, next,
}

threads-numbered :
    (k : ℕ) (ts : List ℕ) (crew : List (ℕ × ℕ))
    → threads (numbered k ts ++ crew) ≡ ts ++ threads crew
threads-numbered k [] crew = refl
threads-numbered k (t ∷ ts) crew = ap (λ us. t ∷ us) (threads-numbered k ts crew)

pub length-threads : (crew : List (ℕ × ℕ)) → length (threads crew) ≡ length crew
length-threads [] = refl
length-threads ((t, w) ∷ crew) = ap suc (length-threads crew)

pub length-numbered :
    (k : ℕ) (ts : List ℕ) (crew : List (ℕ × ℕ))
    → length (numbered k ts ++ crew) ≡ length ts + length crew
length-numbered k [] crew = omega arith
length-numbered k (t ∷ ts) crew = omega (arith, length-numbered k ts crew)

threads-gone : (t : ℕ) (crew : List (ℕ × ℕ)) → threads (gone t crew) ≡ without t (threads crew)
threads-gone t [] = refl
threads-gone t ((u, w) ∷ crew) = ground (arith, threads-gone t crew)

pub number_of-is_live :
    (t w : ℕ) (crew : List (ℕ × ℕ)) → number_of t crew ≡ some w → is_live t (threads crew) ≡ true
number_of-is_live t w [] e = absurd (ground (e, arith))
number_of-is_live t w ((u, v) ∷ crew) e = ground (arith, e, number_of-is_live t w crew)

pub length-gone :
    (t w : ℕ) (crew : List (ℕ × ℕ))
    → number_of t crew ≡ some w
    → length (gone t crew) + 1 ≡ length crew
length-gone t w [] e = absurd (ground (e, arith))
length-gone t w ((u, v) ∷ crew) e = ground (arith, e, length-gone t w crew)

-- With more workers the same step can be made.
Step-wider :
    {m n : ℕ} {answer : ℕ → ℕ → ℕ} {s s' : Workers} (m' : ℕ)
    → m ≤ m'
    → Step m n answer s s'
    → Step m' n answer s s'
Step-wider m' le (in_query w l mv) = in_query w (omega (arith, l, le)) mv
Step-wider m' le (in_tally (lock w l e k h) d) = in_tally (lock w (omega (arith, l, le)) e k h) d
Step-wider m' le (in_tally (load_questions w l e) d) =
    in_tally (load_questions w (omega (arith, l, le)) e) d
Step-wider m' le (in_tally (store_questions w l e) d) =
    in_tally (store_questions w (omega (arith, l, le)) e) d
Step-wider m' le (in_tally (load_positive w l e k) d) =
    in_tally (load_positive w (omega (arith, l, le)) e k) d
Step-wider m' le (in_tally (store_positive w l e) d) =
    in_tally (store_positive w (omega (arith, l, le)) e) d
Step-wider m' le (in_tally (skip w l e k) d) = in_tally (skip w (omega (arith, l, le)) e k) d
Step-wider m' le (in_tally (unlock w l e) d) = in_tally (unlock w (omega (arith, l, le)) e) d

Run-wider :
    {m : ℕ} {env : Env} {rblist : List CfgItem} {client : ℕ → Octets} {s : Workers} (m' : ℕ)
    → m ≤ m'
    → Run m env rblist client s
    → Run m' env rblist client s
Run-wider m' le Workers.begin = Workers.begin
Run-wider m' le (Workers.next rs st) = Workers.next (Run-wider m' le rs) (Step-wider m' le st)

module _ {maxthreads : ℕ} {env : Env} {r : Ready} {client : ℕ → Octets} {conn : ℕ → List Event}
    {h : Heap} where
  pub Runs-Lives :
      {s : Service} → Runs maxthreads env r client conn h s → Lives maxthreads h r (daemon_of s)
  Runs-Lives (begins limit) = Crew.begins limit
  Runs-Lives (next {s} rs (accepts t granted more e from)) =
      rw (threads-numbered (total s) (hired maxthreads t s.server) s.crew)
        (Crew.next (Runs-Lives rs) (Crew.accepts t granted more e))
  Runs-Lives (next rs (works st)) = Runs-Lives rs
  Runs-Lives (next {s} rs (leaves tid w at end e)) =
      rw (threads-gone tid s.crew)
        (Crew.next (Runs-Lives rs) (Crew.leaves tid (number_of-is_live tid w s.crew at) e))

  pub Runs-Run :
      {s : Service}
      → Runs maxthreads env r client conn h s
      → Run (total s) env r.rblist client s.workers
  Runs-Run (begins limit) = Workers.begin
  Runs-Run (next {s} rs (accepts t granted more e from)) =
      let new = hired maxthreads t s.server in
      Run-wider (length (numbered (total s) new ++ s.crew) + s.past)
        (omega (arith, length-numbered (total s) new s.crew)) (Runs-Run rs)
  Runs-Run (next rs (works st)) = Workers.next (Runs-Run rs) st
  Runs-Run (next {s} rs (leaves tid w at end e)) =
      Run-wider (length (gone tid s.crew) + suc s.past) (omega (arith, length-gone tid w s.crew at))
        (Runs-Run rs)
