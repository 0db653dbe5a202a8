-- ===== src/Service/Idle.antt =====
-- The whole daemon at the times when no worker is live.
use rblpolicyd.Prelude.{
  ℕ, ◌+◌, ◌^◌, ◌≤◌, ◌<◌, ◌≡◌, ◌⊎◌, sym, ap, ◌∙◌, Bool, true, false, ◌||◌, some, List, [], ◌∷◌, ◌++◌,
  Bytes, length, ltb, All, Bool-cases, inl, inr, ◌==◌, arith,
}
use rblpolicyd.Prelude.Int.{ℤ}
use rblpolicyd.Request.{Event}
use rblpolicyd.Address.{Octets}
use rblpolicyd.CfgFile.{CfgItem}
use rblpolicyd.CfgFile.Valid.{IsItem}
use rblpolicyd.ThrMgr.{Heap, u32_mod}
use rblpolicyd.Worker.{Env}
use rblpolicyd.Worker.Ready.{HasMemory}
use rblpolicyd.Startup.{Ready, Machine, goes, main}
use rblpolicyd.Startup.Serving.{main-Serves}
use rblpolicyd.Protocol
use rblpolicyd.Protocol.{Query, Move, lock_entry, broadcast_to}
use rblpolicyd.Protocol.Inv.{guard}
use rblpolicyd.Tally.{Shared, TallyStep, lock, head}
use rblpolicyd.Tally.Defs
use rblpolicyd.Tally.Inv.{AreCounts}
use rblpolicyd.Workers.{Workers, Step, in_query, in_tally}
use rblpolicyd.Workers.InOrder.{HasEnded, Asks, AreServed, Run-in_order}
use rblpolicyd.Server.Crew.{hired}
use rblpolicyd.Server.Crew.Hiring.{Counted}
use rblpolicyd.Server.Crew.Safe.{Lives-Safe}
use rblpolicyd.Service.{
  Service, total, numbered, number_of, gone, ServiceStep, accepts, works, leaves, Runs, begins,
  next,
}
use rblpolicyd.Service.Seen.{Runs-Lives, Runs-Run, length-threads, length-numbered, length-gone}

Move-done :
    {n : ℕ} {answer : ℕ → ℕ} {q q' : Query}
    → Move n answer q q'
    → q.worker ≡ Protocol.done
    → q'.worker ≡ Protocol.done
unfolding broadcast_to
Move-done (lock_entry e l h) d = ground (arith, e, d)
Move-done mv d = ground (arith, guard mv, d)

TallyStep-ended :
    {m n : ℕ} {score : ℕ → ℕ → ℕ} {q q' : Shared} (w : ℕ)
    → TallyStep m n score q q'
    → q.worker w ≡ head n
    → q'.worker w ≡ head n
TallyStep-ended w (lock u l at k h) e = ground (arith, at, k, e)
TallyStep-ended w st e = ground (arith, Defs.guard st, e)

-- A worker that has ended takes no further step.
Step-HasEnded :
    {m n : ℕ} {answer : ℕ → ℕ → ℕ} {s s' : Workers} (w : ℕ)
    → Step m n answer s s'
    → HasEnded s n w
    → HasEnded s' n w
Step-HasEnded {s} w (in_query u l mv) ended = elim (Bool-cases (w == u)) [
  | inl here ↦
      let same : w ≡ u = ground (arith, here) in
      record {
        answered =
            rw here (Move-done mv (sym (ap (λ x. (s.queries x).worker) same) ∙ ended.answered));
        tallied = ended.tallied;
      }
  | inr there ↦ record { answered = rw there ended.answered; tallied = ended.tallied }
]
Step-HasEnded {s} w (in_tally st d) ended = record {
  answered = ended.answered;
  tallied = TallyStep-ended w st ended.tallied;
}

abbrev pub is_numbered : ℕ → List (ℕ × ℕ) → Bool
is_numbered w [] = false
is_numbered w ((t, v) ∷ crew) = (v == w) || is_numbered w crew

numbered-new :
    (w k : ℕ) (ts : List ℕ) (crew : List (ℕ × ℕ))
    → k ≤ w
    → w < length ts + k
    → is_numbered w (numbered k ts ++ crew) ≡ true
numbered-new w k [] crew le l = absurd (omega (arith, le, l))
numbered-new w k (t ∷ ts) crew le l = ground (arith, numbered-new w k ts crew le)

numbered-old :
    (w k : ℕ) (ts : List ℕ) (crew : List (ℕ × ℕ))
    → is_numbered w crew ≡ true
    → is_numbered w (numbered k ts ++ crew) ≡ true
numbered-old w k [] crew e = e
numbered-old w k (t ∷ ts) crew e = ground (arith, numbered-old w k ts crew e)

numbered-gone :
    (w tid v : ℕ) (crew : List (ℕ × ℕ))
    → number_of tid crew ≡ some v
    → is_numbered w crew ≡ true
    → (is_numbered w (gone tid crew) ≡ true) ⊎ (v ≡ w)
numbered-gone w tid v [] at e = absurd (ground (at, arith))
numbered-gone w tid v ((u, x) ∷ crew) at e = ground (arith, at, e, numbered-gone w tid v crew)

-- Each worker that was created is live or has ended.
abbrev AreKnown : ℕ → Service → Type 0
AreKnown n s = (w : ℕ) → w < total s → (is_numbered w s.crew ≡ true) ⊎ HasEnded s.workers n w

module _ {maxthreads : ℕ} {env : Env} {r : Ready} {client : ℕ → Octets}
    {conn : ℕ → List Event} where
  ServiceStep-AreKnown :
      {s s' : Service}
      → ServiceStep maxthreads env r client conn s s'
      → AreKnown (length r.rblist) s
      → AreKnown (length r.rblist) s'
  ServiceStep-AreKnown {s} (accepts t granted more e from) known w l =
      elim (Bool-cases (ltb w (total s))) [
        | inl old ↦ elim (known w (ground (arith, old))) [
          | inl there ↦ inl (numbered-old w (total s) (hired maxthreads t s.server) s.crew there)
          | inr ended ↦ inr ended
        ]
        | inr new ↦ inl (
            numbered-new w (total s) (hired maxthreads t s.server) s.crew (ground (arith, new))
              (omega (arith, l, length-numbered (total s) (hired maxthreads t s.server) s.crew)))
      ]
  ServiceStep-AreKnown (works st) known w l = elim (known w l) [
    | inl there ↦ inl there
    | inr ended ↦ inr (Step-HasEnded w st ended)
  ]
  ServiceStep-AreKnown {s} (leaves tid v at end e) known w l =
      elim (known w (omega (arith, l, length-gone tid v s.crew at))) [
        | inl there ↦ elim (numbered-gone w tid v s.crew at there) [
          | inl still ↦ inl still
          | inr same ↦ inr (rw (sym same) end)
        ]
        | inr ended ↦ inr ended
      ]

  Runs-AreKnown :
      {h : Heap} {s : Service}
      → Runs maxthreads env r client conn h s
      → AreKnown (length r.rblist) s
  Runs-AreKnown (begins limit) w l = absurd (omega (arith, l))
  Runs-AreKnown (next rs st) w l = ServiceStep-AreKnown st (Runs-AreKnown rs) w l

unasked-AreCounts : (l : List CfgItem) → All IsItem l → All AreCounts l
unasked-AreCounts [] a = tt
unasked-AreCounts (it ∷ l) (is, a) =
    ((omega (arith, is.unasked), omega (arith, is.unasked)), unasked-AreCounts l a)

-- The daemon from the end of `main` on, with any interleaving of its accept loop, its workers and
-- their solvers: whenever no worker is live, the list of blacklists is the one that calls of
-- `worker_th` one after another leave, one for each connection for which a worker was created, in
-- that order; each of these workers has written what its call writes; the list of names and weights
-- is the one that was read at the start; and the count of requests is, modulo 2 ^ 32, that of these
-- workers and of the connections that the loop closed. The limit is positive and below 2 ^ 32; the
-- list has fewer than 2 ^ 31 entries; each connection of a worker brings a request that names an
-- address whose names fit `rqname`; and memory is not short.
pub Runs-AreServed :
    {maxthreads : ℕ} {env : Env} {r : Ready} {client : ℕ → Octets} {conn : ℕ → List Event}
    {h : Heap} {s : Service} (m : Machine) (atoi : Bytes → ℤ) (options : List (ℕ × Bytes))
    (arguments : List Bytes)
    → main m atoi options arguments ≡ goes r
    → 0 < maxthreads
    → maxthreads < u32_mod
    → length r.rblist < 2 ^ 31
    → HasMemory env
    → Runs maxthreads env r client conn h s
    → ((w : ℕ) → w < total s → Asks env r.rblist (conn w) (client w))
    → s.crew ≡ []
    → AreServed (total s) env r.rblist client conn s.workers
      × (s.server.rblist ≡ r.rblist)
      × Counted s.server (total s)
Runs-AreServed {r} {conn} {s} m atoi options arguments started allowed small few memory rs asks
      idle =
    let (_, _, _, _, _, (_, valid), _) = main-Serves m atoi options arguments started in
    let (_, counted, kept, _, _) = Lives-Safe (Runs-Lives rs) allowed small in
    (
      Run-in_order conn few (unasked-AreCounts r.rblist valid) memory asks (Runs-Run rs) (λ w l.
          elim (Runs-AreKnown rs w l) [
            | inl there ↦ absurd (ground (there, idle, arith))
            | inr ended ↦ ended
          ]),
      kept,
      rw (length-threads s.crew) at counted,
    )
