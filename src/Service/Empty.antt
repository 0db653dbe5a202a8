-- ===== src/Service/Empty.antt =====
-- Without further connections all workers end and leave.
use rblpolicyd.Prelude.{
  ℕ, zero, suc, ◌+◌, ◌^◌, ◌<◌, ◌≡◌, ◌⊎◌, refl, ap, ◌∙◌, Bool, true, false, some, List, [], ◌∷◌,
  ◌++◌, Bytes, length, inl, inr, arith,
}
use rblpolicyd.Prelude.Int.{ℤ}
use rblpolicyd.Request.{Event}
use rblpolicyd.Address.{Octets}
use rblpolicyd.ThrMgr.{Heap, u32_mod}
use rblpolicyd.Worker.{Env}
use rblpolicyd.Worker.Ready.{HasMemory}
use rblpolicyd.Startup.{Ready, Machine, goes, main}
use rblpolicyd.Workers.InOrder.{HasEnded, Asks, AreServed}
use rblpolicyd.Workers.Weight.{is_well, IsSound, whole_weight, Step-IsSound, ended-cases}
use rblpolicyd.Workers.Ends.{Step-whole_weight, waiting_goes}
use rblpolicyd.Server.Crew.{hired}
use rblpolicyd.Server.Crew.Hiring.{Counted}
use rblpolicyd.Server.Crew.Safe.{Lives-Safe}
use rblpolicyd.Service.{
  Service, total, numbered, number_of, gone, ServiceStep, accepts, works, leaves, Runs, begins,
  next,
}
use rblpolicyd.Service.Seen.{Runs-Lives, Runs-Run, length-numbered, length-gone, number_of-is_live}
use rblpolicyd.Service.Idle.{is_numbered, Runs-AreServed}

module _ {maxthreads : ℕ} {env : Env} {r : Ready} {client : ℕ → Octets}
    {conn : ℕ → List Event} where
  -- No connection is accepted, no creation of a solver fails, and no wakeup is spurious.
  abbrev is_calm : {s s' : Service} → ServiceStep maxthreads env r client conn s s' → Bool
  is_calm (accepts t granted more e from) = false
  is_calm (works st) = is_well st
  is_calm (leaves tid w at end e) = true

  calm-total :
      {s s' : Service} (st : ServiceStep maxthreads env r client conn s s')
      → is_calm st ≡ true
      → total s' ≡ total s
  calm-total (accepts t granted more e from) calm = absurd (ground (calm, arith))
  calm-total (works st) calm = refl
  calm-total {s} (leaves tid w at end e) calm = omega (arith, length-gone tid w s.crew at)

  calm-IsSound :
      {s s' : Service} (st : ServiceStep maxthreads env r client conn s s')
      → is_calm st ≡ true
      → IsSound s.workers
      → IsSound s'.workers
  calm-IsSound (accepts t granted more e from) calm sound = sound
  calm-IsSound (works st) calm sound = Step-IsSound st calm sound
  calm-IsSound (leaves tid w at end e) calm sound = sound

numbered-below :
    (w k : ℕ) (ts : List ℕ) (crew : List (ℕ × ℕ))
    → is_numbered w (numbered k ts ++ crew) ≡ true
    → (is_numbered w crew ≡ true) ⊎ (w < length ts + k)
numbered-below w k [] crew e = inl e
numbered-below w k (t ∷ ts) crew e = ground (arith, e, numbered-below w k ts crew)

gone-numbered :
    (w t : ℕ) (crew : List (ℕ × ℕ)) → is_numbered w (gone t crew) ≡ true → is_numbered w crew ≡ true
gone-numbered w t [] e = e
gone-numbered w t ((u, v) ∷ crew) e = ground (arith, e, gone-numbered w t crew)

-- Whichever thread goes on, and whenever, all workers leave, and `P` holds then.
pub data AllLeave (maxthreads : ℕ) (env : Env) (r : Ready) (client : ℕ → Octets)
    (conn : ℕ → List Event) (P : Service → Type 0) : Service → Type 0 where
  now : {s : Service} → s.crew ≡ [] → P s → AllLeave maxthreads env r client conn P s
  later :
      {s s' : Service} (st : ServiceStep maxthreads env r client conn s s')
      → is_calm st ≡ true
      → ((s'' : Service) (st' : ServiceStep maxthreads env r client conn s s'')
          → is_calm st' ≡ true
          → AllLeave maxthreads env r client conn P s'')
      → AllLeave maxthreads env r client conn P s

-- the steps of the workers, and then one for each that leaves
abbrev tasks : ℕ → Service → ℕ
tasks n s = whole_weight n (total s) s.workers + length s.crew

module _ {maxthreads : ℕ} {env : Env} {r : Ready} {client : ℕ → Octets} {conn : ℕ → List Event}
    {h : Heap} (few : length r.rblist < 2 ^ 31) where
  calm-tasks :
      {s s' : Service} (st : ServiceStep maxthreads env r client conn s s')
      → is_calm st ≡ true
      → Runs maxthreads env r client conn h s
      → tasks (length r.rblist) s' < tasks (length r.rblist) s
  calm-tasks (accepts t granted more e from) calm rs = absurd (ground (calm, arith))
  calm-tasks (works st) calm rs = omega (arith, Step-whole_weight few (Runs-Run rs) st calm)
  calm-tasks {s} (leaves tid w at end e) calm rs =
      let same : length (gone tid s.crew) + suc s.past ≡ total s =
        omega (arith, length-gone tid w s.crew at) in
      omega (
        arith,
        ap (λ k. whole_weight (length r.rblist) k s.workers) same,
        length-gone tid w s.crew at,
      )

  -- The numbers of the live workers are below their count.
  Runs-numbered :
      {s : Service}
      → Runs maxthreads env r client conn h s
      → (w : ℕ) → is_numbered w s.crew ≡ true
      → w < total s
  Runs-numbered (begins limit) w e = absurd (ground (e, arith))
  Runs-numbered (next {s} rs (accepts t granted more from own)) w e =
      let new = hired maxthreads t s.server in
      let counted = length-numbered (total s) new s.crew in
      elim (numbered-below w (total s) new s.crew e) [
        | inl old ↦ omega (arith, counted, Runs-numbered rs w old)
        | inr below ↦ omega (arith, counted, below)
      ]
  Runs-numbered (next rs (works st)) w e = Runs-numbered rs w e
  Runs-numbered (next {s} rs (leaves tid v at end exit)) w e =
      omega (arith, length-gone tid v s.crew at, Runs-numbered rs w (gone-numbered w tid s.crew e))

  module _ (allowed : 0 < maxthreads) (small : maxthreads < u32_mod) where
    -- A worker that has ended can leave.
    leaving_goes :
        {s : Service} (tid w : ℕ)
        → Runs maxthreads env r client conn h s
        → number_of tid s.crew ≡ some w
        → HasEnded s.workers (length r.rblist) w
        → (s' : Service) × (st : ServiceStep maxthreads env r client conn s s') × (is_calm st
            ≡ true)
    leaving_goes {s} tid w rs at end =
        let (_, _, _, exits, _) = Lives-Safe (Runs-Lives rs) allowed small in
        let (mgr, g, e) = exits tid (number_of-is_live tid w s.crew at) in
        (_, leaves tid w at end e, refl)

    -- As long as a worker is live, some step can be made.
    calm_goes :
        {s : Service} (crew : List (ℕ × ℕ))
        → s.crew ≡ crew
        → Runs maxthreads env r client conn h s
        → IsSound s.workers
        → (s.crew ≡ [])
          ⊎ ((s' : Service) × (st : ServiceStep maxthreads env r client conn s s') × (is_calm st
                ≡ true))
    calm_goes [] same rs sound = inl same
    calm_goes {s} ((tid, w) ∷ crew) same rs sound =
        elim (ended-cases s.workers (length r.rblist) (total s)) [
          | inl ended ↦
              let first : number_of tid s.crew ≡ some w = rw same (ground arith) in
              let live : is_numbered w s.crew ≡ true = rw same (ground arith) in
              inr (leaving_goes tid w rs first (ended w (Runs-numbered rs w live)))
          | inr (u, l, waits) ↦
              let (ws, st, well) = waiting_goes few (Runs-Run rs) sound u l waits in
              inr (_, works st, well)
        ]

    tasks-AllLeave :
        (P : Service → Type 0) (k : ℕ)
        → ((s : Service) → Runs maxthreads env r client conn h s → total s ≡ k → s.crew ≡ [] → P s)
        → (fuel : ℕ) {s : Service} → Runs maxthreads env r client conn h s
        → total s ≡ k
        → IsSound s.workers
        → tasks (length r.rblist) s < fuel
        → AllLeave maxthreads env r client conn P s
    tasks-AllLeave P k at_idle zero rs same sound enough = absurd (omega (arith, enough))
    tasks-AllLeave P k at_idle (suc fuel) {s} rs same sound enough =
        elim (calm_goes s.crew refl rs sound) [
          | inl idle ↦ now idle (at_idle s rs same idle)
          | inr (s', st, calm) ↦ later st calm λ s'' st' calm'.
              tasks-AllLeave P k at_idle fuel (next rs st') (calm-total st' calm' ∙ same)
                (calm-IsSound st' calm' sound) (omega (arith, enough, calm-tasks st' calm' rs))
        ]

-- What the daemon has done for the connections of the workers that it created, once all have left.
abbrev pub IsDone : Env → Ready → (ℕ → Octets) → (ℕ → List Event) → Service → Type 0
IsDone env r client conn s =
    AreServed (total s) env r.rblist client conn s.workers
    × (s.server.rblist ≡ r.rblist)
    × Counted s.server (total s)

-- From every state of the daemon in which no solver is refused or cancelled: if no further connection
-- is accepted, all workers end and leave, whatever thread goes on at each step, as long as no
-- creation fails and no wakeup is spurious: they do not block each other for ever. Then the list of
-- blacklists is the one that calls of `worker_th` one after another leave, and each worker has
-- written what its call writes, in the order in which the workers were created; and the count of
-- requests is, modulo 2 ^ 32, that of these workers and of the connections that the loop closed. The
-- daemon came through `main` with a limit that is positive and below 2 ^ 32, and fewer than 2 ^ 31
-- entries; each connection of a worker brings a request that names an address whose names fit
-- `rqname`; and memory is not short.
pub Runs-AllLeave :
    {maxthreads : ℕ} {env : Env} {r : Ready} {client : ℕ → Octets} {conn : ℕ → List Event}
    {h : Heap} {s : Service} (m : Machine) (atoi : Bytes → ℤ) (options : List (ℕ × Bytes))
    (arguments : List Bytes)
    → main m atoi options arguments ≡ goes r
    → 0 < maxthreads
    → maxthreads < u32_mod
    → length r.rblist < 2 ^ 31
    → HasMemory env
    → Runs maxthreads env r client conn h s
    → ((w : ℕ) → w < total s → Asks env r.rblist (conn w) (client w))
    → IsSound s.workers
    → AllLeave maxthreads env r client conn (IsDone env r client conn) s
Runs-AllLeave {env} {r} {client} {conn} {s} m atoi options arguments started allowed small few
      memory rs asks sound =
    tasks-AllLeave few allowed small (IsDone env r client conn) (total s)
      (λ s' rs' same idle.
        Runs-AreServed m atoi options arguments started allowed small few memory rs'
          (λ w l. asks w (omega (arith, l, same))) idle)
      (suc (tasks (length r.rblist) s)) rs refl sound (omega arith)
