-- ===== src/Stats/FirstUse.antt =====
-- stats.c: `stats_worker_time` as several threads call it at once, and in the same way
-- `stats_solver_time`. The flag `init` is read and set outside the mutex; the clearing of the ring and
-- the entry of a duration hold it, and are one step each.
use rblpolicyd.Prelude.{
  ℕ, ◌≡◌, ◌≢◌, refl, ap, sym, true, false, List, [], ◌∷◌, ◌++◌, append-nil, Bool-cases, inl, inr,
  arith,
}
use mathlib.Core.Path.{subst}
use rblpolicyd.Protocol.Family.{update}
use rblpolicyd.Stats.{Ring, Times, recorded, cleared, stats_time, Timeval, duration}
use rblpolicyd.Stats.Latest.{Holds, recorded-Holds}

-- Where a call stands: in front of the test of `init`, and behind it with the flag unset or set;
-- `marks` is in front of `init = 1`.
pub data TimePc : Type 0 where
  tests : TimePc
  clears : TimePc
  marks : TimePc
  records : TimePc
  returns : TimePc

-- the variables, and the calls
pub record Timing : Type 0 where
  pub times : Times
  pub call : ℕ → TimePc

abbrev pub went : Timing → ℕ → TimePc → Timing
went q k pc = record q { call = update q.call k pc }

-- One step of a call; `taken k` is the duration of the call `k`.
pub data TimeStep (taken : ℕ → ℕ) (q : Timing) : Timing → Type 0 where
  test_unset :
      (k : ℕ) → q.call k ≡ tests → q.times.init ≡ false → TimeStep taken q (went q k clears)
  test_set : (k : ℕ) → q.call k ≡ tests → q.times.init ≡ true → TimeStep taken q (went q k records)
  clear :
      (k : ℕ)
      → q.call k ≡ clears
      → TimeStep taken q (record (went q k marks) { times = record q.times { ring = cleared } })
  mark :
      (k : ℕ)
      → q.call k ≡ marks
      → TimeStep taken q (record (went q k records) { times = record q.times { init = true } })
  enter :
      (k : ℕ)
      → q.call k ≡ records
      → TimeStep taken q (record (went q k returns) {
        times = record q.times { ring = recorded q.times.ring (taken k) };
      })

-- the durations that a step enters
abbrev pub entered : {taken : ℕ → ℕ} {q q' : Timing} → TimeStep taken q q' → List ℕ → List ℕ
entered {taken} (enter k _) ds = taken k ∷ ds
entered _ ds = ds

-- Any steps from a state on, with the durations that they enter, the latest first.
pub data TimeRun (taken : ℕ → ℕ) (q : Timing) : List ℕ → Timing → Type 0 where
  begin : TimeRun taken q [] q
  next :
      {ds : List ℕ} {q' q'' : Timing}
      → TimeRun taken q ds q'
      → (st : TimeStep taken q' q'') → TimeRun taken q (entered st ds) q''

-- The flag is set, and no call that found it unset has still to clear the ring.
abbrev pub IsSettled : Timing → Type 0
IsSettled q = (q.times.init ≡ true) × ((k : ℕ) → q.call k ≢ clears)

TimeStep-IsSettled :
    {taken : ℕ → ℕ} {q q' : Timing} → TimeStep taken q q' → IsSettled q → IsSettled q'
TimeStep-IsSettled (test_unset k e u) (set, gone) = absurd (ground (arith, u, set))
TimeStep-IsSettled (test_set k e u) (set, gone) = (set, λ j c. ground (arith, gone j, c))
TimeStep-IsSettled (clear k e) (set, gone) = absurd (gone k e)
TimeStep-IsSettled (mark k e) (set, gone) = (refl, λ j c. ground (arith, gone j, c))
TimeStep-IsSettled (enter k e) (set, gone) = (set, λ j c. ground (arith, gone j, c))

-- What a ring holds behind some steps, of the durations `ds` that were entered there or before.
pub record Kept (ds : List ℕ) (r : Ring) : Type 0 where
  pub kept : List ℕ
  pub lost : List ℕ
  pub all : ds ≡ kept ++ lost
  pub holds : Holds r kept

cleared-Kept : (ds : List ℕ) → Kept ds cleared
cleared-Kept ds = record {
  kept = [];
  lost = ds;
  all = refl;
  holds = (recorded-Holds cleared 0 []).0;
}

TimeStep-Kept :
    {taken : ℕ → ℕ} {q q' : Timing} {ds : List ℕ} (st : TimeStep taken q q')
    → Kept ds q.times.ring
    → Kept (entered st ds) q'.times.ring
TimeStep-Kept (test_unset k e u) h = h
TimeStep-Kept (test_set k e u) h = h
TimeStep-Kept {ds = ds} (clear k e) h = cleared-Kept ds
TimeStep-Kept (mark k e) h = h
TimeStep-Kept {taken} {q} (enter k e) h = record {
  kept = taken k ∷ h.kept;
  lost = h.lost;
  all = ap (λ l. taken k ∷ l) h.all;
  holds = (recorded-Holds q.times.ring (taken k) h.kept).1 h.holds;
}

TimeStep-Holds :
    {taken : ℕ → ℕ} {q q' : Timing} (ds : List ℕ) (st : TimeStep taken q q')
    → IsSettled q
    → Holds q.times.ring ds
    → Holds q'.times.ring (entered st ds)
TimeStep-Holds ds (test_unset k e u) h holds = holds
TimeStep-Holds ds (test_set k e u) h holds = holds
TimeStep-Holds ds (clear k e) (set, gone) holds = absurd (gone k e)
TimeStep-Holds ds (mark k e) h holds = holds
TimeStep-Holds {taken} {q} ds (enter k e) h holds =
    (recorded-Holds q.times.ring (taken k) ds).1 holds

entered-append :
    {taken : ℕ → ℕ} {q q' : Timing} (st : TimeStep taken q q') (ds before : List ℕ)
    → entered st (ds ++ before) ≡ entered st ds ++ before
entered-append (test_unset k e u) ds before = refl
entered-append (test_set k e u) ds before = refl
entered-append (clear k e) ds before = refl
entered-append (mark k e) ds before = refl
entered-append (enter k e) ds before = refl

Run-Kept :
    {taken : ℕ → ℕ} {q q' : Timing} {ds : List ℕ} (before : List ℕ)
    → Holds q.times.ring before
    → TimeRun taken q ds q'
    → Kept (ds ++ before) q'.times.ring
Run-Kept before h begin = record {
  kept = before;
  lost = [];
  all = sym (append-nil before);
  holds = h;
}
Run-Kept before h (next {ds} {q'} {q''} r st) =
    subst (λ l. Kept l q''.times.ring) (entered-append st ds before)
      (TimeStep-Kept st (Run-Kept before h r))

Run-Holds :
    {taken : ℕ → ℕ} {q q' : Timing} {ds : List ℕ} (before : List ℕ)
    → IsSettled q
    → Holds q.times.ring before
    → TimeRun taken q ds q'
    → IsSettled q' × Holds q'.times.ring (ds ++ before)
Run-Holds before settled h begin = (settled, h)
Run-Holds before settled h (next {ds} {q'} {q''} r st) =
    let (settled', h') = Run-Holds before settled h r in
    (
      TimeStep-IsSettled st settled',
      subst (Holds q''.times.ring) (entered-append st ds before)
          (TimeStep-Holds (ds ++ before) st settled' h'),
    )

-- Whatever the interleaving of the calls is, the ring holds the latest of the durations entered, in
-- their order: what a clearing has dropped is older than all that is kept. Once the flag is set and no
-- call is left that found it unset, no duration is dropped but for want of room in the ring, and this
-- stays so.
pub TimeRun-Kept :
    {taken : ℕ → ℕ} {q q' : Timing} {ds : List ℕ} (before : List ℕ)
    → Holds q.times.ring before
    → TimeRun taken q ds q'
    → Kept (ds ++ before) q'.times.ring
      × (IsSettled q → IsSettled q' × Holds q'.times.ring (ds ++ before))
TimeRun-Kept before h r = (Run-Kept before h r, λ settled. Run-Holds before settled h r)

-- A call that runs alone does what `stats_time` says.
alone-stats_time :
    (q : Timing) (k : ℕ) (start end : Timeval)
    → q.call k ≡ tests
    → (q' : Timing) × TimeRun (λ _. duration start end) q (duration start end ∷ []) q'
      × (q'.times ≡ stats_time q.times start end)
unfolding stats_time
alone-stats_time q k start end e = elim (Bool-cases q.times.init) [
  | inl set ↦ (_, next (next begin (test_set k e set)) (enter k (ground arith)), rw set refl)
  | inr unset ↦ (
    _,
    next
        (next (next (next begin (test_unset k e unset)) (clear k (ground arith)))
          (mark k (ground arith)))
        (enter k (ground arith)),
    rw unset refl,
  )
]
