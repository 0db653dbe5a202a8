-- ===== src/Protocol/Progress.antt =====
-- Without a lost solver the worker is always answered.
use rblpolicyd.Protocol.Weight.{solver_weight, weight, goes_well}
use rblpolicyd.Prelude.{
  ℕ, zero, suc, ◌^◌, ◌<◌, ◌≡◌, ◌≢◌, ◌⊎◌, refl, Bool, true, false, not, ◌==◌, ltb, arith, Bool-cases,
  inl, inr,
}
use rblpolicyd.Protocol.Family.{total-update, total-pos}
use rblpolicyd.Protocol.{
  WorkerPc, creating, locked, counted, created, testing, sleeping, woken, done, SolverPc, unstarted,
  uncreated, lookup, dead, found, entered, decremented, announced, ended, Holder, nobody, by_worker,
  by_solver, Query, broadcast_to, Move, lock_entry, count, create, unlock_entry, lock_wait, pass,
  sleep, lock_again, find, lock_solver, decrement, broadcast, unlock_solver, Reach, after,
}
use rblpolicyd.Protocol.Inv.{pending, worker_holds, solver_holds, Inv, guard}
use rblpolicyd.Protocol.Counting.{in_list, Reach-Inv}
use rblpolicyd.Protocol.Done.{is_lost}

module _ {n : ℕ} {answer : ℕ → ℕ} {q : Query} (few : n < 2 ^ 31) (inv : Inv n answer q) where
  pub Move-weight :
      {q' : Query} (mv : Move n answer q q') → goes_well mv ≡ true → weight n q' < weight n q
  unfolding broadcast_to
  Move-weight (lock_entry w l h) g = ground (arith, w)
  Move-weight (create {i} c w) g =
      ground
        (arith, inv.within, inv.not_begun i, total-update solver_weight n q.solver i (lookup c))
  Move-weight (find i s) g =
      ground (arith, in_list few inv i, total-update solver_weight n q.solver i found)
  Move-weight (lock_solver i s h) g =
      ground (arith, in_list few inv i, total-update solver_weight n q.solver i entered)
  Move-weight (decrement i s) g =
      ground (arith, in_list few inv i, total-update solver_weight n q.solver i decremented)
  Move-weight (broadcast i s) g =
      ground (arith, in_list few inv i, total-update solver_weight n q.solver i announced)
  Move-weight (unlock_solver i s) g =
      ground (arith, in_list few inv i, total-update solver_weight n q.solver i ended)
  Move-weight mv g = ground (arith, guard mv, inv.within, g)

  -- some step that goes well
  abbrev Goes : Type 0
  Goes = (q' : Query) × (mv : Move n answer q q') × (goes_well mv ≡ true)

  solver_goes : (i : ℕ) → solver_holds (q.solver i) ≡ true → Goes
  solver_goes i h = from (q.solver i) refl h
    where
      from : (p : SolverPc) → q.solver i ≡ p → solver_holds p ≡ true → Goes
      from entered e h = (_, decrement i e, refl)
      from decremented e h = (_, broadcast i e, refl)
      from announced e h = (_, unlock_solver i e, refl)
      from unstarted e h = absurd (ground (arith, h))
      from uncreated e h = absurd (ground (arith, h))
      from (lookup b) e h = absurd (ground (arith, h))
      from dead e h = absurd (ground (arith, h))
      from found e h = absurd (ground (arith, h))
      from ended e h = absurd (ground (arith, h))

  -- the mutex is free, and a solver is not done with the count
  pending_goes :
      (i : ℕ) → q.holder ≡ nobody → pending (q.solver i) ≢ 0 → is_lost (q.solver i) ≡ false → Goes
  pending_goes i free p l = from (q.solver i) refl p l
    where
      from : (s : SolverPc) → q.solver i ≡ s → pending s ≢ 0 → is_lost s ≡ false → Goes
      from (lookup b) e p l = (_, find i e, refl)
      from found e p l = (_, lock_solver i e free, refl)
      from entered e p l = solver_goes i (rw e refl)
      from unstarted e p l = absurd (p refl)
      from uncreated e p l = absurd (ground (arith, l))
      from dead e p l = absurd (ground (arith, l))
      from decremented e p l = absurd (p refl)
      from announced e p l = absurd (p refl)
      from ended e p l = absurd (p refl)

  worker_goes : q.holder ≡ by_worker → q.worker ≢ done → Goes
  worker_goes h nd = from q.worker refl (inv.held.1 h) nd
    where
      from : (w : WorkerPc) → q.worker ≡ w → worker_holds w ≡ true → w ≢ done → Goes
      from (locked i) e h nd = (_, count e, refl)
      from (counted i) e h nd = (_, create false e, refl)
      from (created i) e h nd = (_, unlock_entry e, refl)
      from testing e h nd = elim (Bool-cases (q.resolvers == 0)) [
        | inl z ↦ (_, pass e (ground (arith, z)), refl)
        | inr s ↦ (_, sleep e (ground (arith, s)), refl)
      ]
      from done e h nd = absurd (nd refl)
      from (creating i) e h nd = absurd (ground (arith, h))
      from sleeping e h nd = absurd (ground (arith, h))
      from woken e h nd = absurd (ground (arith, h))

  sleeper_goes :
      q.holder ≡ nobody → q.worker ≡ sleeping → ((i : ℕ) → is_lost (q.solver i) ≡ false) → Goes
  sleeper_goes free w sound = elim (Bool-cases (q.resolvers == 0)) [
    | inl z ↦
        let (i, e) = inv.expects w (ground (arith, z)) in
        absurd (ground (arith, e, free, inv.held.2 i))
    | inr nz ↦
        let (i, l, p) =
          total-pos pending n q.solver (λ z. ground (arith, nz, w, z, inv.counted_right)) in
        pending_goes i free p (sound i)
  ]

  free_goes : q.holder ≡ nobody → ((i : ℕ) → is_lost (q.solver i) ≡ false) → Goes
  free_goes free sound = from q.worker refl
    where
      held : worker_holds q.worker ≡ true → Goes
      held h = absurd (ground (arith, h, free, inv.held.0))

      from : (w : WorkerPc) → q.worker ≡ w → Goes
      from (creating i) e = elim (Bool-cases (ltb i n)) [
        | inl l ↦ (_, lock_entry e (ground (arith, l)) free, refl)
        | inr g ↦ (_, lock_wait e (ground (arith, g)) free, refl)
      ]
      from woken e = (_, lock_again e free, refl)
      from sleeping e = sleeper_goes free e sound
      from (locked i) e = held (rw e refl)
      from (counted i) e = held (rw e refl)
      from (created i) e = held (rw e refl)
      from testing e = held (rw e refl)
      from done e = held (rw e refl)

  -- No deadlock: as long as the worker waits and no solver is lost, some thread can go on.
  pub goes_on : q.worker ≢ done → ((i : ℕ) → is_lost (q.solver i) ≡ false) → Goes
  goes_on nd sound = from q.holder refl
    where
      from : (h : Holder) → q.holder ≡ h → Goes
      from nobody e = free_goes e sound
      from by_worker e = worker_goes e nd
      from (by_solver i) e = solver_goes i (inv.held.3 i e)

-- Whichever thread goes on, and whenever, the worker comes out of its wait.
pub data Answered (n : ℕ) (answer : ℕ → ℕ) : Query → Type 0 where
  now : {q : Query} → q.worker ≡ done → Answered n answer q
  later :
      {q q' : Query} (mv : Move n answer q q')
      → goes_well mv ≡ true
      → ((q'' : Query) (mv' : Move n answer q q'') → goes_well mv' ≡ true → Answered n answer q'')
      → Answered n answer q

-- no solver is lost, or about to be
abbrev pub is_sound : SolverPc → Bool
is_sound uncreated = false
is_sound dead = false
is_sound (lookup cancelled) = not cancelled
is_sound _ = true

pub Move-is_sound :
    {n : ℕ} {answer : ℕ → ℕ} {q q' : Query} (mv : Move n answer q q')
    → goes_well mv ≡ true
    → ((i : ℕ) → is_sound (q.solver i) ≡ true)
    → (i : ℕ) → is_sound (q'.solver i) ≡ true
Move-is_sound (lock_entry w l h) g sound i = sound i
Move-is_sound mv g sound i = ground (arith, guard mv, g, sound i)

pub done-cases : (w : WorkerPc) → (w ≡ done) ⊎ (w ≢ done)
done-cases done = inl refl
done-cases (creating i) = inr λ e. cc
done-cases (locked i) = inr λ e. cc
done-cases (counted i) = inr λ e. cc
done-cases (created i) = inr λ e. cc
done-cases testing = inr λ e. cc
done-cases sleeping = inr λ e. cc
done-cases woken = inr λ e. cc

weight-Answered :
    (fuel : ℕ) {n : ℕ} {answer : ℕ → ℕ} {q : Query}
    → n < 2 ^ 31
    → Reach n answer q
    → ((i : ℕ) → is_sound (q.solver i) ≡ true)
    → weight n q < fuel
    → Answered n answer q
weight-Answered zero few r sound enough = absurd (omega (arith, enough))
weight-Answered (suc fuel) {n} {answer} {q} few r sound enough = elim (done-cases q.worker) [
  | inl e ↦ now e
  | inr nd ↦
      let inv = Reach-Inv few r in
      let (q', mv, well) = goes_on few inv nd (λ i. ground (arith, sound i)) in
      later mv well λ q'' mv' well'.
        weight-Answered fuel few (after r mv') (Move-is_sound mv' well' sound)
          (omega (arith, enough, Move-weight few inv mv' well'))
]

-- From every state of a query in which no solver is refused or cancelled, the worker comes out of its
-- wait, whatever thread goes on at each step, as long as no creation fails and no wakeup is spurious.
-- No step can be repeated for ever, and no state is stuck.
Reach-Answered :
    {n : ℕ} {answer : ℕ → ℕ} {q : Query}
    → n < 2 ^ 31
    → Reach n answer q
    → ((i : ℕ) → is_sound (q.solver i) ≡ true)
    → Answered n answer q
Reach-Answered {n} {q = q} few r sound =
    weight-Answered (suc (weight n q)) few r sound (omega arith)
