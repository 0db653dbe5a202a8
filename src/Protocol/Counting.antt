-- ===== src/Protocol/Counting.antt =====
-- The count, the mutex and the wakeups: `Inv` holds in every state of a query.
use rblpolicyd.Prelude.{ℕ, zero, suc, ◌+◌, ◌^◌, ◌≤◌, ◌<◌, ◌≡◌, refl, true, arith}
use rblpolicyd.Protocol.Family.{total, total-update, total-le}
use rblpolicyd.Protocol.{
  done, unstarted, uncreated, lookup, dead, found, entered, decremented, announced, ended,
  by_worker, by_solver, Query, incremented, decremented_by_one, broadcast_to, Move, lock_entry,
  count, create, create_failed, unlock_entry, lock_wait, pass, sleep, wake_up, lock_again, find,
  cancel, lock_solver, decrement, broadcast, unlock_solver, start, Reach, at_start, after,
}
use rblpolicyd.Protocol.Inv.{
  pending, extra, worker_holds, solver_holds, started, is_started, Within, has_score, Expects, Inv,
  guard,
}

module _ {n : ℕ} {answer : ℕ → ℕ} {q : Query} (few : n < 2 ^ 31) (inv : Inv n answer q) where
  open inv use {counted_right, held, within, has_begun, not_begun, scores, expects, passed}

  -- a solver that has begun is one of the entries
  pub in_list : (i : ℕ) → is_started (q.solver i) ≡ true → i < n
  in_list i s = ground (arith, not_begun i, within)

  bounded : total pending n q.solver ≤ n
  bounded = total-le pending (λ p. ground arith) n q.solver

  Move-within : {q' : Query} → Move n answer q q' → Within n q'.worker
  unfolding broadcast_to
  Move-within (lock_entry w l h) = l
  Move-within mv = ground (arith, guard mv, within)

  Move-counted :
      {q' : Query} → Move n answer q q' → q'.resolvers ≡ total pending n q'.solver + extra q'.worker
  unfolding broadcast_to incremented decremented_by_one
  Move-counted (lock_entry w l h) = ground (arith, counted_right)
  Move-counted (count w) = ground (arith, counted_right, bounded)
  Move-counted (create {i} c w) =
      ground
        (arith, counted_right, within, not_begun i, total-update pending n q.solver i (lookup c))
  Move-counted (create_failed {i} w) =
      ground
        (arith, counted_right, within, not_begun i, total-update pending n q.solver i uncreated)
  Move-counted (unlock_entry w) = ground (arith, counted_right)
  Move-counted (lock_wait w l h) = ground (arith, counted_right)
  Move-counted (pass w z) = ground (arith, counted_right)
  Move-counted (sleep w z) = ground (arith, counted_right)
  Move-counted (wake_up w) = ground (arith, counted_right)
  Move-counted (lock_again w h) = ground (arith, counted_right)
  Move-counted (find i s) =
      ground (arith, counted_right, in_list i, total-update pending n q.solver i found)
  Move-counted (cancel i s) =
      ground (arith, counted_right, in_list i, total-update pending n q.solver i dead)
  Move-counted (lock_solver i s h) =
      ground (arith, counted_right, in_list i, total-update pending n q.solver i entered)
  Move-counted (decrement i s) =
      ground
        (arith, counted_right, bounded, in_list i, total-update pending n q.solver i decremented)
  Move-counted (broadcast i s) =
      ground (arith, counted_right, in_list i, total-update pending n q.solver i announced)
  Move-counted (unlock_solver i s) =
      ground (arith, counted_right, in_list i, total-update pending n q.solver i ended)

  Move-begun :
      {q' : Query}
      → Move n answer q q'
      → (i : ℕ) → i < started n q'.worker
      → is_started (q'.solver i) ≡ true
  unfolding broadcast_to
  Move-begun (lock_entry w l h) i lt = ground (arith, has_begun i)
  Move-begun mv i lt = ground (arith, guard mv, has_begun i, within)

  Move-not_begun :
      {q' : Query}
      → Move n answer q q'
      → (i : ℕ) → started n q'.worker ≤ i
      → q'.solver i ≡ unstarted
  unfolding broadcast_to
  Move-not_begun (lock_entry w l h) i le = ground (arith, not_begun i)
  Move-not_begun mv i le = ground (arith, guard mv, not_begun i, within)

  Move-scores :
      {q' : Query}
      → Move n answer q q'
      → (i : ℕ) → has_score (q'.solver i) ≡ true
      → q'.score i ≡ answer i
  Move-scores (lock_entry w l h) i s = scores i s
  Move-scores mv i s = ground (arith, guard mv, scores i)

  Move-Expects : {q' : Query} → Move n answer q q' → Expects q'
  unfolding broadcast_to
  Move-Expects (decrement i s) w z = (i, ground arith)
  Move-Expects (find i s) w z = let (j, e) = expects w z in (j, ground (arith, e))
  Move-Expects (cancel i s) w z = let (j, e) = expects w z in (j, ground (arith, e))
  Move-Expects (lock_solver i s h) w z = let (j, e) = expects w z in (j, ground (arith, e))
  Move-Expects (unlock_solver i s) w z = let (j, e) = expects w z in (j, ground (arith, e))
  Move-Expects mv w z = absurd (ground (arith, guard mv, w, z))

  Move-worker_held :
      {q' : Query}
      → Move n answer q q'
      → (worker_holds q'.worker ≡ true → q'.holder ≡ by_worker)
        × (q'.holder ≡ by_worker → worker_holds q'.worker ≡ true)
  unfolding broadcast_to
  Move-worker_held (lock_solver i s h) = ground (arith, held.0, held.1)
  Move-worker_held (unlock_solver i s) = ground (arith, held.0, held.1, held.2 i)
  Move-worker_held mv = ground (arith, guard mv, held.0, held.1)

  Move-solver_held :
      {q' : Query}
      → Move n answer q q'
      → (i : ℕ)
      → (solver_holds (q'.solver i) ≡ true → q'.holder ≡ by_solver i)
        × (q'.holder ≡ by_solver i → solver_holds (q'.solver i) ≡ true)
  unfolding broadcast_to
  Move-solver_held (lock_solver i s h) j = ground (arith, held.2 j, held.3 j)
  Move-solver_held (unlock_solver i s) j = ground (arith, held.2 i, held.2 j, held.3 j)
  Move-solver_held mv j = ground (arith, guard mv, held.0, held.2 j, held.3 j)

  -- Behind its loop the worker holds the mutex, so that no solver is at the count.
  Move-passed : {q' : Query} → Move n answer q q' → q'.worker ≡ done → q'.resolvers ≡ 0
  unfolding broadcast_to
  Move-passed (decrement i s) w = ground (arith, held.0, held.2 i, w)
  Move-passed (lock_entry e l h) w = ground (arith, w)
  Move-passed mv w = ground (arith, guard mv, passed, w)

  Move-Inv : {q' : Query} → Move n answer q q' → Inv n answer q'
  Move-Inv mv = record {
    counted_right = Move-counted mv;
    held = (
      (Move-worker_held mv).0,
      (Move-worker_held mv).1,
      (λ i. (Move-solver_held mv i).0),
      λ i. (Move-solver_held mv i).1,
    );
    within = Move-within mv;
    has_begun = Move-begun mv;
    not_begun = Move-not_begun mv;
    scores = Move-scores mv;
    expects = Move-Expects mv;
    passed = Move-passed mv;
  }

total-unstarted : (n : ℕ) → total pending n (λ _. unstarted) ≡ 0
total-unstarted zero = refl
total-unstarted (suc n) = omega (arith, total-unstarted n)

Inv-start : (n : ℕ) (answer : ℕ → ℕ) → Inv n answer start
Inv-start n answer = record {
  counted_right = omega (arith, total-unstarted n);
  held = (
    (λ e. ground (arith, e)),
    (λ e. ground (arith, e)),
    (λ i e. ground (arith, e)),
    λ i e. ground (arith, e),
  );
  within = omega arith;
  has_begun = λ i l. absurd (omega (arith, l));
  not_begun = λ i l. refl;
  scores = λ i e. ground (arith, e);
  expects = λ w z. absurd (ground (arith, w));
  passed = λ w. refl;
}

-- Every state of a query meets `Inv`: the count is that of the solvers that are not done, the mutex is
-- held by the one thread that stands where it holds it, and no wakeup is lost.
pub Reach-Inv :
    {n : ℕ} {answer : ℕ → ℕ} {q : Query} → n < 2 ^ 31 → Reach n answer q → Inv n answer q
Reach-Inv {n} {answer} few at_start = Inv-start n answer
Reach-Inv few (after r mv) = Move-Inv few (Reach-Inv few r) mv
