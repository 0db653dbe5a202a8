-- ===== src/Workers/Ends.antt =====
-- Whichever thread goes on, all workers come to the ends of their loops.
use rblpolicyd.Workers.Weight.{
  TallyStep-weight, is_well, IsSound, whole_weight, Step-IsSound, Waits, ended-cases,
}
use rblpolicyd.Prelude.{
  ℕ, zero, suc, ◌^◌, ◌<◌, ◌≡◌, ◌≢◌, refl, true, none, some, Option, List, length, Bool-cases, inl,
  inr, ◌==◌, arith, All,
}
use rblpolicyd.Address.{Octets}
use rblpolicyd.CfgFile.{CfgItem}
use rblpolicyd.Request.{Event}
use rblpolicyd.Tally.Inv.{AreCounts}
use rblpolicyd.Worker.Ready.{HasMemory}
use rblpolicyd.Worker.{Env}
use rblpolicyd.Protocol
use rblpolicyd.Protocol.{Query, Move}
use rblpolicyd.Protocol.Family.{total-update}
use rblpolicyd.Protocol.Counting.{Reach-Inv}
use rblpolicyd.Protocol.Weight.{weight}
use rblpolicyd.Protocol.Progress.{Move-weight, goes_on}
use rblpolicyd.Tally.{
  TallyPc, head, holding, questions_read, asked, positive_read, tallied, lock, load_questions,
  store_questions, load_positive, store_positive, skip, unlock,
}
use rblpolicyd.Tally.Defs.{has_mutex}
use rblpolicyd.Workers.{Workers, Step, in_query, in_tally, answer_to, Run, next}
use rblpolicyd.Workers.Steps.{Run-Reach, Run-TallyRun, TallyRun-inside}
use rblpolicyd.Workers.Holding.{Holds, TallyRun-Holds, Run-done}
use rblpolicyd.Workers.InOrder.{HasEnded, Asks, AreServed, Run-in_order}

module _ {m : ℕ} {env : Env} {rblist : List CfgItem} {client : ℕ → Octets} {s : Workers}
    (few : length rblist < 2 ^ 31) (r : Run m env rblist client s) where
  pub Step-whole_weight :
      {s' : Workers} (st : Step m (length rblist) (answer_to env rblist client) s s')
      → is_well st ≡ true
      → whole_weight (length rblist) m s' < whole_weight (length rblist) m s
  Step-whole_weight (in_query w {q} l mv) well = omega (
    arith,
    total-update (weight (length rblist)) m s.queries w q l,
    Move-weight few (Reach-Inv few (Run-Reach r w)) mv well,
  )
  Step-whole_weight (in_tally st d) well =
      omega (arith, TallyStep-weight st (TallyRun-inside (Run-TallyRun few r)))

  -- some step that goes well
  abbrev Proceeds : Type 0
  Proceeds =
      (s' : Workers) × (st : Step m (length rblist) (answer_to env rblist client) s s') × (is_well
          st
        ≡ true)

  -- The worker with the mutex.
  holder_goes : (u : ℕ) → u < m → has_mutex (s.shared.worker u) ≡ true → Proceeds
  holder_goes u l h = from (s.shared.worker u) refl h
    where
      d : (s.queries u).worker ≡ Protocol.done
      d = Run-done r u h

      from : (pc : TallyPc) → s.shared.worker u ≡ pc → has_mutex pc ≡ true → Proceeds
      from (head i) e h = absurd (ground (arith, h))
      from (holding i) e h = (_, in_tally (load_questions u l e) d, refl)
      from (questions_read i v) e h = (_, in_tally (store_questions u l e) d, refl)
      from (asked i) e h = elim (Bool-cases ((s.queries u).score i == 0)) [
        | inl z ↦ (_, in_tally (skip u l e (ground (arith, z))) d, refl)
        | inr p ↦ (_, in_tally (load_positive u l e (ground (arith, p))) d, refl)
      ]
      from (positive_read i v) e h = (_, in_tally (store_positive u l e) d, refl)
      from (tallied i) e h = (_, in_tally (unlock u l e) d, refl)

  -- A worker behind its wait, and not at the end of its loop: it goes on, or the one with the mutex.
  counter_goes :
      (w : ℕ)
      → w < m
      → (s.queries w).worker ≡ Protocol.done
      → s.shared.worker w ≢ head (length rblist)
      → Proceeds
  counter_goes w l d ne = by_mutex s.shared.rblist_mutex refl
    where
      holds : Holds m s.shared
      holds = TallyRun-Holds (Run-TallyRun few r)

      by_pc : s.shared.rblist_mutex ≡ none → (pc : TallyPc) → s.shared.worker w ≡ pc → Proceeds
      by_pc free (head i) e =
          let within = TallyRun-inside (Run-TallyRun few r) w in
          let less : i < length rblist = ground (arith, within, e, ne) in
          (_, in_tally (lock w l e less free) d, refl)
      by_pc free (holding i) e = holder_goes w l (rw e refl)
      by_pc free (questions_read i v) e = holder_goes w l (rw e refl)
      by_pc free (asked i) e = holder_goes w l (rw e refl)
      by_pc free (positive_read i v) e = holder_goes w l (rw e refl)
      by_pc free (tallied i) e = holder_goes w l (rw e refl)

      by_mutex : (x : Option ℕ) → s.shared.rblist_mutex ≡ x → Proceeds
      by_mutex none free = by_pc free (s.shared.worker w) refl
      by_mutex (some u) e = let (k, h) = holds.inside_it u e in holder_goes u k h

  -- No deadlock: as long as a worker waits and no solver is lost, some thread can go on.
  pub waiting_goes : IsSound s → (w : ℕ) → w < m → Waits s (length rblist) w → Proceeds
  waiting_goes sound w l (inl nd) =
      let (q', mv, well) =
        goes_on few (Reach-Inv few (Run-Reach r w)) nd (λ i. ground (arith, sound w i)) in
      (_, in_query w l mv, well)
  waiting_goes sound w l (inr (d, ne)) = counter_goes w l d ne

-- Whichever thread goes on, and whenever, the first `m` workers end, and `P` holds then.
pub data AllEnd (m n : ℕ) (answer : ℕ → ℕ → ℕ) (P : Workers → Type 0) : Workers → Type 0 where
  now : {s : Workers} → ((w : ℕ) → w < m → HasEnded s n w) → P s → AllEnd m n answer P s
  later :
      {s s' : Workers} (st : Step m n answer s s')
      → is_well st ≡ true
      → ((s'' : Workers) (st' : Step m n answer s s'')
          → is_well st' ≡ true
          → AllEnd m n answer P s'')
      → AllEnd m n answer P s

module _ {m : ℕ} {env : Env} {rblist : List CfgItem} {client : ℕ → Octets}
    (few : length rblist < 2 ^ 31) (P : Workers → Type 0)
    (at_end : (s : Workers)
      → Run m env rblist client s
      → ((w : ℕ) → w < m → HasEnded s (length rblist) w)
      → P s) where
  weight-AllEnd :
      (fuel : ℕ) {s : Workers}
      → Run m env rblist client s
      → IsSound s
      → whole_weight (length rblist) m s < fuel
      → AllEnd m (length rblist) (answer_to env rblist client) P s
  weight-AllEnd zero r sound enough = absurd (omega (arith, enough))
  weight-AllEnd (suc fuel) {s} r sound enough = elim (ended-cases s (length rblist) m) [
    | inl ended ↦ now ended (at_end s r ended)
    | inr (w, l, waits) ↦
        let (s', st, well) = waiting_goes few r sound w l waits in
        later st well λ s'' st' well'.
          weight-AllEnd fuel (next r st') (Step-IsSound st' well' sound)
            (omega (arith, enough, Step-whole_weight few r st' well'))
  ]

-- From every state of `m` workers at once in which no solver is refused or cancelled, all workers come
-- out of their waits and to the ends of their loops over the results, whatever thread goes on at each
-- step, as long as no creation fails and no wakeup is spurious: the workers do not block each other
-- for ever, neither on the mutex of the counters nor on those of their queries. Then the list is the
-- one that calls of `worker_th` one after another leave, and each worker writes what its call writes.
-- The list has fewer than 2 ^ 31 entries, with counters within their type; each connection brings a
-- request that names an address whose names fit `rqname`; and memory is not short.
Run-AllEnd :
    {m : ℕ} {env : Env} {rblist : List CfgItem} {client : ℕ → Octets} {s : Workers}
    (conn : ℕ → List Event)
    → length rblist < 2 ^ 31
    → All AreCounts rblist
    → HasMemory env
    → ((w : ℕ) → w < m → Asks env rblist (conn w) (client w))
    → Run m env rblist client s
    → IsSound s
    → AllEnd m (length rblist) (answer_to env rblist client) (AreServed m env rblist client conn) s
Run-AllEnd {m} {env} {rblist} {client} {s} conn few small memory asks r sound =
    weight-AllEnd few (AreServed m env rblist client conn)
      (λ q run ended. Run-in_order conn few small memory asks run ended)
      (suc (whole_weight (length rblist) m s)) r sound (omega arith)
