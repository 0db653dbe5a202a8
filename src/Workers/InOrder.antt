-- ===== src/Workers/InOrder.antt =====
-- Workers at once do what workers do one after another.
use rblpolicyd.Prelude.{
  ℕ, zero, suc, ◌^◌, ◌<◌, ◌≡◌, refl, sym, ap, ◌∙◌, List, [], ◌∷◌, true, Bytes, length, All, arith,
}
use rblpolicyd.Address.{Octets, reverse_name}
use rblpolicyd.CfgFile.{CfgItem}
use rblpolicyd.Request.{Event}
use rblpolicyd.Worker.{Env, known, client_address, counted, judge, worker_th}
use rblpolicyd.Worker.Ready.{HasMemory, names_fit, worker_th-judge}
use rblpolicyd.Protocol
use rblpolicyd.Protocol.Refine.{judge_stored, judge_stored-judge}
use rblpolicyd.Tally.{head}
use rblpolicyd.Tally.Inv.{AreCounts}
use rblpolicyd.Tally.InTurn.{in_turn, items-in_turn}
use rblpolicyd.Workers.{list_left, Workers, entry, answer_to, Run, written, in_order}
use rblpolicyd.Workers.Steps.{Run-Reach, Run-TallyRun}
use rblpolicyd.Workers.Alone.{
  IsSameList, none, both, IsSameList-refl, length-IsSameList, answer_of-IsSameList, entry-counters,
  counters-IsSameList, list_left-judge, written-judge,
}

entry-AreCounts : (l : List CfgItem) → All AreCounts l → (i : ℕ) → AreCounts (entry l i)
entry-AreCounts [] h i = omega arith
entry-AreCounts (a ∷ l) (h, hs) zero = h
entry-AreCounts (a ∷ l) (h, hs) (suc i) = entry-AreCounts l hs i

names_fit-IsSameList :
    (rdn : Bytes) {l l' : List CfgItem} → IsSameList l l' → names_fit rdn l ≡ names_fit rdn l'
names_fit-IsSameList rdn none = refl
names_fit-IsSameList rdn (both {a} {b} e s) =
    let domains : a.rbldomain ≡ b.rbldomain = ap (λ x. x.rbldomain) e in
    rw (domains, names_fit-IsSameList rdn s) refl

-- The connection brings a request that names the address, and the names made of it fit.
abbrev pub Asks : Env → List CfgItem → List Event → Octets → Type 0
Asks env rblist conn o =
    (client_address env conn ≡ known o) × (names_fit (reverse_name o) rblist ≡ true)

module _ (env : Env) (rblist : List CfgItem) (conn : ℕ → List Event) (client : ℕ → Octets)
    (memory : HasMemory env) where
  called_on :
      (w : ℕ)
      → Asks env rblist (conn w) (client w)
      → IsSameList rblist (in_order env conn rblist w)
      → worker_th env (in_order env conn rblist w) (conn w)
        ≡ judge env (in_order env conn rblist w) (client w)
  called_on w (names, fits) same =
      worker_th-judge env (in_order env conn rblist w) (conn w) (client w) memory names
        (sym (names_fit-IsSameList (reverse_name (client w)) same) ∙ fits)

  in_order-IsSameList :
      (m : ℕ)
      → ((w : ℕ) → w < m → Asks env rblist (conn w) (client w))
      → IsSameList rblist (in_order env conn rblist m)
  unfolding in_order
  in_order-IsSameList zero asks = IsSameList-refl rblist
  in_order-IsSameList (suc w) asks =
      let same = in_order-IsSameList w (λ v l. asks v (omega (arith, l))) in
      let before = in_order env conn rblist w in
      rw (called_on w (asks w (omega arith)) same, list_left-judge env before (client w))
        (counters-IsSameList env.answers (reverse_name (client w)) same)

  entry-in_order :
      (i m : ℕ)
      → ((w : ℕ) → w < m → Asks env rblist (conn w) (client w))
      → i < length rblist
      → entry (in_order env conn rblist m) i
        ≡ in_turn (answer_to env rblist client) i m (entry rblist i)
  unfolding in_order
  entry-in_order i zero asks l = refl
  entry-in_order i (suc w) asks l =
      let earlier : (v : ℕ) → v < w → Asks env rblist (conn v) (client v) =
        λ v k. asks v (omega (arith, k)) in
      let before = in_order env conn rblist w in
      let rdn = reverse_name (client w) in
      let same = in_order-IsSameList w earlier in
      ap (λ t. entry (list_left t) i) (called_on w (asks w (omega arith)) same)
      ∙ ap (λ t. entry t i) (list_left-judge env before (client w))
      ∙ entry-counters env.answers rdn before i (omega (arith, l, length-IsSameList same))
      ∙ ap (λ n. counted (entry before i) n) (sym (answer_of-IsSameList env.answers rdn same i))
      ∙ ap (λ it. counted it (answer_to env rblist client w i)) (entry-in_order i w earlier l)

-- worker `w` has come out of its wait and to the end of its loop over the results
pub record HasEnded (s : Workers) (n w : ℕ) : Type 0 where
  pub answered : (s.queries w).worker ≡ Protocol.done
  pub tallied : s.shared.worker w ≡ head n

-- The list is the one that `m` calls of `worker_th` leave which come one after another, and each worker
-- writes what its call writes.
abbrev pub AreServed :
    ℕ → Env → List CfgItem → (ℕ → Octets) → (conn : ℕ → List Event) → Workers → Type 0
AreServed m env rblist client conn s =
    ((i : ℕ) → i < length rblist → s.shared.items i ≡ entry (in_order env conn rblist m) i)
    × ((w : ℕ)
        → w < m
        → written (judge_stored (s.queries w) rblist (client w))
          ≡ written (worker_th env (in_order env conn rblist w) (conn w)))

-- However `m` workers and all their solvers are interleaved: when all have ended, the list is the one
-- that `m` calls of `worker_th` leave which come one after another, each on the list that the one
-- before it has left; and each worker writes what its call writes in that order. The list has fewer
-- than 2 ^ 31 entries, with counters within their type; each connection brings a request that names
-- an address whose names fit `rqname`; and memory is not short.
pub Run-in_order :
    {m : ℕ} {env : Env} {rblist : List CfgItem} {client : ℕ → Octets} {s : Workers}
    (conn : ℕ → List Event)
    → length rblist < 2 ^ 31
    → All AreCounts rblist
    → HasMemory env
    → ((w : ℕ) → w < m → Asks env rblist (conn w) (client w))
    → Run m env rblist client s
    → ((w : ℕ) → w < m → HasEnded s (length rblist) w)
    → AreServed m env rblist client conn s
Run-in_order {m} {env} {rblist} {client} conn few small memory asks r ended = (
  λ i l.
      items-in_turn (entry rblist) i (entry-AreCounts rblist small) (Run-TallyRun few r)
        (λ w k. (ended w k).tallied) l
      ∙ sym (entry-in_order env rblist conn client memory i m asks l),
  λ w l.
      let same =
        in_order-IsSameList env rblist conn client memory w (λ v k. asks v (omega (arith, k, l))) in
      ap written (judge_stored-judge env rblist (client w) few (Run-Reach r w) (ended w l).answered)
      ∙ written-judge env rblist (client w) same
      ∙ sym (ap written (called_on env rblist conn client memory w (asks w l) same)),
)
