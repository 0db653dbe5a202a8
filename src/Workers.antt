-- ===== src/Workers.antt =====
-- worker.c: several calls of `worker_th` at once, each with its query in Protocol, and the counters
-- that all of them change in Tally. A worker comes to the counters only behind its wait, and takes
-- there the scores that its own solvers have left.
pub mod Steps
pub mod Alone
pub mod Holding
pub mod InOrder
pub mod Weight
pub mod Ends
use rblpolicyd.Prelude.{ℕ, zero, suc, ◌<◌, ◌≡◌, List, [], ◌∷◌, Bytes, codes, length}
use rblpolicyd.Address.{Octets, reverse_name}
use rblpolicyd.CfgFile.{CfgItem, new_item}
use rblpolicyd.Request.{Event}
use rblpolicyd.Worker.{Env, Outcome, replied, crashed, died, worker_th}
use rblpolicyd.Protocol
use rblpolicyd.Protocol.{Query, Move}
use rblpolicyd.Protocol.Family.{update}
use rblpolicyd.Protocol.Refine.{answer_of}
use rblpolicyd.Tally.{
  Shared, TallyStep, lock, load_questions, store_questions, load_positive, store_positive, skip,
  unlock, all_at_head,
}

-- the worker that makes a step
abbrev pub actor : {m n : ℕ} {score : ℕ → ℕ → ℕ} {q q' : Shared} → TallyStep m n score q q' → ℕ
actor (lock w _ _ _ _) = w
actor (load_questions w _ _) = w
actor (store_questions w _ _) = w
actor (load_positive w _ _ _) = w
actor (store_positive w _ _) = w
actor (skip w _ _ _) = w
actor (unlock w _ _) = w

-- the query of each worker, and what they share
pub record Workers : Type 0 where
  pub queries : ℕ → Query
  pub shared : Shared

abbrev pub left_scores : Workers → ℕ → ℕ → ℕ
left_scores s w = (s.queries w).score

-- One step of any thread of any of `m` workers, for a list of `n` entries; `answer w i` is what the
-- lookup of the worker `w` for the entry `i` comes to.
pub data Step (m n : ℕ) (answer : ℕ → ℕ → ℕ) (s : Workers) : Workers → Type 0 where
  in_query :
      (w : ℕ) {q : Query}
      → w < m
      → Move n (answer w) (s.queries w) q
      → Step m n answer s (record s { queries = update s.queries w q })
  in_tally :
      {q : Shared} (st : TallyStep m n (left_scores s) s.shared q)
      → (s.queries (actor st)).worker ≡ Protocol.done
      → Step m n answer s (record s { shared = q })

abbrev pub entry : List CfgItem → ℕ → CfgItem
entry [] i = new_item [] 0
entry (rbl ∷ rblist) zero = rbl
entry (rbl ∷ rblist) (suc i) = entry rblist i

abbrev pub answer_to : Env → List CfgItem → (ℕ → Octets) → ℕ → ℕ → ℕ
answer_to env rblist client w = answer_of env.answers (reverse_name (client w)) rblist

abbrev pub all_at_start : List CfgItem → Workers
all_at_start rblist = record { queries = λ _. Protocol.start; shared = all_at_head (entry rblist) }

-- The states of `m` workers that have the list `rblist` and are asked for the addresses `client`.
pub data Run (m : ℕ) (env : Env) (rblist : List CfgItem) (client : ℕ → Octets)
    : Workers → Type 0 where
  begin : Run m env rblist client (all_at_start rblist)
  next :
      {s s' : Workers}
      → Run m env rblist client s
      → Step m (length rblist) (answer_to env rblist client) s s'
      → Run m env rblist client s'

abbrev pub written : Outcome → List Bytes
written (replied ws rblist) = ws
written crashed = []
written died = []

abbrev pub list_left : Outcome → List CfgItem
list_left (replied ws rblist) = rblist
list_left crashed = []
list_left died = []

-- The list behind the first `m` calls of `worker_th`, where each comes after the one before it has
-- returned, and finds the list that that one has left.
unfoldable pub in_order : Env → (conn : ℕ → List Event) → List CfgItem → ℕ → List CfgItem
in_order env conn rblist zero = rblist
in_order env conn rblist (suc w) = list_left (worker_th env (in_order env conn rblist w) (conn w))
