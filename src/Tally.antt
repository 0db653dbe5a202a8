-- ===== src/Tally.antt =====
-- worker.c: the counters of the blacklists, which all workers change in their loops over the results,
-- each entry under `rblist_mutex`. Each step is one access to what they share: `questions++` and
-- `positive++` load a counter and store it. What a worker does besides in the loop is in Worker.
pub mod Defs
pub mod Inv
pub mod InTurn
use rblpolicyd.Prelude.{ℕ, suc, ◌+◌, ◌%◌, ◌^◌, ◌<◌, ◌≡◌, ◌≢◌, Option, none, some}
use rblpolicyd.Protocol.Family.{update}
use rblpolicyd.CfgFile.{CfgItem}
use rblpolicyd.Worker.{u32_mod}

-- Where a worker stands: at the head of the `for` for an entry, or in its body with the mutex, before
-- and behind the two additions; `questions_read` and `positive_read` have the loaded value.
pub data TallyPc : Type 0 where
  head : ℕ → TallyPc
  holding : ℕ → TallyPc
  questions_read : ℕ → ℕ → TallyPc
  asked : ℕ → TallyPc
  positive_read : ℕ → ℕ → TallyPc
  tallied : ℕ → TallyPc

-- the list, by the number of each entry, its mutex, and where each worker stands
pub record Shared : Type 0 where
  pub items : ℕ → CfgItem
  pub rblist_mutex : Option ℕ
  pub worker : ℕ → TallyPc

-- The state behind a step of one worker.
abbrev pub moved : Shared → ℕ → TallyPc → Shared
moved q w pc = record q { worker = update q.worker w pc }

-- One step of the worker `w` of `m`, with `n` entries; `score w i` is the score that it has for the
-- entry `i`.
pub data TallyStep (m n : ℕ) (score : ℕ → ℕ → ℕ) (q : Shared) : Shared → Type 0 where
  lock :
      (w : ℕ) {i : ℕ}
      → w < m
      → q.worker w ≡ head i
      → i < n
      → q.rblist_mutex ≡ none
      → TallyStep m n score q (record (moved q w (holding i)) { rblist_mutex = some w })
  load_questions :
      (w : ℕ) {i : ℕ}
      → w < m
      → q.worker w ≡ holding i
      → TallyStep m n score q (moved q w (questions_read i ((q.items i).questions)))
  store_questions :
      (w : ℕ) {i v : ℕ}
      → w < m
      → q.worker w ≡ questions_read i v
      → TallyStep m n score q (record (moved q w (asked i)) {
        items = update q.items i (record (q.items i) { questions = (v + 1) % u32_mod });
      })
  load_positive :
      (w : ℕ) {i : ℕ}
      → w < m
      → q.worker w ≡ asked i
      → score w i ≢ 0
      → TallyStep m n score q (moved q w (positive_read i ((q.items i).positive)))
  store_positive :
      (w : ℕ) {i v : ℕ}
      → w < m
      → q.worker w ≡ positive_read i v
      → TallyStep m n score q (record (moved q w (tallied i)) {
        items = update q.items i (record (q.items i) { positive = (v + 1) % u32_mod });
      })
  skip :
      (w : ℕ) {i : ℕ}
      → w < m
      → q.worker w ≡ asked i
      → score w i ≡ 0
      → TallyStep m n score q (moved q w (tallied i))
  unlock :
      (w : ℕ) {i : ℕ}
      → w < m
      → q.worker w ≡ tallied i
      → TallyStep m n score q (record (moved q w (head (suc i))) { rblist_mutex = none })

unfoldable pub all_at_head : (ℕ → CfgItem) → Shared
all_at_head items = record { items = items; rblist_mutex = none; worker = λ _. head 0 }

-- The states from the heads of the loops on, with any interleaving.
pub data TallyRun (m n : ℕ) (score : ℕ → ℕ → ℕ) (items : ℕ → CfgItem) : Shared → Type 0 where
  begin : TallyRun m n score items (all_at_head items)
  next :
      {q q' : Shared}
      → TallyRun m n score items q
      → TallyStep m n score q q'
      → TallyRun m n score items q'
