-- ===== src/ThrMgr/Walk.antt =====
-- thrmgr.c: the walk along the list at the end of `thr_unregister`, which counts the nodes for a
-- message. It comes behind the unlocking of the manager's mutex, so that other threads can register
-- and unregister meanwhile; each of these calls is one step.
use rblpolicyd.Prelude.{
  ℕ, zero, suc, ◌+◌, ◌≡◌, ◌≢◌, Bool, true, false, none, some, ◌==◌, if◌then◌else◌,
}
use rblpolicyd.ThrMgr.{Ptr, null, Thrd, Heap, Manager, returned, thr_register, thr_unregister}

-- What a walk on a heap that stays as it is comes to: a count, or a node that was freed.
pub data Walk : Type 0 where
  counted : ℕ → Walk
  freed : Walk
  unfinished : Walk

-- `for (nthr = 0, thr = mgr->tlist; thr; thr = thr->next) nthr++`
unfoldable pub walk_loop : ℕ → Heap → Ptr → ℕ → Walk
walk_loop zero h p nthr = unfinished
walk_loop (suc fuel) h p nthr =
    if p == null
    then counted nthr
    else elim (h p) [ none ↦ freed | some thr ↦ walk_loop fuel h thr.next (nthr + 1) ]

-- the walker at `thr`, with what it has counted
pub record Walker : Type 0 where
  pub heap : Heap
  pub mgr : Manager
  pub thr : Ptr
  pub nthr : ℕ

-- One step of the walk, or of another thread.
pub data WalkStep (q : Walker) : Walker → Type 0 where
  count_node :
      {node : Thrd}
      → q.thr ≢ null
      → q.heap q.thr ≡ some node
      → WalkStep q (record q { thr = node.next; nthr = q.nthr + 1 })
  other_registers :
      (tid node : ℕ) {mgr' : Manager} {g : Heap}
      → node ≢ null
      → q.heap node ≡ none
      → thr_register q.mgr tid (some node) q.heap ≡ returned true mgr' g
      → WalkStep q (record q { heap = g; mgr = mgr' })
  other_unregisters :
      (tid : ℕ) {found : Bool} {mgr' : Manager} {g : Heap}
      → thr_unregister q.mgr tid q.heap ≡ returned found mgr' g
      → WalkStep q (record q { heap = g; mgr = mgr' })

abbrev pub is_removal : {q q' : Walker} → WalkStep q q' → Bool
is_removal (count_node ne at) = false
is_removal (other_registers tid node ne unused e) = false
is_removal (other_unregisters tid e) = true

pub data Walks (q : Walker) : Walker → Type 0 where
  begin : Walks q q
  next : {q' q'' : Walker} → Walks q q' → WalkStep q' q'' → Walks q q''

-- The walker stands at a node that is freed, and reads it next.
abbrev pub ReadsFreed : Walker → Type 0
ReadsFreed q = (q.thr ≢ null) × (q.heap q.thr ≡ none)
