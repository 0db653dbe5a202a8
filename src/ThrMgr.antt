-- ===== src/ThrMgr.antt =====
-- thrmgr.c: the lists of running threads. The nodes live on a heap at addresses; the mutex of a
-- manager is held by the caller of `thr_register` and inside `thr_unregister`, so that each is one
-- step. The times and the log lines are left out; the walk along the list for the last of them, which
-- comes behind the mutex, is in Walk.
pub mod Links
pub mod Behind
pub mod Unlink
pub mod Members
pub mod Bag
pub mod History
pub mod Walk
pub mod Walked
use rblpolicyd.Prelude.{
  ℕ, zero, suc, ◌+◌, ◌-◌, ◌^◌, ◌%◌, Bool, true, false, Option, none, some, List, [], ◌∷◌, ◌==◌,
  if◌then◌else◌,
}

abbrev pub Ptr : Type 0
Ptr = ℕ

abbrev pub null : Ptr
null = 0

-- `thrd_t`
pub record Thrd : Type 0 where
  pub tid : ℕ
  pub next : Ptr
  pub last : Ptr

abbrev pub thrd : ℕ → Ptr → Ptr → Thrd
thrd t q l = record { tid = t; next = q; last = l }

abbrev pub Heap : Type 0
Heap = Ptr → Option Thrd

unfoldable pub write : Heap → Ptr → Option Thrd → Heap
write h p c a = if a == p then c else h a

-- `thrmgr_t`, less its mutex and its name
pub record Manager : Type 0 where
  pub nthreads : ℕ
  pub tlist : Ptr

abbrev pub manager : ℕ → Ptr → Manager
manager n p = record { nthreads = n; tlist = p }

-- A call returns its value with the state behind it, or reads through a pointer to no node, or runs
-- out of the model's fuel.
pub data Run : Type 0 where
  returned : Bool → Manager → Heap → Run
  fault : Run
  out_of_fuel : Run

abbrev pub u32_mod : ℕ
u32_mod = 2 ^ 32

-- `nthread->next->last = nthread`
unfoldable pub set_last : Heap → Ptr → Ptr → Option Heap
set_last h p l = elim (h p) [
  | none ↦ none
  | some n ↦ some (write h p (some (record n { last = l })))
]

-- `thr->last->next = thr->next`
unfoldable pub set_next : Heap → Ptr → Ptr → Option Heap
set_next h p q = elim (h p) [
  | none ↦ none
  | some n ↦ some (write h p (some (record n { next = q })))
]

-- The new node stands at the front; the node that was there points back to it.
unfoldable pub pushed : Manager → ℕ → Ptr → Option Heap → Run
pushed mgr n p none = fault
pushed mgr n p (some h) = returned true (manager n p) h

-- `thr_register`: `true` for 0 and `false` for -1. `node` is what `malloc` returns. The count goes up
-- before the allocation.
unfoldable pub thr_register : Manager → ℕ → Option Ptr → Heap → Run
thr_register mgr tid none h = returned false (manager ((mgr.nthreads + 1) % u32_mod) mgr.tlist) h
thr_register mgr tid (some node) h =
    let linked = write h node (some (thrd tid mgr.tlist null)) in
    pushed mgr ((mgr.nthreads + 1) % u32_mod) node
      (if mgr.tlist == null then some linked else set_last linked mgr.tlist node)

-- `free(thr)`, with `nthreads--`
unfoldable pub unlinked : ℕ → Ptr → Ptr → Option Heap → Run
unlinked n head p none = fault
unlinked n head p (some h) =
    returned true (manager ((n + (u32_mod - 1)) % u32_mod) head) (write h p none)

-- `if (thr->next) thr->next->last = thr->last`
unfoldable pub relink_next : Thrd → Option Heap → Option Heap
relink_next thr none = none
relink_next thr (some h) = if thr.next == null then some h else set_last h thr.next thr.last

-- The body of the loop at the node with the thread's id.
unfoldable pub unlink : Manager → Ptr → Thrd → Heap → Run
unlink mgr p thr h =
    if thr.last == null
    then unlinked mgr.nthreads thr.next p (relink_next thr (some h))
    else unlinked mgr.nthreads mgr.tlist p (relink_next thr (set_next h thr.last thr.next))

-- `for (thr = mgr->tlist; thr; thr = thr->next)`
unfoldable pub unregister_loop : ℕ → Manager → ℕ → Ptr → Heap → Run
unregister_loop zero mgr tid p h = out_of_fuel
unregister_loop (suc fuel) mgr tid p h = if p == null then returned false mgr h else elim (h p) [
  | none ↦ fault
  | some thr ↦ elim (thr.tid == tid) [
    | true ↦ unlink mgr p thr h
    | false ↦ unregister_loop fuel mgr tid thr.next h
  ]
]

-- The list has at most as many nodes as `nthreads` says, where that is right.
unfoldable pub thr_unregister : Manager → ℕ → Heap → Run
thr_unregister mgr tid h = unregister_loop (suc mgr.nthreads) mgr tid mgr.tlist h
