-- ===== src/Threads/Reach.antt =====
-- The runs of the worker manager: workers are created by the accepting thread, and unregister
-- themselves, in any order.
use rblpolicyd.Prelude.{
  ℕ, ◌≤◌, ◌<◌, ◌≡◌, ◌≢◌, refl, sym, ◌∙◌, Bool, Option, none, some, [], ◌∷◌, length, Bool-cases, inl,
  inr, arith,
}
use rblpolicyd.Prelude.Int.{ℤ}
use rblpolicyd.ThrMgr.{Ptr, null, Heap, Manager, manager, returned, u32_mod, thr_unregister}
use rblpolicyd.ThrMgr.Links.{Nodes, has_tid, nil, IsManager}
use rblpolicyd.ThrMgr.Behind.{erase}
use rblpolicyd.ThrMgr.Members.{length-erase_le}
use rblpolicyd.ThrMgr.Unlink.{thr_unregister-IsManager}
use rblpolicyd.Threads.{Attempt, ended, wthread_create}
use rblpolicyd.Threads.Limit.{NoReturn, wthread_create-Limit}

-- What the worker manager and the heap can come to, with memory for every node.
pub data Reach (maxthreads : ℕ) : Manager → Heap → Type 0 where
  opened : {h : Heap} → Reach maxthreads (manager 0 null) h
  created :
      {mgr mgr' : Manager} {h g : Heap} {code : ℤ} {closed : Bool} {count : Option ℕ}
      (env : Attempt) (node : Ptr)
      → Reach maxthreads mgr h
      → NoReturn env.appstate
      → env.node ≡ some node
      → node ≢ null
      → h node ≡ none
      → wthread_create maxthreads env (some mgr) h ≡ ended code closed count mgr' g
      → Reach maxthreads mgr' g
  unregistered :
      {mgr mgr' : Manager} {h g : Heap} {found : Bool} (tid : ℕ)
      → Reach maxthreads mgr h
      → thr_unregister mgr tid h ≡ returned found mgr' g
      → Reach maxthreads mgr' g

-- a well-formed manager of at most that many threads
abbrev pub Within : ℕ → Manager → Heap → Type 0
Within maxthreads mgr h = (xs : Nodes) × IsManager h mgr xs × (length xs ≤ maxthreads)

Within-ended :
    {maxthreads : ℕ} {mgr mgr' : Manager} {h g : Heap} {code code' : ℤ} {closed closed' : Bool}
    {count count' : Option ℕ}
    → ended code closed count mgr h ≡ ended code' closed' count' mgr' g
    → Within maxthreads mgr h
    → Within maxthreads mgr' g
Within-ended {maxthreads} {mgr} {mgr'} {h} {g} e w =
    let m : mgr ≡ mgr' = cc in let k : h ≡ g = cc in rw (sym m, sym k) w

Within-returned :
    {maxthreads : ℕ} {mgr mgr' : Manager} {h g : Heap} {b b' : Bool}
    → returned b mgr h ≡ returned b' mgr' g
    → Within maxthreads mgr h
    → Within maxthreads mgr' g
Within-returned {maxthreads} {mgr} {mgr'} {h} {g} e w =
    let m : mgr ≡ mgr' = cc in let k : h ≡ g = cc in rw (sym m, sym k) w

Within-created :
    {h : Heap} {mgr : Manager} (maxthreads : ℕ) (env : Attempt) (node : Ptr) {mgr' : Manager}
    {g : Heap} {code : ℤ} {closed : Bool} {count : Option ℕ}
    → maxthreads < u32_mod
    → NoReturn env.appstate
    → env.node ≡ some node
    → node ≢ null
    → h node ≡ none
    → wthread_create maxthreads env (some mgr) h ≡ ended code closed count mgr' g
    → Within maxthreads mgr h
    → Within maxthreads mgr' g
Within-created maxthreads env node small stays at ne unused e (xs, is, le) =
    elim (wthread_create-Limit maxthreads env node is small stays at ne unused) [
      | inl (tid, mgr', g, t, c, is', same, room) ↦
          Within-ended (sym c ∙ e) ((node, tid) ∷ xs, is', room)
      | inr (inl c) ↦ Within-ended (sym c ∙ e) (xs, is, le)
      | inr (inr (inl (c, full))) ↦ Within-ended (sym c ∙ e) (xs, is, le)
      | inr (inr (inr (c, t))) ↦ Within-ended (sym c ∙ e) (xs, is, le)
    ]

Within-unregistered :
    {h : Heap} {mgr : Manager} (maxthreads : ℕ) {mgr' : Manager} {g : Heap} {b : Bool} (tid : ℕ)
    → thr_unregister mgr tid h ≡ returned b mgr' g
    → Within maxthreads mgr h
    → Within maxthreads mgr' g
Within-unregistered maxthreads tid e (xs, is, le) =
    let (found, missing) = thr_unregister-IsManager tid is in
    elim (Bool-cases (has_tid tid xs)) [
      | inl there ↦
          let (mgr', g, c, is', same, freed) = found there in
          Within-returned (sym c ∙ e) (erase tid xs, is', omega (arith, le, length-erase_le tid xs))
      | inr away ↦ Within-returned (sym (missing away) ∙ e) (xs, is, le)
    ]

-- However workers are created and unregister themselves: the links of the list hold in both
-- directions, the count is its length, and no more than `maxthreads` workers are registered.
Reach-Within :
    {maxthreads : ℕ} {mgr : Manager} {h : Heap}
    → Reach maxthreads mgr h
    → maxthreads < u32_mod
    → Within maxthreads mgr h
Reach-Within opened small =
    ([], record { chain = nil refl; count = refl; small = omega arith }, omega arith)
Reach-Within {maxthreads} (created env node r stays at ne unused e) small =
    Within-created maxthreads env node small stays at ne unused e (Reach-Within r small)
Reach-Within {maxthreads} (unregistered tid r e) small =
    Within-unregistered maxthreads tid e (Reach-Within r small)
