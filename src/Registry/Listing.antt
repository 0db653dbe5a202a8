-- ===== src/Registry/Listing.antt =====
-- What the list of the solver manager holds.
use rblpolicyd.Prelude.{
  ℕ, ◌+◌, ◌<◌, ◌≡◌, ◌≢◌, refl, sym, ◌∙◌, Bool, true, false, none, some, [], ◌∷◌, arith, ◌==◌, ◌||◌,
  Bool-cases, inl, inr,
}
use rblpolicyd.ThrMgr.{
  Ptr, null, Heap, Manager, manager, returned, u32_mod, thr_register, thr_unregister,
}
use rblpolicyd.ThrMgr.Links.{Nodes, has_tid, nil, IsManager, thr_register-IsManager}
use rblpolicyd.ThrMgr.Behind.{erase}
use rblpolicyd.ThrMgr.Unlink.{thr_unregister-IsManager}
use rblpolicyd.Registry.{
  ThreadPc, unlisted, listed, cancelled, leaving, unlocked, Registry, listed_as, is_running, Step,
  enter, make, spawn, register, fail_register, die, leave, remove, unlock_thread, at_first, Run,
  begin, next,
}
use rblpolicyd.Registry.Inv.{Inv, Run-Inv}

-- every thread is in the list once
abbrev AreDistinct : Nodes → Type 0
AreDistinct [] = Unit
AreDistinct ((p, t) ∷ xs) = (has_tid t xs ≡ false) × AreDistinct xs

has_tid-erase_same : (t : ℕ) (xs : Nodes) → AreDistinct xs → has_tid t (erase t xs) ≡ false
has_tid-erase_same t [] d = refl
has_tid-erase_same t ((p, u) ∷ xs) (out, d) = ground (arith, out, has_tid-erase_same t xs d)

has_tid-erase_other : (t s : ℕ) (xs : Nodes) → s ≢ t → has_tid s (erase t xs) ≡ has_tid s xs
has_tid-erase_other t s [] ne = refl
has_tid-erase_other t s ((p, u) ∷ xs) ne = ground (arith, ne, has_tid-erase_other t s xs ne)

AreDistinct-erase : (t : ℕ) (xs : Nodes) → AreDistinct xs → AreDistinct (erase t xs)
AreDistinct-erase t [] d = tt
AreDistinct-erase t ((p, u) ∷ xs) (out, d) = elim (Bool-cases (u == t)) [
  | inl here ↦ rw here d
  | inr there ↦
      rw there (has_tid-erase_other t u xs (ground (arith, there)) ∙ out, AreDistinct-erase t xs d)
]

-- a thread that is registered, or about to unregister
abbrev on_list : ThreadPc → Bool
on_list listed = true
on_list leaving = true
on_list _ = false

-- The manager is well formed, and its list holds the registered threads, each once.
abbrev pub Listed : Heap → (ℕ → ThreadPc) → Manager → Type 0
Listed h thread mgr =
    (xs : Nodes) × IsManager h mgr xs
    × AreDistinct xs
    × ((t : ℕ) → has_tid t xs ≡ on_list (thread t))

abbrev pub Lists : Registry → Type 0
Lists q = q.short ≡ false → (mgr : Manager) → q.solvermgr ≡ some mgr → Listed q.heap q.thread mgr

some-injective {ℓ} : {A : Type ℓ} {x y : A} → some x ≡ some y → x ≡ y
some-injective e = cc

relisted :
    {h : Heap} {mgr : Manager} (thread thread' : ℕ → ThreadPc)
    → Listed h thread mgr
    → ((t : ℕ) → on_list (thread' t) ≡ on_list (thread t))
    → Listed h thread' mgr
relisted thread thread' (xs, is, d, l) same = (xs, is, d, λ t. l t ∙ sym (same t))

Listed-registered :
    {h g : Heap} {mgr mgr' : Manager} (thread thread' : ℕ → ThreadPc) (tid : ℕ) (node : Ptr)
    → Listed h thread mgr
    → on_list (thread tid) ≡ false
    → node ≢ null
    → h node ≡ none
    → mgr.nthreads + 1 < u32_mod
    → thr_register mgr tid (some node) h ≡ returned true mgr' g
    → ((t : ℕ) → on_list (thread' t) ≡ ((tid == t) || on_list (thread t)))
    → Listed g thread' mgr'
Listed-registered {g = g} {mgr' = mgr'} thread thread' tid node (xs, is, d, l) new ne unused few e
      same =
    let ((m, g₁, e₁, is', _), _) =
      thr_register-IsManager tid node is ne unused (omega (arith, is.count, few)) in
    let mm : m ≡ mgr' = cc (e, e₁) in
    let gg : g₁ ≡ g = cc (e, e₁) in
    ((node, tid) ∷ xs, rw (sym mm, sym gg) is', (l tid ∙ new, d), λ t. ground (arith, l t, same t))

Listed-unregistered :
    {h g : Heap} {mgr mgr' : Manager} (thread thread' : ℕ → ThreadPc) (tid : ℕ) {found : Bool}
    → Listed h thread mgr
    → on_list (thread tid) ≡ true
    → thr_unregister mgr tid h ≡ returned found mgr' g
    → on_list (thread' tid) ≡ false
    → ((t : ℕ) → t ≢ tid → on_list (thread' t) ≡ on_list (thread t))
    → Listed g thread' mgr'
Listed-unregistered {g = g} {mgr' = mgr'} thread thread' tid (xs, is, d, l) there e gone same =
    let (m, g₁, e₁, is', _, _) = (thr_unregister-IsManager tid is).0 (l tid ∙ there) in
    let mm : m ≡ mgr' = cc (e, e₁) in
    let gg : g₁ ≡ g = cc (e, e₁) in
    (
      erase tid xs,
      rw (sym mm, sym gg) is',
      AreDistinct-erase tid xs d,
      λ t. elim (Bool-cases (t == tid)) [
        | inl it ↦
            let i : t ≡ tid = ground (arith, it) in rw i (has_tid-erase_same tid xs d ∙ sym gone)
        | inr other ↦
            let ne : t ≢ tid = ground (arith, other) in
            has_tid-erase_other tid t xs ne ∙ l t ∙ sym (same t ne)
      ],
    )

module _ {q : Registry} (inv : Inv q) (lists : Lists q) where
  -- A thread that takes the manager's mutex has been registered, if no registration failed.
  leaves-listed :
      (tid : ℕ)
      → q.short ≡ false
      → is_running (q.thread tid) ≡ true
      → q.lock ≡ unlocked
      → q.thread tid ≡ listed
  unfolding is_running
  leaves-listed tid n r l =
      let registered : q.thread tid ≢ unlisted =
        λ u. let (k, c) = inv.unlisted_right tid u in ground (arith, c, inv.caller_right k, l) in
      let kept : q.thread tid ≢ cancelled = λ c. ground (arith, inv.cancelled_short tid c, n) in
      ground (arith, registered, kept, r)

  Step-Lists : {q' : Registry} → Step q q' → Lists q'
  unfolding listed_as is_running
  Step-Lists (enter k c i) n mgr e = lists n mgr e
  Step-Lists (make k c) n mgr e =
      let same : manager 0 null ≡ mgr = some-injective e in
      rw (sym same) (
        [],
        record { chain = nil refl; count = refl; small = omega arith },
        tt,
        λ t. ground (arith, inv.thread_made t, inv.making_right k c),
      )
  Step-Lists (spawn k tid c s) n mgr e =
      relisted q.thread _ (lists n mgr e) (λ t. ground (arith, s))
  Step-Lists (register k tid {mgr = mgr₀} {mgr'} {node} c m ne unused few eq) n mgr e =
      let same : mgr' ≡ mgr = some-injective e in
      let s = inv.threaded_right k tid c in
      rw (sym same) (
        Listed-registered q.thread _ tid node (lists n mgr₀ m) (ground (arith, s)) ne unused few eq
          (λ t. ground (arith, s)))
  Step-Lists (leave tid r l) n mgr e =
      let known = leaves-listed tid n r l in
      relisted q.thread _ (lists n mgr e) (λ t. ground (arith, known))
  Step-Lists (remove tid {mgr = mgr₀} {mgr'} s m eq) n mgr e =
      let same : mgr' ≡ mgr = some-injective e in
      rw (sym same) (
        Listed-unregistered q.thread _ tid (lists n mgr₀ m) (ground (arith, s)) eq (ground arith)
          (λ t ne. ground (arith, ne)))
  Step-Lists (unlock_thread tid s) n mgr e =
      relisted q.thread _ (lists n mgr e) (λ t. ground (arith, s))
  Step-Lists (die tid s) n mgr e = relisted q.thread _ (lists n mgr e) (λ t. ground (arith, s))
  Step-Lists (fail_register k tid c m eq) n mgr e = absurd (ground (arith, n))
  Step-Lists st n mgr e = lists n mgr e

pub Run-Lists : {h : Heap} {q : Registry} → Run h q → Lists q
unfolding at_first
Run-Lists begin n mgr e = absurd cc
Run-Lists (next r st) n mgr e = Step-Lists (Run-Inv r) (Run-Lists r) st n mgr e
