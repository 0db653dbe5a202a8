-- ===== src/Registry/Inv.antt =====
-- What holds of the two mutexes and the threads that hold them.
use rblpolicyd.Prelude.{
  refl, ℕ, ◌≡◌, Bool, true, false, Option, none, some, arith, ◌==◌, Bool-cases, inl, inr,
}
use rblpolicyd.ThrMgr.{Heap, Manager}
use rblpolicyd.Registry.{
  CallerPc, outside, in_init, making, tested, past_init, in_manager, threaded, finishing, ThreadPc,
  absent, unlisted, cancelled, leaving, removed, unlocked, of_caller, of_thread, Registry,
  listed_as, is_running, Step, enter, miss, make, keep, leave_init, lock_manager, refuse, spawn,
  register, fail_register, die, unlock_manager, leave, remove, unlock_thread, at_first, Run, begin,
  next,
}

abbrev pub is_made : Option Manager → Bool
is_made none = false
is_made (some mgr) = true

abbrev in_init_mutex : CallerPc → Bool
in_init_mutex in_init = true
in_init_mutex making = true
in_init_mutex tested = true
in_init_mutex _ = false

-- a caller that has seen that there is a manager
abbrev pub is_tested : CallerPc → Bool
is_tested outside = false
is_tested in_init = false
is_tested making = false
is_tested _ = true

abbrev caller_locks : CallerPc → Bool
caller_locks in_manager = true
caller_locks (threaded tid) = true
caller_locks finishing = true
caller_locks _ = false

abbrev thread_locks : ThreadPc → Bool
thread_locks leaving = true
thread_locks (removed found) = true
thread_locks _ = false

abbrev is_absent : ThreadPc → Bool
is_absent absent = true
is_absent _ = false

pub record Inv (q : Registry) : Type 0 where
  pub init_right : (k : ℕ) → in_init_mutex (q.caller k) ≡ true → q.init_mutex ≡ some k
  pub making_right : (k : ℕ) → q.caller k ≡ making → is_made q.solvermgr ≡ false
  pub caller_made : (k : ℕ) → is_tested (q.caller k) ≡ true → is_made q.solvermgr ≡ true
  pub thread_made : (t : ℕ) → is_absent (q.thread t) ≡ false → is_made q.solvermgr ≡ true
  pub made_once :
      (is_made q.solvermgr ≡ true → q.made ≡ 1) × (is_made q.solvermgr ≡ false → q.made ≡ 0)
  pub caller_right : (k : ℕ) → caller_locks (q.caller k) ≡ true → q.lock ≡ of_caller k
  pub thread_right : (t : ℕ) → thread_locks (q.thread t) ≡ true → q.lock ≡ of_thread t
  pub unlisted_right : (t : ℕ) → q.thread t ≡ unlisted → (k : ℕ) × (q.caller k ≡ threaded t)
  pub threaded_right : (k t : ℕ) → q.caller k ≡ threaded t → q.thread t ≡ unlisted
  pub cancelled_short : (t : ℕ) → q.thread t ≡ cancelled → q.short ≡ true

-- The premises of a step, for the catch-all clauses below, which cannot name them.
abbrev pub Guard : {q q' : Registry} → Step q q' → Type 0
Guard {q} (enter k _ _) = (q.caller k ≡ outside) × (q.init_mutex ≡ none)
Guard {q} (miss k _ _) = (q.caller k ≡ in_init) × (q.solvermgr ≡ none)
Guard {q} (make k _) = q.caller k ≡ making
Guard {q} (keep k {mgr} _ _) = (q.caller k ≡ in_init) × (q.solvermgr ≡ some mgr)
Guard {q} (leave_init k _) = q.caller k ≡ tested
Guard {q} (lock_manager k _ _) = (q.caller k ≡ past_init) × (q.lock ≡ unlocked)
Guard {q} (refuse k _) = q.caller k ≡ in_manager
Guard {q} (spawn k tid _ _) = (q.caller k ≡ in_manager) × (q.thread tid ≡ absent)
Guard {q} (register k tid {mgr} _ _ _ _ _ _) =
    (q.caller k ≡ threaded tid) × (q.solvermgr ≡ some mgr)
Guard {q} (fail_register k tid {mgr} _ _ _) = (q.caller k ≡ threaded tid) × (q.solvermgr ≡ some mgr)
Guard {q} (die tid _) = q.thread tid ≡ cancelled
Guard {q} (unlock_manager k _) = q.caller k ≡ finishing
Guard {q} (leave tid _ _) = (is_running (q.thread tid) ≡ true) × (q.lock ≡ unlocked)
Guard {q} (remove tid {mgr} _ _ _) = (q.thread tid ≡ leaving) × (q.solvermgr ≡ some mgr)
Guard {q} (unlock_thread tid {found} _) = q.thread tid ≡ removed found

pub guard : {q q' : Registry} (st : Step q q') → Guard st
guard (enter k c i) = (c, i)
guard (miss k c m) = (c, m)
guard (make k c) = c
guard (keep k c m) = (c, m)
guard (leave_init k c) = c
guard (lock_manager k c l) = (c, l)
guard (refuse k c) = c
guard (spawn k tid c t) = (c, t)
guard (register k tid c m ne unused few e) = (c, m)
guard (fail_register k tid c m e) = (c, m)
guard (die tid t) = t
guard (unlock_manager k c) = c
guard (leave tid r l) = (r, l)
guard (remove tid t m e) = (t, m)
guard (unlock_thread tid t) = t

module _ {q : Registry} (inv : Inv q) where
  open inv use {
    init_right, making_right, caller_made, thread_made, made_once, caller_right, thread_right,
    unlisted_right, threaded_right, cancelled_short,
  }

  Step-init_right :
      {q' : Registry}
      → Step q q'
      → (k : ℕ) → in_init_mutex (q'.caller k) ≡ true
      → q'.init_mutex ≡ some k
  Step-init_right (enter k' c i) k e = ground (arith, init_right k)
  Step-init_right (leave_init k' c) k e = ground (arith, init_right k, init_right k')
  Step-init_right st k e = ground (arith, guard st, init_right k)

  Step-making_right :
      {q' : Registry} → Step q q' → (k : ℕ) → q'.caller k ≡ making → is_made q'.solvermgr ≡ false
  Step-making_right (enter k' c i) k e = ground (arith, making_right k)
  Step-making_right (make k' c) k e = ground (arith, making_right k, init_right k, init_right k')
  Step-making_right (register k' tid c m ne unused few eq) k e = ground (arith, making_right k, m)
  Step-making_right (fail_register k' tid c m eq) k e = ground (arith, making_right k, m)
  Step-making_right st k e = ground (arith, guard st, making_right k)

  Step-caller_made :
      {q' : Registry}
      → Step q q'
      → (k : ℕ) → is_tested (q'.caller k) ≡ true
      → is_made q'.solvermgr ≡ true
  Step-caller_made (enter k' c i) k e = ground (arith, caller_made k)
  Step-caller_made st k e = ground (arith, guard st, caller_made k)

  Step-thread_made :
      {q' : Registry}
      → Step q q'
      → (t : ℕ) → is_absent (q'.thread t) ≡ false
      → is_made q'.solvermgr ≡ true
  unfolding is_running listed_as
  Step-thread_made (spawn k tid c s) t e = ground (arith, thread_made t, caller_made k)
  Step-thread_made (leave tid r l) t e = ground (arith, thread_made t, thread_made tid)
  Step-thread_made st t e = ground (arith, guard st, thread_made t)

  Step-made_once :
      {q' : Registry}
      → Step q q'
      → (is_made q'.solvermgr ≡ true → q'.made ≡ 1) × (is_made q'.solvermgr ≡ false → q'.made ≡ 0)
  Step-made_once (enter k c i) = made_once
  Step-made_once (make k c) = ground (arith, made_once, making_right k c)
  Step-made_once st = ground (arith, guard st, made_once)

  Step-caller_right :
      {q' : Registry}
      → Step q q'
      → (k : ℕ) → caller_locks (q'.caller k) ≡ true
      → q'.lock ≡ of_caller k
  Step-caller_right (make k' c) k e = ground (arith, caller_made k, making_right k' c)
  Step-caller_right (unlock_manager k' c) k e = ground (arith, caller_right k, caller_right k')
  Step-caller_right (unlock_thread t s) k e = ground (arith, caller_right k, thread_right t)
  Step-caller_right st k e = ground (arith, guard st, caller_right k)

  Step-thread_right :
      {q' : Registry}
      → Step q q'
      → (t : ℕ) → thread_locks (q'.thread t) ≡ true
      → q'.lock ≡ of_thread t
  unfolding listed_as
  Step-thread_right (make k' c) t e = ground (arith, thread_made t, making_right k' c)
  Step-thread_right (unlock_manager k' c) t e = ground (arith, thread_right t, caller_right k')
  Step-thread_right (unlock_thread t' s) t e = ground (arith, thread_right t, thread_right t')
  Step-thread_right st t e = ground (arith, guard st, thread_right t)

  Step-threaded_right :
      {q' : Registry} → Step q q' → (k t : ℕ) → q'.caller k ≡ threaded t → q'.thread t ≡ unlisted
  unfolding is_running listed_as
  Step-threaded_right (enter k' c i) k t e = ground (arith, threaded_right k t)
  Step-threaded_right (spawn k' tid c s) k t e =
      ground (arith, threaded_right k t, caller_right k, caller_right k')
  Step-threaded_right (register k' tid c m ne unused few eq) k t e =
      ground (arith, threaded_right k t, caller_right k, caller_right k')
  Step-threaded_right (fail_register k' tid c m eq) k t e =
      ground (arith, threaded_right k t, caller_right k, caller_right k')
  Step-threaded_right (leave tid r l) k t e = ground (arith, threaded_right k t, caller_right k)
  Step-threaded_right st k t e = ground (arith, guard st, threaded_right k t)

  Step-unlisted_right :
      {q' : Registry}
      → Step q q'
      → (t : ℕ) → q'.thread t ≡ unlisted
      → (k : ℕ) × (q'.caller k ≡ threaded t)
  unfolding is_running listed_as
  Step-unlisted_right (spawn k' tid c s) t e = elim (Bool-cases (t == tid)) [
    | inl new ↦ (k', ground (arith, new))
    | inr old ↦
        let (k, a) = unlisted_right t (ground (arith, e, old)) in
        (k, ground (arith, a, caller_right k, caller_right k'))
  ]
  Step-unlisted_right (register k' tid c m ne unused few eq) t e =
      let u : q.thread t ≡ unlisted = ground (arith, e) in
      let (k, a) = unlisted_right t u in (k, ground (arith, a, e, threaded_right k' tid))
  Step-unlisted_right (fail_register k' tid c m eq) t e =
      let u : q.thread t ≡ unlisted = ground (arith, e) in
      let (k, a) = unlisted_right t u in (k, ground (arith, a, e, threaded_right k' tid))
  Step-unlisted_right st t e =
      let u : q.thread t ≡ unlisted = ground (arith, guard st, e) in
      let (k, a) = unlisted_right t u in (k, ground (arith, guard st, a))

  Step-cancelled_short :
      {q' : Registry} → Step q q' → (t : ℕ) → q'.thread t ≡ cancelled → q'.short ≡ true
  unfolding is_running listed_as
  Step-cancelled_short (fail_register k tid c m eq) t e = refl
  Step-cancelled_short (register k tid c m ne unused few eq) t e =
      ground (arith, e, cancelled_short t, threaded_right k tid)
  Step-cancelled_short st t e = ground (arith, guard st, e, cancelled_short t)

  Step-Inv : {q' : Registry} → Step q q' → Inv q'
  Step-Inv st = record {
    init_right = Step-init_right st;
    making_right = Step-making_right st;
    caller_made = Step-caller_made st;
    thread_made = Step-thread_made st;
    made_once = Step-made_once st;
    caller_right = Step-caller_right st;
    thread_right = Step-thread_right st;
    unlisted_right = Step-unlisted_right st;
    threaded_right = Step-threaded_right st;
    cancelled_short = Step-cancelled_short st;
  }

Inv-at_first : (h : Heap) → Inv (at_first h)
unfolding at_first
Inv-at_first h = record {
  init_right = λ k e. ground (arith, e);
  making_right = λ k e. absurd (ground (arith, e));
  caller_made = λ k e. ground (arith, e);
  thread_made = λ t e. ground (arith, e);
  made_once = ground arith;
  caller_right = λ k e. ground (arith, e);
  thread_right = λ t e. ground (arith, e);
  unlisted_right = λ t e. absurd (ground (arith, e));
  threaded_right = λ k t e. absurd (ground (arith, e));
  cancelled_short = λ t e. absurd (ground (arith, e));
}

pub Run-Inv : {h : Heap} {q : Registry} → Run h q → Inv q
Run-Inv {h} begin = Inv-at_first h
Run-Inv (next r st) = Step-Inv (Run-Inv r) st
