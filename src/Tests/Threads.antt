-- ===== src/Tests/Threads.antt =====
-- A query with one entry, run to its end in one order, and one whose solver is not created.
use rblpolicyd.Prelude.{ℕ, ◌+◌, ◌≡◌, ◌≢◌, refl, false, List, [], ◌∷◌, codes, arith}
use rblpolicyd.Prelude.Int.{pos}
use rblpolicyd.CfgFile.{CfgItem, new_item}
use rblpolicyd.Address.{Octets, octets, reverse_name}
use rblpolicyd.Worker.{judge}
use rblpolicyd.Protocol.{
  done, ended, Query, incremented, decremented_by_one, broadcast_to, lock_entry, count, create,
  create_failed, unlock_entry, lock_wait, pass, sleep, lock_again, find, lock_solver, decrement,
  broadcast, unlock_solver, Reach, at_start, after,
}
use rblpolicyd.Protocol.Done.{Steps, none, more, done-ended, Steps-ne-done}
use rblpolicyd.Protocol.Refine.{answer_of, judge_stored, judge_stored-judge}
use rblpolicyd.Tests.Queries.{env}

waits : incremented 0 ≢ 0
unfolding incremented
waits = omega arith

-- the worker comes to its wait before the solver has begun
abbrev asleep : (answer : ℕ → ℕ) → (q : Query) × Reach 1 answer q
asleep answer = (
  _,
  after
      (after
        (after
          (after (after (after at_start (lock_entry refl (omega arith) refl)) (count refl))
            (create false refl))
          (unlock_entry refl))
        (lock_wait refl (omega arith) refl))
      (sleep refl waits),
)

-- the solver takes itself off the count and wakes the worker
abbrev whole_run : (answer : ℕ → ℕ) → (q : Query) × Reach 1 answer q
unfolding incremented decremented_by_one broadcast_to
whole_run answer = (
  _,
  after
      (after
        (after
          (after
            (after (after (after (asleep answer).1 (find 0 refl)) (lock_solver 0 refl refl))
              (decrement 0 refl))
            (broadcast 0 refl))
          (unlock_solver 0 refl))
        (lock_again refl refl))
      (pass refl refl),
)

done-ended_example :
    ((whole_run (λ j. j + 7)).0.solver 0 ≡ ended) × ((whole_run (λ j. j + 7)).0.score 0 ≡ 7)
unfolding whole_run
done-ended_example = done-ended (omega arith) (whole_run (λ j. j + 7)).1 refl 0 (omega arith)

-- the thread of the only entry is not created
abbrev refused : (q : Query) × Reach 1 (λ _. 100) q
refused = (
  _,
  after (after (after at_start (lock_entry refl (omega arith) refl)) (count refl))
      (create_failed refl),
)

abbrev refused_later : (q : Query) × Steps 1 (λ _. 100) refused.0 q
refused_later = (_, more (more none (unlock_entry refl)) (lock_wait refl (omega arith) refl))

Steps-ne-done_example : refused_later.0.worker ≢ done
Steps-ne-done_example = Steps-ne-done 0 (omega arith) refused.1 refl refused_later.1

abbrev one_list : List CfgItem
one_list = new_item (codes "bl.org") 100 ∷ []

abbrev address : Octets
address = octets (pos 192) (pos 0) (pos 2) (pos 1)

abbrev the_run : (q : Query) × Reach 1 (answer_of env.answers (reverse_name address) one_list) q
the_run = whole_run (answer_of env.answers (reverse_name address) one_list)

judge_stored-judge_example : judge_stored the_run.0 one_list address ≡ judge env one_list address
unfolding whole_run
judge_stored-judge_example = judge_stored-judge env one_list address (omega arith) the_run.1 refl
