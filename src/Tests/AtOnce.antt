-- ===== src/Tests/AtOnce.antt =====
-- Two workers at once, with one blacklist that lists the client of the first one only.
use rblpolicyd.Prelude.{
  zero, suc, ℕ, ◌<◌, ◌≡◌, ◌≢◌, refl, false, List, [], ◌∷◌, codes, ◌==◌, if◌then◌else◌, arith,
}
use rblpolicyd.Prelude.Int.{pos}
use rblpolicyd.CfgFile.{CfgItem, new_item}
use rblpolicyd.Address.{Octets, octets, reverse_name, query_name, print_int, is_listed, inet_ntop}
use rblpolicyd.CString.{print, print_loop}
use rblpolicyd.Solver.{score_of, found_in, any_listed}
use rblpolicyd.Request.{
  Event, arrived, read_request, read_loop, read_into, received, grown, int_realloc, ends_request,
  equal, parse_request, address_in, behind, strip, copied, value_of, up_to, push_back, returned,
}
use rblpolicyd.CString.{c_string, drop_space, is_space}
use rblpolicyd.CString.Strtol.{digit_value, scan_digits}
use rblpolicyd.Address.{
  fit_int, scan_address, scan_dot, scan_int, scan_magnitude, scan_sign, name_fits,
}
use rblpolicyd.Worker.{client_address, known, requested_client, named_client, scanned_client}
use rblpolicyd.Protocol
use rblpolicyd.Protocol.{
  Query, Move, incremented, decremented_by_one, broadcast_to, lock_entry, count, create,
  unlock_entry, lock_wait, pass, sleep, lock_again, find, lock_solver, decrement, broadcast,
  unlock_solver,
}
use rblpolicyd.Tally.{
  Shared, TallyStep, all_at_head, lock, load_questions, store_questions, load_positive,
  store_positive, skip, unlock,
}
use rblpolicyd.Workers.{
  Workers, actor, left_scores, answer_to, in_query, in_tally, Run, begin, next,
}
use rblpolicyd.Workers.InOrder.{HasEnded, Asks, AreServed, Run-in_order}
use rblpolicyd.Tests.Queries.{env}

abbrev pub one_list : List CfgItem
one_list = new_item (codes "bl.org") 100 ∷ []

abbrev pub clients : ℕ → Octets
clients w =
    if w == 0
    then octets (pos 192) (pos 0) (pos 2) (pos 1)
    else octets (pos 192) (pos 0) (pos 2) (pos 7)

counted_one : incremented 0 ≢ 0
unfolding incremented
counted_one = omega arith

abbrev States : Type 0
States = (s : Workers) × Run 2 env one_list clients s

abbrev in_query_of :
    (w : ℕ) (r : States) {q : Query}
    → w < 2
    → Move 1 (answer_to env one_list clients w) (r.0.queries w) q
    → States
in_query_of w r l mv = (_, next r.1 (in_query w l mv))

abbrev in_tally_of :
    (r : States) {q : Shared} (st : TallyStep 2 1 (left_scores r.0) r.0.shared q)
    → (r.0.queries (actor st)).worker ≡ Protocol.done
    → States
in_tally_of r st d = (_, next r.1 (in_tally st d))

first_listed : answer_to env one_list clients 0 0 ≢ 0
unfolding score_of found_in equal query_name reverse_name print_int print print_loop any_listed
    is_listed inet_ntop
first_listed = omega arith

second_not_listed : answer_to env one_list clients 1 0 ≡ 0
unfolding score_of found_in equal query_name reverse_name print_int print print_loop any_listed
    is_listed inet_ntop
second_not_listed = refl

-- Both workers come to their waits, and the first is out of it before the second.
abbrev first_asks : States
unfolding incremented decremented_by_one broadcast_to all_at_head
first_asks =
    (in_query_of 0
      (in_query_of 0
        (in_query_of 0
          (in_query_of 0
            (in_query_of 0
              (in_query_of 0 (_, begin) (omega arith) (lock_entry refl (omega arith) refl))
              (omega arith) (count refl))
            (omega arith) (create false refl))
          (omega arith) (unlock_entry refl))
        (omega arith) (lock_wait refl (omega arith) refl))
      (omega arith) (sleep refl counted_one))

abbrev both_ask : States
unfolding incremented decremented_by_one broadcast_to all_at_head first_asks
both_ask =
    (in_query_of 1
      (in_query_of 1
        (in_query_of 1
          (in_query_of 1
            (in_query_of 1
              (in_query_of 1 first_asks (omega arith) (lock_entry refl (omega arith) refl))
              (omega arith) (count refl))
            (omega arith) (create false refl))
          (omega arith) (unlock_entry refl))
        (omega arith) (lock_wait refl (omega arith) refl))
      (omega arith) (sleep refl counted_one))

abbrev first_done : States
unfolding incremented decremented_by_one broadcast_to all_at_head first_asks both_ask
first_done =
    (in_query_of 0
      (in_query_of 0
        (in_query_of 0
          (in_query_of 0
            (in_query_of 0
              (in_query_of 0 (in_query_of 0 both_ask (omega arith) (find 0 refl)) (omega arith)
                (lock_solver 0 refl refl))
              (omega arith) (decrement 0 refl))
            (omega arith) (broadcast 0 refl))
          (omega arith) (unlock_solver 0 refl))
        (omega arith) (lock_again refl refl))
      (omega arith) (pass refl refl))

abbrev first_counted : States
unfolding incremented decremented_by_one broadcast_to all_at_head first_asks both_ask first_done
first_counted =
    (in_tally_of
      (in_tally_of
        (in_tally_of
          (in_tally_of
            (in_tally_of
              (in_tally_of first_done (lock 0 (omega arith) refl (omega arith) refl) refl)
              (load_questions 0 (omega arith) refl) refl)
            (store_questions 0 (omega arith) refl) refl)
          (load_positive 0 (omega arith) refl first_listed) refl)
        (store_positive 0 (omega arith) refl) refl)
      (unlock 0 (omega arith) refl) refl)

abbrev second_done : States
unfolding incremented decremented_by_one broadcast_to all_at_head first_asks both_ask first_done
    first_counted
second_done =
    (in_query_of 1
      (in_query_of 1
        (in_query_of 1
          (in_query_of 1
            (in_query_of 1
              (in_query_of 1 (in_query_of 1 first_counted (omega arith) (find 0 refl)) (omega arith)
                (lock_solver 0 refl refl))
              (omega arith) (decrement 0 refl))
            (omega arith) (broadcast 0 refl))
          (omega arith) (unlock_solver 0 refl))
        (omega arith) (lock_again refl refl))
      (omega arith) (pass refl refl))

abbrev all_ended : States
unfolding incremented decremented_by_one broadcast_to all_at_head first_asks both_ask first_done
    first_counted second_done
all_ended =
    (in_tally_of
      (in_tally_of
        (in_tally_of
          (in_tally_of (in_tally_of second_done (lock 1 (omega arith) refl (omega arith) refl) refl)
            (load_questions 1 (omega arith) refl) refl)
          (store_questions 1 (omega arith) refl) refl)
        (skip 1 (omega arith) refl second_not_listed) refl)
      (unlock 1 (omega arith) refl) refl)

all_ended-HasEnded : (w : ℕ) → w < 2 → HasEnded all_ended.0 1 w
unfolding incremented decremented_by_one broadcast_to all_at_head first_asks both_ask first_done
    first_counted second_done all_ended
all_ended-HasEnded w l = record { answered = ground arith; tallied = ground arith }

pub both_end : (s : Workers) × Run 2 env one_list clients s × ((w : ℕ) → w < 2 → HasEnded s 1 w)
both_end = (all_ended.0, all_ended.1, all_ended-HasEnded)

abbrev pub conns : ℕ → List Event
conns w =
    if w == 0
    then arrived (codes "client_address=192.0.2.1\n\n") ∷ []
    else arrived (codes "client_address=192.0.2.7\n\n") ∷ []

first_named : client_address env (conns 0) ≡ known (clients 0)
unfolding client_address requested_client read_request read_loop read_into received grown
    int_realloc ends_request equal named_client parse_request address_in behind c_string strip
    copied value_of up_to fit_int scan_address scan_dot scan_int scan_magnitude scan_sign
    digit_value scan_digits drop_space is_space push_back returned scanned_client
first_named = refl

second_named : client_address env (conns 1) ≡ known (clients 1)
unfolding client_address requested_client read_request read_loop read_into received grown
    int_realloc ends_request equal named_client parse_request address_in behind c_string strip
    copied value_of up_to fit_int scan_address scan_dot scan_int scan_magnitude scan_sign
    digit_value scan_digits drop_space is_space push_back returned scanned_client
second_named = refl

pub conns-Asks : (w : ℕ) → w < 2 → Asks env one_list (conns w) (clients w)
unfolding name_fits query_name reverse_name print_int print print_loop
conns-Asks zero l = (first_named, refl)
conns-Asks (suc zero) l = (second_named, refl)
conns-Asks (suc (suc w)) l = absurd (omega (arith, l))

Run-in_order_example : AreServed 2 env one_list clients conns all_ended.0
Run-in_order_example =
    Run-in_order conns (omega arith) (omega arith) ((λ _. refl), (λ _. refl), λ _. refl) conns-Asks
      all_ended.1 all_ended-HasEnded
