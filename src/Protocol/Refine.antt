-- ===== src/Protocol/Refine.antt =====
-- The threads of a query refine the worker of Worker, which takes the scores as given.
use rblpolicyd.Prelude.{
  ℕ, zero, suc, ◌+◌, ◌^◌, ◌<◌, ◌≡◌, refl, ap, ◌∙◌, List, [], ◌∷◌, Option, Bytes, length, arith,
}
use rblpolicyd.Address.{Octets, reverse_name, query_name}
use rblpolicyd.CfgFile.{CfgItem}
use rblpolicyd.Solver.{Hostent, score_of}
use rblpolicyd.Worker.{Env, ResData, create_solvers, no_reply, collect, judged, judge, Outcome}
use rblpolicyd.Protocol.{Query, done, Reach}
use rblpolicyd.Protocol.Done.{done-ended}

-- `resdata` as the worker prepares it, with the scores at 0
unfoldable pub prepared : Bytes → List CfgItem → List ResData
prepared rdn [] = []
prepared rdn (rbl ∷ rblist) =
    record { hostname = query_name rdn rbl.rbldomain; rblitem = rbl; score = 0 }
    ∷ prepared rdn rblist

-- `resdata` from the entry `i` on with the scores that the solvers left there
unfoldable pub stored : (ℕ → ℕ) → ℕ → List ResData → List ResData
stored score i [] = []
stored score i (r ∷ resdata) = record r { score = score i } ∷ stored score (suc i) resdata

-- the score that the solver of an entry comes to
abbrev pub answer_of : (Bytes → Option Hostent) → Bytes → List CfgItem → ℕ → ℕ
answer_of answers rdn [] i = 0
answer_of answers rdn (rbl ∷ rblist) zero = score_of (answers (query_name rdn rbl.rbldomain)) rbl
answer_of answers rdn (rbl ∷ rblist) (suc i) = answer_of answers rdn rblist i

-- the worker behind its wait
unfoldable pub judge_stored : Query → List CfgItem → Octets → Outcome
judge_stored q rblist o =
    judged (collect 0 no_reply [] (stored q.score 0 (prepared (reverse_name o) rblist)))

stored-prepared :
    (answers : Bytes → Option Hostent) (rdn : Bytes) (rblist : List CfgItem) (score : ℕ → ℕ) (i : ℕ)
    → ((j : ℕ) → j < length rblist → score (i + j) ≡ answer_of answers rdn rblist j)
    → stored score i (prepared rdn rblist) ≡ create_solvers answers 0 rdn rblist
unfolding stored prepared create_solvers
stored-prepared answers rdn [] score i same = refl
stored-prepared answers rdn (rbl ∷ rblist) score i same =
    let here : score i ≡ score_of (answers (query_name rdn rbl.rbldomain)) rbl =
      let e : i ≡ i + 0 = omega arith in ap score e ∙ same 0 (omega arith) in
    let rest = stored-prepared answers rdn rblist score (suc i) (λ j l.
      let e : suc i + j ≡ i + suc j = omega arith in
      ap score e ∙ same (suc j) (omega (arith, l))) in
    rw (here, rest) refl

-- However the worker and its solvers are interleaved: once the worker has come out of its wait, it
-- writes what `judge` writes, with the counters that `judge` leaves.
pub judge_stored-judge :
    (env : Env) (rblist : List CfgItem) (o : Octets) {q : Query}
    → length rblist < 2 ^ 31
    → Reach (length rblist) (answer_of env.answers (reverse_name o) rblist) q
    → q.worker ≡ done
    → judge_stored q rblist o ≡ judge env rblist o
unfolding judge_stored judge
judge_stored-judge env rblist o {q} few r w =
    ap (λ rs. judged (collect 0 no_reply [] rs))
      (stored-prepared env.answers (reverse_name o) rblist q.score 0
        (λ j l. let e : 0 + j ≡ j = omega arith in ap q.score e ∙ (done-ended few r w j l).1))
