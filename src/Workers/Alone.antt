-- ===== src/Workers/Alone.antt =====
-- One worker alone: what it leaves in the list, and what it writes, which no counter has a part in.
use rblpolicyd.Prelude.{
  ℕ, zero, suc, ◌<◌, ◌≡◌, refl, sym, ap, ◌∙◌, Option, List, [], ◌∷◌, ◌++◌, append_assoc, append-nil,
  Bytes, length, arith,
}
use rblpolicyd.Address.{Octets, reverse_name, query_name}
use rblpolicyd.CfgFile.{CfgItem}
use rblpolicyd.Solver.{Hostent, score_of}
use rblpolicyd.Worker.{Env, Reply, no_reply, counted, create_solvers, collect, judged, judge}
use rblpolicyd.Worker.Score.{counters}
use rblpolicyd.Protocol.Refine.{answer_of}
use rblpolicyd.Tally.Defs.{uncounted}
use rblpolicyd.Workers.{entry, written, list_left}

-- the same entries, less their counters
pub data IsSameList : List CfgItem → List CfgItem → Type 0 where
  none : IsSameList [] []
  both :
      {a b : CfgItem} {l l' : List CfgItem}
      → uncounted a ≡ uncounted b
      → IsSameList l l'
      → IsSameList (a ∷ l) (b ∷ l')

pub IsSameList-refl : (l : List CfgItem) → IsSameList l l
IsSameList-refl [] = none
IsSameList-refl (a ∷ l) = both refl (IsSameList-refl l)

pub length-IsSameList : {l l' : List CfgItem} → IsSameList l l' → length l ≡ length l'
length-IsSameList none = refl
length-IsSameList (both e s) = ap suc (length-IsSameList s)

module _ (answers : Bytes → Option Hostent) (rdn : Bytes) where
  abbrev score_for : CfgItem → ℕ
  score_for rbl = score_of (answers (query_name rdn rbl.rbldomain)) rbl

  score_for-same : (a b : CfgItem) → uncounted a ≡ uncounted b → score_for a ≡ score_for b
  unfolding score_of
  score_for-same a b e = ap score_for e

  collect-list :
      (l : List CfgItem) (score : ℕ) (reply : Reply) (done : List CfgItem)
      → (collect score reply done (create_solvers answers 0 rdn l)).rblist
        ≡ done ++ counters answers rdn l
  unfolding collect create_solvers counters score_of
  collect-list [] score reply done = sym (append-nil done)
  collect-list (a ∷ l) score reply done =
      collect-list l _ _ (done ++ counted a (score_for a) ∷ []) ∙ append_assoc done _ _

  collect-IsSameList :
      {l l' : List CfgItem} (score : ℕ) (reply : Reply) (done done' : List CfgItem)
      → IsSameList l l'
      → let c = collect score reply done (create_solvers answers 0 rdn l) in
        let c' = collect score reply done' (create_solvers answers 0 rdn l') in
        (c.score ≡ c'.score) × (c.reply ≡ c'.reply)
  unfolding collect create_solvers
  collect-IsSameList score reply done done' none = (refl, refl)
  collect-IsSameList score reply done done' (both {a} {b} {l} {l'} e s) =
      let scores = score_for-same a b e in
      let names = ap (λ x. x.rbldomain) e in rw (scores, names) (collect-IsSameList _ _ _ _ s)

  pub answer_of-IsSameList :
      {l l' : List CfgItem}
      → IsSameList l l'
      → (i : ℕ) → answer_of answers rdn l i ≡ answer_of answers rdn l' i
  answer_of-IsSameList none i = refl
  answer_of-IsSameList (both {a} {b} e s) zero = score_for-same a b e
  answer_of-IsSameList (both e s) (suc i) = answer_of-IsSameList s i

  pub entry-counters :
      (l : List CfgItem) (i : ℕ)
      → i < length l
      → entry (counters answers rdn l) i ≡ counted (entry l i) (answer_of answers rdn l i)
  unfolding counters score_of
  entry-counters [] i h = absurd (omega (arith, h))
  entry-counters (a ∷ l) zero h = refl
  entry-counters (a ∷ l) (suc i) h = entry-counters l i (omega (arith, h))

  pub counters-IsSameList :
      {l l' : List CfgItem} → IsSameList l l' → IsSameList l (counters answers rdn l')
  unfolding counters counted
  counters-IsSameList none = none
  counters-IsSameList (both e s) = both e (counters-IsSameList s)

module _ (env : Env) (l : List CfgItem) (o : Octets) where
  -- A worker that runs alone leaves the list with its questions and positive answers counted.
  pub list_left-judge : list_left (judge env l o) ≡ counters env.answers (reverse_name o) l
  unfolding judge judged
  list_left-judge = collect-list env.answers (reverse_name o) l 0 no_reply []

  -- What it writes does not depend on the counters.
  pub written-judge :
      {l' : List CfgItem} → IsSameList l l' → written (judge env l o) ≡ written (judge env l' o)
  unfolding judge judged
  written-judge s =
      let (scores, replies) = collect-IsSameList env.answers (reverse_name o) 0 no_reply [] [] s in
      rw (scores, replies) refl
