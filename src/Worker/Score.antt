-- ===== src/Worker/Score.antt =====
-- The score, the text of the reply and the counters, against their description by lists.
use rblpolicyd.Prelude.{
  ℕ, ◌+◌, ◌%◌, ◌^◌, ◌≤◌, ◌<◌, ◌≡◌, refl, sym, ap, ◌∙◌, Bool, true, false, Option, none, some, List,
  [], ◌∷◌, ◌++◌, append_assoc, append-nil, Bytes, codes, length, length-append, All, Bool-cases,
  inl, inr, ◌==◌, if◌then◌else◌, arith,
}
use rblpolicyd.Address.{query_name}
use rblpolicyd.CfgFile.{CfgItem}
use rblpolicyd.Solver.{Hostent, found_in, score_of}
use rblpolicyd.Worker.{
  Reply, extend, extend_text, counted, ResData, create_solvers, Collected, u32_mod, int_sum,
  collect,
}

module _ (answers : Bytes → Option Hostent) (rdn : Bytes) where
  -- the blacklist has an entry for the client
  abbrev pub lists : CfgItem → Bool
  lists rbl = found_in (answers (query_name rdn rbl.rbldomain))

  -- the blacklists that have one, in the order of the configuration
  unfoldable pub listing : List CfgItem → List CfgItem
  listing [] = []
  listing (rbl ∷ rblist) = if lists rbl then rbl ∷ listing rblist else listing rblist

  unfoldable pub counters : List CfgItem → List CfgItem
  counters [] = []
  counters (rbl ∷ rblist) = counted rbl (if lists rbl then rbl.weight else 0) ∷ counters rblist

  -- An entry behind a query: one question more, and one positive answer more where it has an entry for
  -- the client. The counters wrap round.
  abbrev pub updated_one : CfgItem → CfgItem
  updated_one rbl = record rbl {
    questions = (rbl.questions + 1) % 2 ^ 32;
    positive = if lists rbl then (rbl.positive + 1) % 2 ^ 32 else rbl.positive;
  }

  unfoldable pub updated : List CfgItem → List CfgItem
  updated [] = []
  updated (rbl ∷ rblist) = updated_one rbl ∷ updated rblist

unfoldable pub total : List CfgItem → ℕ
total [] = 0
total (rbl ∷ rblist) = rbl.weight + total rblist

pub total-listing_le :
    (answers : Bytes → Option Hostent) (rdn : Bytes) (l : List CfgItem)
    → total (listing answers rdn l) ≤ total l
unfolding total listing
total-listing_le answers rdn [] = omega arith
total-listing_le answers rdn (rbl ∷ l) = ground (arith, total-listing_le answers rdn l)

-- the domains, with ", " in front of each but the first
unfoldable pub enumerated : Bytes → List CfgItem → Bytes
enumerated first [] = first
enumerated first (rbl ∷ rblist) = enumerated ((first ++ codes ", ") ++ rbl.rbldomain) rblist

unfoldable pub domains : Option Bytes → List CfgItem → Option Bytes
domains (some s) l = some (enumerated s l)
domains none [] = none
domains none (rbl ∷ l) = some (enumerated rbl.rbldomain l)

-- The buffer of a reply is as long as its text with the NUL, or there is none.
pub data IsReply : Reply → Type 0 where
  empty : (r : Reply) → r.text ≡ none → r.replen ≡ 0 → IsReply r
  filled : (r : Reply) (s : Bytes) → r.text ≡ some s → r.replen ≡ length s + 1 → IsReply r

extend-IsReply : (r : Reply) (d : Bytes) → IsReply r → IsReply (extend r d)
unfolding extend extend_text
extend-IsReply r d (empty _ t n) = filled _ d (rw t) (rw t (omega arith))
extend-IsReply r d (filled _ s t n) =
    filled _ ((s ++ codes ", ") ++ d) (rw t)
      (rw t (omega (arith, length-append (s ++ codes ", ") d, length-append s (codes ", "))))

abbrev pub HasWeight : CfgItem → Type 0
HasWeight rbl = 0 < rbl.weight

-- What the loop has made of the blacklists `rblist`, from some state on.
pub record Summary (answers : Bytes → Option Hostent) (rdn : Bytes) (score : ℕ)
    (text : Option Bytes) (done rblist : List CfgItem) (c : Collected) : Type 0 where
  pub score_is : c.score ≡ (score + total (listing answers rdn rblist)) % 2 ^ 32
  pub text_is : c.reply.text ≡ domains text (listing answers rdn rblist)
  pub rblist_is : c.rblist ≡ done ++ updated answers rdn rblist
  pub buffer_is : IsReply c.reply

pub domains-extend :
    (r : Reply) (rbl : CfgItem) (l : List CfgItem)
    → domains (extend r rbl.rbldomain).text l ≡ domains r.text (rbl ∷ l)
unfolding extend
domains-extend r rbl l = by_text r.text
  where
    by_text :
        (t : Option Bytes)
        → domains (extend_text t r.replen rbl.rbldomain).text l ≡ domains t (rbl ∷ l)
    by_text none = unfold domains extend_text in refl
    by_text (some s) = unfold domains extend_text enumerated in refl

pub domains-nil : (t : Option Bytes) → domains t [] ≡ t
unfolding domains enumerated
domains-nil none = refl
domains-nil (some s) = refl

module _ (answers : Bytes → Option Hostent) (rdn : Bytes) (rbl : CfgItem)
    (rblist : List CfgItem) where
  abbrev others : List ResData
  others = create_solvers answers 0 rdn rblist

  -- One round, for a blacklist that has an entry and for one that has none.
  collect_hit :
      (score : ℕ) (reply : Reply) (done : List CfgItem)
      → 0 < rbl.weight
      → lists answers rdn rbl ≡ true
      → collect score reply done (create_solvers answers 0 rdn (rbl ∷ rblist))
        ≡ collect
            (int_sum score rbl.weight)
            (extend reply rbl.rbldomain)
            (done ++ counted rbl rbl.weight ∷ [])
            others
  unfolding collect create_solvers score_of
  collect_hit score reply done h hit =
      let positive : (rbl.weight == 0) ≡ false = ground arith in rw (hit, positive)

  collect_miss :
      (score : ℕ) (reply : Reply) (done : List CfgItem)
      → score < 2 ^ 32
      → lists answers rdn rbl ≡ false
      → collect score reply done (create_solvers answers 0 rdn (rbl ∷ rblist))
        ≡ collect score reply (done ++ counted rbl 0 ∷ []) others
  unfolding collect create_solvers score_of int_sum
  collect_miss score reply done small miss =
      let same : (score + 0) % u32_mod ≡ score = omega (arith, small) in rw (miss, same)

  pub listing_hit :
      lists answers rdn rbl ≡ true
      → listing answers rdn (rbl ∷ rblist) ≡ rbl ∷ listing answers rdn rblist
  unfolding listing
  listing_hit h = rw h

  pub listing_miss :
      lists answers rdn rbl ≡ false
      → listing answers rdn (rbl ∷ rblist) ≡ listing answers rdn rblist
  unfolding listing
  listing_miss h = rw h

  counted-updated :
      0 < rbl.weight
      → counted rbl (if lists answers rdn rbl then rbl.weight else 0) ≡ updated_one answers rdn rbl
  unfolding counted
  counted-updated h = elim (Bool-cases (lists answers rdn rbl)) [
    | inl hit ↦
        let some_weight : (rbl.weight == 0) ≡ false = ground arith in rw (hit, some_weight) refl
    | inr miss ↦ rw miss refl
  ]

  updated-cons :
      (done : List CfgItem)
      → 0 < rbl.weight
      → (done ++ counted rbl (if lists answers rdn rbl then rbl.weight else 0) ∷ [])
          ++ updated answers rdn rblist
        ≡ done ++ updated answers rdn (rbl ∷ rblist)
  unfolding updated
  updated-cons done h = rw (counted-updated h) (append_assoc done _ _)

module _ (answers : Bytes → Option Hostent) (rdn : Bytes) where
  pub collect-Summary :
      (rblist : List CfgItem) (score : ℕ) (reply : Reply) (done : List CfgItem)
      → score < 2 ^ 32
      → All HasWeight rblist
      → IsReply reply
      → Summary answers rdn score reply.text done rblist
          (collect score reply done (create_solvers answers 0 rdn rblist))
  collect-Summary [] score reply done small h is =
      unfold collect create_solvers listing updated total in
      record {
        score_is = omega (arith, small);
        text_is = sym (domains-nil reply.text);
        rblist_is = sym (append-nil done);
        buffer_is = is;
      }
  collect-Summary (rbl ∷ rblist) score reply done small (h, hs) is =
      elim (Bool-cases (lists answers rdn rbl)) [
        | inl hit ↦
            let ih =
              collect-Summary rblist (int_sum score rbl.weight) (extend reply rbl.rbldomain)
                (done ++ counted rbl rbl.weight ∷ []) (int_sum_lt score rbl.weight) hs
                (extend-IsReply reply rbl.rbldomain is) in
            rw (collect_hit answers rdn rbl rblist score reply done h hit) (record {
              score_is =
                  ih.score_is
                  ∙ sum_hit rbl (listing answers rdn rblist) score
                  ∙ ap (λ l. (score + total l) % 2 ^ 32)
                      (sym (listing_hit answers rdn rbl rblist hit));
              text_is =
                  ih.text_is
                  ∙ domains-extend reply rbl _
                  ∙ ap (domains reply.text) (sym (listing_hit answers rdn rbl rblist hit));
              rblist_is = ih.rblist_is ∙ (rw hit at (updated-cons answers rdn rbl rblist done h));
              buffer_is = ih.buffer_is;
            })
        | inr miss ↦
            let ih = collect-Summary rblist score reply (done ++ counted rbl 0 ∷ []) small hs is in
            rw (collect_miss answers rdn rbl rblist score reply done small miss) (record {
              score_is =
                  ih.score_is
                  ∙ ap (λ l. (score + total l) % 2 ^ 32)
                      (sym (listing_miss answers rdn rbl rblist miss));
              text_is =
                  ih.text_is
                  ∙ ap (domains reply.text) (sym (listing_miss answers rdn rbl rblist miss));
              rblist_is = ih.rblist_is ∙ (rw miss at (updated-cons answers rdn rbl rblist done h));
              buffer_is = ih.buffer_is;
            })
      ]
    where
      sum_hit :
          (it : CfgItem) (l : List CfgItem) (n : ℕ)
          → (int_sum n it.weight + total l) % 2 ^ 32 ≡ (n + total (it ∷ l)) % 2 ^ 32
      sum_hit it l n = unfold int_sum total in omega arith

      int_sum_lt : (n w : ℕ) → int_sum n w < 2 ^ 32
      int_sum_lt n w = unfold int_sum in omega arith
