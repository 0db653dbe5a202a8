-- ===== src/Serial/Asking.antt =====
-- server.c: how far the loop of `process_request` comes.
use rblpolicyd.Prelude.{
  true, ℕ, ◌+◌, ◌<◌, ◌≡◌, refl, sym, ap, ◌∙◌, Option, none, some, List, [], ◌∷◌, ◌++◌, append_assoc,
  append-nil, Bytes, codes, Bool-cases, inl, inr, ltb, leb, arith,
}
use rblpolicyd.CfgFile.{CfgItem}
use rblpolicyd.Solver.{Hostent}
use rblpolicyd.Worker.Score.{
  lists, listing, total, domains, enumerated, domains-extend, domains-nil, listing_hit,
  listing_miss,
}
use rblpolicyd.Worker.{Env}
use rblpolicyd.Worker.Ready.{names_fit, HasMemory, extends-HasMemory}
use rblpolicyd.Serial.{Scored, ask, ask_all, asks_safely}

-- How far the loop came: through `asked`, and through all of the list unless the score reached 100.
pub record Stopped (answers : Bytes → Option Hostent) (rdn : Bytes) (s : Scored)
    (rblist : List CfgItem) (r : Scored) : Type 0 where
  pub asked : List CfgItem
  pub rest : List CfgItem
  pub splits : rblist ≡ asked ++ rest
  pub score_is : r.score ≡ s.score + total (listing answers rdn asked)
  pub text_is : r.reply.text ≡ domains s.reply.text (listing answers rdn asked)
  pub complete : r.score < 100 → rest ≡ []

module _ (answers : Bytes → Option Hostent) (rdn : Bytes) where
  -- One blacklist changes score and text as the list of those that have an entry says.
  ask-cons :
      (rbl : CfgItem) (s : Scored) (l : List CfgItem)
      → ((ask answers rdn rbl s).score + total (listing answers rdn l)
          ≡ s.score + total (listing answers rdn (rbl ∷ l)))
        × (domains (ask answers rdn rbl s).reply.text (listing answers rdn l)
            ≡ domains s.reply.text (listing answers rdn (rbl ∷ l)))
  unfolding ask
  ask-cons rbl s l = elim (Bool-cases (lists answers rdn rbl)) [
    | inl hit ↦
        rw (hit, listing_hit answers rdn rbl l hit)
          (unfold total in omega arith, domains-extend s.reply rbl (listing answers rdn l))
    | inr miss ↦ rw (miss, listing_miss answers rdn rbl l miss) (refl, refl)
  ]

  pub ask_all-Stopped :
      (rblist : List CfgItem) (s : Scored)
      → Stopped answers rdn s rblist (ask_all answers rdn s rblist)
  unfolding ask_all
  ask_all-Stopped [] s = record {
    asked = [];
    rest = [];
    splits = refl;
    score_is = unfold listing total in omega arith;
    text_is = unfold listing in sym (domains-nil s.reply.text);
    complete = λ _. refl;
  }
  ask_all-Stopped (rbl ∷ rblist) s =
      let s' = ask answers rdn rbl s in
      let ih = ask_all-Stopped rblist s' in
      elim (Bool-cases (ltb s.score 100)) [
        | inr over ↦ rw over (record {
          asked = [];
          rest = rbl ∷ rblist;
          splits = refl;
          score_is = nothing s.score;
          text_is = no_text s.reply.text;
          complete = λ h. absurd (ground arith);
        })
        | inl low ↦ elim (Bool-cases (leb 100 s'.score)) [
          | inl enough ↦
              let (sum, text) = ask-cons rbl s [] in
              rw (low, enough)
                (record {
                  asked = rbl ∷ [];
                  rest = rblist;
                  splits = refl;
                  score_is = nothing s'.score ∙ sum;
                  text_is = no_text s'.reply.text ∙ text;
                  complete = λ h. absurd (ground arith);
                })
          | inr not_yet ↦
              let (sum, text) = ask-cons rbl s ih.asked in
              rw (low, not_yet)
                (record {
                  asked = rbl ∷ ih.asked;
                  rest = ih.rest;
                  splits = ap (◌∷◌ rbl) ih.splits;
                  score_is = ih.score_is ∙ sum;
                  text_is = ih.text_is ∙ text;
                  complete = ih.complete;
                })
        ]
      ]
    where
      nothing : (n : ℕ) → n ≡ n + total (listing answers rdn [])
      nothing n = unfold listing total in omega arith

      no_text : (t : Option Bytes) → t ≡ domains t (listing answers rdn [])
      no_text t = unfold listing in sym (domains-nil t)

  pub listing-append :
      (l l' : List CfgItem)
      → listing answers rdn (l ++ l') ≡ listing answers rdn l ++ listing answers rdn l'
  unfolding listing
  listing-append [] l' = refl
  listing-append (rbl ∷ l) l' = ground (arith, listing-append l l')

pub total-append : (l l' : List CfgItem) → total (l ++ l') ≡ total l + total l'
unfolding total
total-append [] l' = omega arith
total-append (rbl ∷ l) l' = omega (arith, total-append l l')

enumerated-more : (s : Bytes) (l : List CfgItem) → (more : Bytes) × (enumerated s l ≡ s ++ more)
unfolding enumerated
enumerated-more s [] = ([], sym (append-nil s))
enumerated-more s (rbl ∷ l) =
    let (more, e) = enumerated-more ((s ++ codes ", ") ++ rbl.rbldomain) l in
    (codes ", " ++ (rbl.rbldomain ++ more), e ∙ rw append_assoc (rw append_assoc))

enumerated-append :
    (s : Bytes) (l l' : List CfgItem) → enumerated s (l ++ l') ≡ enumerated (enumerated s l) l'
unfolding enumerated
enumerated-append s [] l' = refl
enumerated-append s (rbl ∷ l) l' = enumerated-append ((s ++ codes ", ") ++ rbl.rbldomain) l l'

-- The text for more blacklists goes on behind the text for the first of them.
pub domains-append :
    (l l' : List CfgItem) {s : Bytes}
    → domains none l ≡ some s
    → (more : Bytes) × (domains none (l ++ l') ≡ some (s ++ more))
unfolding domains
domains-append [] l' e = cc
domains-append (rbl ∷ l) l' {s} e =
    let (more, longer) = enumerated-more (enumerated rbl.rbldomain l) l' in
    let same : enumerated rbl.rbldomain l ≡ s = cc in
    (more, ap some (enumerated-append rbl.rbldomain l l' ∙ longer ∙ ap (λ t. t ++ more) same))

-- With memory, and where all names are within the buffer, those that are asked for are.
pub asks_safely-names_fit :
    (env : Env) (rdn : Bytes) (s : Scored) (rblist : List CfgItem)
    → HasMemory env
    → names_fit rdn rblist ≡ true
    → asks_safely env rdn s rblist ≡ true
unfolding asks_safely
asks_safely-names_fit env rdn s [] memory fit = refl
asks_safely-names_fit env rdn s (rbl ∷ rblist) memory fit = ground (
  arith,
  fit,
  extends-HasMemory env s.reply rbl.rbldomain memory,
  asks_safely-names_fit env rdn (ask env.answers rdn rbl s) rblist memory,
)
