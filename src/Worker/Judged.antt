-- ===== src/Worker/Judged.antt =====
-- What the worker writes for its scores, against the lists that have an entry.
use rblpolicyd.Prelude.{
  ℕ, ◌+◌, ◌%◌, ◌^◌, ◌≤◌, ◌<◌, ◌≡◌, refl, ◌∙◌, Option, none, some, List, [], ◌∷◌, Bytes, codes, All,
  arith,
}
use rblpolicyd.Address.{Octets, reverse_name}
use rblpolicyd.CfgFile.{CfgItem}
use rblpolicyd.Worker.Score.{
  listing, updated, total, domains, enumerated, HasWeight, empty, collect-Summary,
}
use rblpolicyd.Worker.{Env, Collected, no_reply, reject, verdict, Outcome, replied, judged, judge}

-- The reply for blacklists `l` that have an entry for the client: with weights of 100 or more in all
-- the mail is refused, and the reply names the blacklists; otherwise postfix is to decide.
pub record Answered (l after : List CfgItem) (out : Outcome) : Type 0 where
  pub over :
      100 ≤ total l
      → (s : Bytes) × (domains none l ≡ some s)
        × (out ≡ replied (codes "action=REJECT Blocked through " ∷ s ∷ codes "\n\n" ∷ []) after)
  pub under : total l < 100 → out ≡ replied (codes "action=DUNNO" ∷ codes "\n\n" ∷ []) after

pub domains-some : (l : List CfgItem) → 0 < total l → (s : Bytes) × (domains none l ≡ some s)
unfolding domains total
domains-some [] h = absurd (omega arith)
domains-some (rbl ∷ l) h = (enumerated rbl.rbldomain l, refl)

pub verdict-over :
    (n : ℕ) (s : Bytes)
    → 100 ≤ n
    → n < 2 ^ 31
    → verdict n (some s) ≡ codes "action=REJECT Blocked through " ∷ s ∷ codes "\n\n" ∷ []
unfolding verdict reject
verdict-over n s h fits = ground arith

pub verdict-under :
    (n : ℕ) (t : Option Bytes) → n < 100 → verdict n t ≡ codes "action=DUNNO" ∷ codes "\n\n" ∷ []
unfolding verdict
verdict-under n t h = ground arith

judged-over :
    (c : Collected) (n : ℕ) (s : Bytes) (after : List CfgItem)
    → c.score ≡ n
    → 100 ≤ n
    → n < 2 ^ 31
    → c.reply.text ≡ some s
    → c.rblist ≡ after
    → judged c ≡ replied (codes "action=REJECT Blocked through " ∷ s ∷ codes "\n\n" ∷ []) after
unfolding judged
judged-over c n s after e h fits t r = rw (e, t, r) (rw (verdict-over n s h fits))

judged-under :
    (c : Collected) (n : ℕ) (after : List CfgItem)
    → c.score ≡ n
    → n < 100
    → c.rblist ≡ after
    → judged c ≡ replied (codes "action=DUNNO" ∷ codes "\n\n" ∷ []) after
unfolding judged
judged-under c n after e h r = rw (e, r) (rw (verdict-under n c.reply.text h))

pub judge-Answered :
    (env : Env) (rblist : List CfgItem) (o : Octets)
    → All HasWeight rblist
    → total (listing env.answers (reverse_name o) rblist) < 2 ^ 31
    → Answered
        (listing env.answers (reverse_name o) rblist)
        (updated env.answers (reverse_name o) rblist)
        (judge env rblist o)
unfolding judge
judge-Answered env rblist o weights fits =
    let rdn = reverse_name o in
    let l = listing env.answers rdn rblist in
    let s =
      collect-Summary env.answers rdn rblist 0 no_reply [] (omega arith) weights
        (empty no_reply refl refl) in
    let zero_total : (0 + total l) % 2 ^ 32 ≡ total l = omega (arith, fits) in
    let score_is = s.score_is ∙ zero_total in
    record {
      over = λ h.
          let (text, e) = domains-some l (omega arith) in
          (text, e, judged-over _ (total l) text _ score_is h fits (s.text_is ∙ e) s.rblist_is);
      under = λ h. judged-under _ (total l) _ score_is h s.rblist_is;
    }
