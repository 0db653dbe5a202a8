-- ===== src/Serial/Agrees.antt =====
-- The two ways to process a request come to the same verdict.
use rblpolicyd.Prelude.{◌^◌, ◌<◌, ◌≡◌, List, [], ◌∷◌, ◌++◌, Bytes, codes, All}
use rblpolicyd.Address.{Octets, reverse_name}
use rblpolicyd.CfgFile.{CfgItem}
use rblpolicyd.Request
use rblpolicyd.Worker
use rblpolicyd.Worker.Score.{updated, total, HasWeight}
use rblpolicyd.Worker.{Env, Reply, extend, verdict, dunno, Outcome, replied, crashed}

-- The first outcome is the worker's, and the second that of `process_request`.
pub data Agree (rblist after : List CfgItem) (w p : Outcome) : Type 0 where
  both_crash : w ≡ crashed → p ≡ crashed → Agree rblist after w p
  both_pass : w ≡ replied dunno after → p ≡ replied dunno rblist → Agree rblist after w p
  both_reject :
      (s more : Bytes)
      → w ≡ replied (codes "action=REJECT Blocked through " ∷ (s ++ more) ∷ codes "\n\n" ∷ []) after
      → p ≡ replied (codes "action=REJECT Blocked through " ∷ s ∷ codes "\n\n" ∷ []) rblist
      → Agree rblist after w p

module _ (env : Env) (rblist : List CfgItem) (weights : All HasWeight rblist)
    (light : total rblist < 2 ^ 31) (o : Octets) where
  abbrev rdn : Bytes
  rdn = reverse_name o

  abbrev after : List CfgItem
  after = updated env.answers rdn rblist
