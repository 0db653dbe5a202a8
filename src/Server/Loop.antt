-- ===== src/Server/Loop.antt =====
-- The lists of blacklists that the loop of `server` is started with.
use rblpolicyd.Prelude.{ℕ, ◌≡◌, ◌≢◌, refl, Bool, Option, List, [], All}
use rblpolicyd.CfgFile.{CfgItem, CfgResult, loaded, failed, cfg_read, cfg_pointer}
use rblpolicyd.CfgFile.Valid.{IsItem, cfg_read-IsItem}

-- a list that can be used: not empty, and of valid items
abbrev pub Good : List CfgItem → Type 0
Good rblist = (rblist ≢ []) × All IsItem rblist

cfg_pointer-All :
    (r : CfgResult)
    → ((items : List CfgItem) → r ≡ loaded items → All IsItem items)
    → All IsItem (cfg_pointer r)
unfolding cfg_pointer
cfg_pointer-All (loaded items) is = is items refl
cfg_pointer-All (failed e) is = tt

pub cfg_pointer-IsItem :
    (calloc : ℕ → Bool) (file : Option (List ℕ)) → All IsItem (cfg_pointer (cfg_read calloc file))
cfg_pointer-IsItem calloc file =
    cfg_pointer-All (cfg_read calloc file) (λ items e. cfg_read-IsItem calloc file e)
