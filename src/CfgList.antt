-- ===== src/CfgList.antt =====
-- cfgfile.c: the list of blacklists as blocks on a heap, and `cfg_free`.
pub mod Freed
use rblpolicyd.Prelude.{ℕ, zero, suc, Bool, true, false, Option, none, some, ◌==◌, if◌then◌else◌}

-- an item, with the pointers to its domain and to the next item, or the text of a domain
pub data Block : Type 0 where
  item : ℕ → ℕ → Block
  text : Block

abbrev pub Blocks : Type 0
Blocks = ℕ → Option Block

-- `invalid` is an access to, or a `free` of, what is no allocated block.
pub data Freeing : Type 0 where
  freed : Blocks → Freeing
  invalid : Freeing
  out_of_fuel : Freeing

unfoldable pub emptied : Blocks → ℕ → Blocks
emptied h p a = if a == p then none else h a

unfoldable pub free : Blocks → ℕ → Option Blocks
free h p = elim (h p) [ none ↦ none | some b ↦ some (emptied h p) ]

-- the body of the loop: the domain, if there is one, and the item
unfoldable pub free_item : Blocks → ℕ → ℕ → Option Blocks
free_item h p rbldomain =
    if rbldomain == 0
    then free h p
    else elim (free h rbldomain) [ none ↦ none | some h' ↦ free h' p ]

-- `for (item = *list; item; item = next)`
unfoldable pub cfg_free : ℕ → Blocks → ℕ → Freeing
cfg_free zero h p = out_of_fuel
cfg_free (suc fuel) h p = if p == 0 then freed h else elim (h p) [
  | none ↦ invalid
  | some text ↦ invalid
  | some (item rbldomain next) ↦ elim (free_item h p rbldomain) [
    | none ↦ invalid
    | some h' ↦ cfg_free fuel h' next
  ]
]
