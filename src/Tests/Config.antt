-- ===== src/Tests/Config.antt =====
-- The configuration file at concrete texts.
use rblpolicyd.CfgList.Freed.{Owned, nil, cons, takes, cfg_free-Owned}
use rblpolicyd.CfgList.{Block, text, Blocks, freed, cfg_free}
use rblpolicyd.Prelude.{
  ℕ, ◌==◌, if◌then◌else◌, none, false, ◌≡◌, refl, true, some, List, [], ◌∷◌, Bytes, codes, All,
  arith,
}
use rblpolicyd.CString.{c_string, drop_space, is_space, print, print_loop}
use rblpolicyd.CString.Strtol.{
  strtol, strtol_sign, convert, signed, scan_unsigned, scan_digits, digit_value,
}
use rblpolicyd.CfgFile.Format.{ConfLine, note, entry, IsConfLine, show_file}
use rblpolicyd.CfgFile.RoundTrip.{cfg_read-show_file}
use rblpolicyd.CfgFile.Valid.{IsItem, cfg_read-IsItem}
use rblpolicyd.CfgFile.{
  CfgItem, new_item, cfg_read, cfg_loop, cfg_line, cfg_text, cfg_fields, check_weight,
  cfg_cleanline, before_hash, scan_word, fgets, loaded, failed, not_numeric, outside_range,
  premature_end,
}

abbrev file : Bytes
file = codes "# rbls\n\n bl.spamcop.net\t\t70 # x\nlist.dsbl.org  0x19"

abbrev items : List CfgItem
items = new_item (codes "bl.spamcop.net") 70 ∷ new_item (codes "list.dsbl.org") 25 ∷ []

cfg_read_runs : cfg_read (λ _. true) (some file) ≡ loaded items
unfolding cfg_read cfg_loop cfg_line cfg_text cfg_fields check_weight cfg_cleanline before_hash
    scan_word fgets c_string drop_space is_space strtol strtol_sign convert signed scan_unsigned
    scan_digits digit_value
cfg_read_runs = refl

-- One bad line refuses the whole file.
cfg_read_refuses :
    (cfg_read (λ _. true) (some (codes "a 1\nb 0\n")) ≡ failed (outside_range 2))
    × (cfg_read (λ _. true) (some (codes "a 1\nb 1k\n")) ≡ failed (not_numeric 2))
    × (cfg_read (λ _. true) (some (codes "a 1\n\nb\n")) ≡ failed (premature_end 3))
    × (cfg_read (λ _. true) (some (codes "a 40000\n")) ≡ failed (outside_range 1))
unfolding cfg_read cfg_loop cfg_line cfg_text cfg_fields check_weight cfg_cleanline before_hash
    scan_word fgets c_string drop_space is_space strtol strtol_sign convert signed scan_unsigned
    scan_digits digit_value
cfg_read_refuses = (refl, refl, refl, refl)

cfg_read-IsItem_example : All IsItem items
cfg_read-IsItem_example = cfg_read-IsItem (λ _. true) (some file) cfg_read_runs

abbrev written : List ConfLine
written =
    note [] (some (codes " rbls"))
    ∷ entry [] (codes "bl.org") (codes "\t\t") 70 (codes " ") (some (codes "x"))
    ∷ []

written-IsConfLine : All IsConfLine written
unfolding is_space print print_loop
written-IsConfLine = ground arith

cfg_read-show_file_example :
    cfg_read (λ _. true) (some (show_file written)) ≡ loaded (new_item (codes "bl.org") 70 ∷ [])
cfg_read-show_file_example = cfg_read-show_file (λ _. true) written (λ _. refl) written-IsConfLine

-- two items at 10 and 30, with their domains at 20 and 40
abbrev blocks : Blocks
blocks a =
    if a == 10
    then some (Block.item 20 30)
    else if a == 20
    then some text
    else if a == 30
    then some (Block.item 40 0)
    else if a == 40
    then some text
    else none

cfg_free-Owned_example :
    (g : Blocks) × (cfg_free 3 blocks 10 ≡ freed g)
    × ((a : ℕ) → takes a ((10, 20) ∷ (30, 40) ∷ []) ≡ true → g a ≡ none)
    × ((a : ℕ) → takes a ((10, 20) ∷ (30, 40) ∷ []) ≡ false → g a ≡ blocks a)
cfg_free-Owned_example = cfg_free-Owned 3 owned (omega arith)
  where
    owned : Owned blocks 10 ((10, 20) ∷ (30, 40) ∷ [])
    owned =
        cons (omega arith) (omega arith) (omega arith) refl refl refl refl
          (cons (omega arith) (omega arith) (omega arith) refl refl refl refl (nil refl))
