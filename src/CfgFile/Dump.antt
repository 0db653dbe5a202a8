-- ===== src/CfgFile/Dump.antt =====
-- cfgfile.c: `cfg_dump`, which prints a list, and what `cfg_read` makes of the lines in its middle.
use rblpolicyd.Prelude.{
  ℕ, zero, suc, ◌-◌, ◌≤◌, ◌<◌, ◌≡◌, ◌≢◌, refl, ap, ◌∙◌, Bool, true, some, none, List, [], ◌∷◌, ◌++◌,
  map, Bytes, codes, length, length-append, All, All-append, append-nil, append_assoc, arith,
}
use rblpolicyd.CString.{is_space, print}
use rblpolicyd.CString.Decimal.{length-print}
use rblpolicyd.CfgFile.{CfgItem, new_item, cfg_read, loaded, maxline, shrt_max}
use rblpolicyd.CfgFile.Format.{
  IsBlank, IsDomainByte, ConfLine, entry, show_line, show_file, items_of, IsConfLine,
}
use rblpolicyd.CfgFile.RoundTrip.{cfg_read-show_file}

abbrev spaces : ℕ → Bytes
spaces zero = []
spaces (suc n) = b' ' ∷ spaces n

-- `%-40s %3hd\n`
unfoldable pub dump_item : CfgItem → Bytes
dump_item it =
    (it.rbldomain ++ spaces (40 - length it.rbldomain))
    ++ b' ' ∷ (spaces (3 - length (print it.weight)) ++ print it.weight)
    ++ b'\n' ∷ []

-- `while (item)`
unfoldable pub dump_items : List CfgItem → Bytes
dump_items [] = []
dump_items (it ∷ items) = dump_item it ++ dump_items items

-- what is printed
unfoldable pub cfg_dump : List CfgItem → Bytes
cfg_dump items = codes "<rblservers>\n" ++ (dump_items items ++ codes "</rblservers>\n")

-- An item that fits on a line of the file.
abbrev FitsLine : CfgItem → Type 0
FitsLine it =
    (it.rbldomain ≢ [])
    × All IsDomainByte it.rbldomain
    × (length it.rbldomain ≤ 1015)
    × (0 < it.weight)
    × (it.weight ≤ shrt_max)

abbrev gap_of : CfgItem → Bytes
gap_of it = spaces (40 - length it.rbldomain) ++ b' ' ∷ spaces (3 - length (print it.weight))

abbrev line_of : CfgItem → ConfLine
line_of it = entry [] it.rbldomain (gap_of it) it.weight [] none

All-spaces : (n : ℕ) → All IsBlank (spaces n)
unfolding is_space
All-spaces zero = tt
All-spaces (suc n) = (ground arith, All-spaces n)

length-spaces : (n : ℕ) → length (spaces n) ≡ n
length-spaces zero = refl
length-spaces (suc n) = omega (arith, length-spaces n)

dump_item-show_line : (it : CfgItem) → dump_item it ≡ show_line (line_of it) ++ b'\n' ∷ []
unfolding dump_item
dump_item-show_line it = simp (append_assoc, append-nil)

gap_of-IsBlank : (it : CfgItem) → All IsBlank (gap_of it)
unfolding is_space
gap_of-IsBlank it =
    All-append IsBlank (spaces (40 - length it.rbldomain)) _ (All-spaces (40 - length it.rbldomain))
      (ground arith, All-spaces (3 - length (print it.weight)))

length-line_of : (it : CfgItem) → FitsLine it → length (show_line (line_of it)) ≤ maxline - 3
length-line_of it (ne, bytes, short, positive, fits) = omega (
  arith,
  short,
  length-print it.weight 4 (omega (arith, fits)),
  length-spaces (40 - length it.rbldomain),
  length-spaces (3 - length (print it.weight)),
  length-append (spaces (40 - length it.rbldomain)) (b' ' ∷ spaces (3 - length (print it.weight))),
  length-append (gap_of it) (print it.weight ++ []),
  length-append (print it.weight) [],
  length-append it.rbldomain (gap_of it ++ (print it.weight ++ [])),
)

line_of-IsConfLine : (it : CfgItem) → FitsLine it → IsConfLine (line_of it)
line_of-IsConfLine it h =
    let (ne, bytes, short, positive, fits) = h in
    (
      tt,
      ne,
      bytes,
      gap_ne (spaces (40 - length it.rbldomain)) _,
      gap_of-IsBlank it,
      positive,
      fits,
      tt,
      tt,
      length-line_of it h,
    )
  where
    gap_ne : (s t : Bytes) → s ++ b' ' ∷ t ≢ []
    gap_ne [] t e = cc
    gap_ne (c ∷ s) t e = cc

All-line_of : (items : List CfgItem) → All FitsLine items → All IsConfLine (map line_of items)
All-line_of [] h = tt
All-line_of (it ∷ items) (h, hs) = (line_of-IsConfLine it h, All-line_of items hs)

dump_items-show_file : (items : List CfgItem) → dump_items items ≡ show_file (map line_of items)
unfolding dump_items
dump_items-show_file [] = refl
dump_items-show_file (it ∷ items) =
    rw (dump_item-show_line it, dump_items-show_file items)
      (append_assoc (show_line (line_of it)) (b'\n' ∷ []) (show_file (map line_of items)))

-- an item as `cfg_read` makes it
abbrev pub fresh : CfgItem → CfgItem
fresh it = new_item it.rbldomain it.weight

items_of-line_of : (items : List CfgItem) → items_of (map line_of items) ≡ map fresh items
items_of-line_of [] = refl
items_of-line_of (it ∷ items) = ap (◌∷◌ (fresh it)) (items_of-line_of items)

-- What `cfg_dump` prints between its first and its last line is a configuration file: `cfg_read` reads
-- the list back from it, with the counters at 0. The domains are without white space, `#` and NUL and
-- at most 1015 bytes long, the weights from 1 to 32767, and memory is never short.
cfg_read-dump_items :
    (calloc : ℕ → Bool) (items : List CfgItem)
    → ((n : ℕ) → calloc n ≡ true)
    → All FitsLine items
    → cfg_read calloc (some (dump_items items)) ≡ loaded (map fresh items)
cfg_read-dump_items calloc items memory h =
    ap (λ s. cfg_read calloc (some s)) (dump_items-show_file items)
    ∙ cfg_read-show_file calloc (map line_of items) memory (All-line_of items h)
    ∙ ap loaded (items_of-line_of items)
