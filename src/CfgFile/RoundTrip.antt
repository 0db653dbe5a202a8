-- ===== src/CfgFile/RoundTrip.antt =====
-- Files written as the documentation describes are read back: comments, blank lines, and lines with
-- a domain and its weight, with any white space around them.
use rblpolicyd.CfgFile.Format.{ConfLine, note, entry, show_line, show_file, items_of, IsConfLine}
use rblpolicyd.CfgFile.Entries.{result_of, cfg_line-result, c_string-show_line, fgets-show_line}
use rblpolicyd.Prelude.{
  ℕ, zero, suc, ◌+◌, ◌-◌, ◌<◌, ◌≡◌, refl, ap, ◌∙◌, ◌≢◌, Bool, true, List, [], ◌∷◌, some, ◌++◌,
  append-nil, append_assoc, Bytes, length, length-append, All, arith,
}
use rblpolicyd.CString.{c_string}
use rblpolicyd.CfgFile.{
  CfgItem, new_item, maxline, skip, item, cfg_line, fgets, cfg_loop, loaded, cfg_read,
}

module _ (calloc : ℕ → Bool) (memory : (n : ℕ) → calloc n ≡ true) where
  -- One round of the loop, on a line that holds no error.
  cfg_loop-skip :
      (fuel n : ℕ) (first : List CfgItem) (s buf rest : Bytes)
      → s ≢ []
      → fgets (maxline - 2) s ≡ (buf, rest)
      → cfg_line true (n + 1) (c_string buf) ≡ skip
      → cfg_loop calloc (suc fuel) n first s ≡ cfg_loop calloc fuel (n + 1) first rest
  unfolding cfg_loop
  cfg_loop-skip fuel n first [] buf rest ne e l = absurd (ne refl)
  cfg_loop-skip fuel n first (c ∷ cs) buf rest ne e l =
      rw (e, memory (n + 1), l, cfg_loop) (ap (λ r. cfg_loop calloc fuel (n + 1) first r.1) e)

  cfg_loop-item :
      (fuel n : ℕ) (first : List CfgItem) (s buf rest : Bytes) (it : CfgItem)
      → s ≢ []
      → fgets (maxline - 2) s ≡ (buf, rest)
      → cfg_line true (n + 1) (c_string buf) ≡ item it
      → cfg_loop calloc (suc fuel) n first s ≡ cfg_loop calloc fuel (n + 1) (first ++ it ∷ []) rest
  unfolding cfg_loop
  cfg_loop-item fuel n first [] buf rest it ne e l = absurd (ne refl)
  cfg_loop-item fuel n first (c ∷ cs) buf rest it ne e l =
      rw (e, memory (n + 1), l, cfg_loop)
        (ap (λ r. cfg_loop calloc fuel (n + 1) (first ++ it ∷ []) r.1) e)

  line-ne-nil : (s rest : Bytes) → (s ++ (b'\n' ∷ rest)) ≢ []
  line-ne-nil [] rest = cc
  line-ne-nil (c ∷ s) rest = cc

  cfg_loop-show_file :
      (ls : List ConfLine) (fuel n : ℕ) (first : List CfgItem)
      → All IsConfLine ls
      → length (show_file ls) < fuel
      → cfg_loop calloc fuel n first (show_file ls) ≡ loaded (first ++ items_of ls)
  unfolding result_of
  cfg_loop-show_file ls zero n first h f = elim f [ ]
  cfg_loop-show_file [] (suc fuel) n first h f = unfold cfg_loop in rw append-nil
  cfg_loop-show_file (note i r ∷ ls) (suc fuel) n first (h, hs) f =
      let l = note i r in
      cfg_loop-skip fuel n first _ _ _ (line-ne-nil (show_line l) (show_file ls))
        (fgets-show_line l (show_file ls) h)
        (rw (c_string-show_line l h) (cfg_line-result (n + 1) l h))
      ∙ cfg_loop-show_file ls fuel (n + 1) first hs
          (omega (arith, length-append (show_line l) (b'\n' ∷ show_file ls)))
  cfg_loop-show_file (entry i d g w t r ∷ ls) (suc fuel) n first (h, hs) f =
      let l = entry i d g w t r in
      cfg_loop-item fuel n first _ _ _ (new_item d w) (line-ne-nil (show_line l) (show_file ls))
        (fgets-show_line l (show_file ls) h)
        (rw (c_string-show_line l h) (cfg_line-result (n + 1) l h))
      ∙ cfg_loop-show_file ls fuel (n + 1) (first ++ new_item d w ∷ []) hs
          (omega (arith, length-append (show_line l) (b'\n' ∷ show_file ls)))
      ∙ rw append_assoc

-- A file in the documented format is read: `cfg_read` returns one item for each line with an entry,
-- in the order of the file, with that domain and weight and with its counters at 0. The lines are at
-- most 1021 bytes long, each is blank, or a comment, or a domain and a weight from 1 to 32767 with
-- any white space around them and a comment behind them or none; memory is never short.
pub cfg_read-show_file :
    (calloc : ℕ → Bool) (ls : List ConfLine)
    → ((n : ℕ) → calloc n ≡ true)
    → All IsConfLine ls
    → cfg_read calloc (some (show_file ls)) ≡ loaded (items_of ls)
unfolding cfg_read
cfg_read-show_file calloc ls memory h =
    cfg_loop-show_file calloc memory ls (length (show_file ls) + 1) 0 [] h (omega arith)
