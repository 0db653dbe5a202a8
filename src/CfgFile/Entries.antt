-- ===== src/CfgFile/Entries.antt =====
-- cfgfile.c: what the loop body of `cfg_read` makes of one line of a file in the documented format.
use rblpolicyd.CfgFile.Format.{
  IsBlank, IsRemarkByte, remark_text, ConfLine, note, entry, show_line, IsConfLine, All-mono,
  blank-space, blank-text, blank-hash, domain-space, domain-text, domain-hash, digit-space,
  digit-text, digit-hash, remark-text,
}
use rblpolicyd.Prelude.{
  ℕ, ◌-◌, ◌≤◌, ◌<◌, ◌≡◌, refl, ◌∙◌, ◌≢◌, true, [], ◌∷◌, Option, none, some, ◌++◌, append-nil,
  append_assoc, Bytes, length, All, All-append, arith,
}
use rblpolicyd.Prelude.Int.{pos}
use rblpolicyd.CString.{is_space, drop_space, c_string, print}
use rblpolicyd.CString.Decimal.{IsDigit, Leads, print-All, print-Leads, strtol-print}
use rblpolicyd.CString.Space.{
  AllSpace, NoSpace, drop_space-append, drop_space-NoSpace, trim, trim-append_space, trim_word,
  c_string_lem,
}
use rblpolicyd.CfgFile.Line.{
  NoHash, before_hash-append, scan_word-NoSpace, scan_word-AllSpace, fgets_line,
}
use rblpolicyd.CfgFile.{
  new_item, shrt_max, maxline, LineResult, skip, item, before_hash, cfg_cleanline, scan_word,
  check_weight, cfg_fields, cfg_text, cfg_line, fgets,
}

-- Behind the text `s` come white space and a comment, or none.
cfg_cleanline-trim :
    (s t : Bytes) (r : Option Bytes)
    → NoHash s
    → NoHash t
    → AllSpace t
    → cfg_cleanline (s ++ (t ++ (remark_text r ++ b'\n' ∷ []))) ≡ trim s
unfolding cfg_cleanline before_hash is_space
cfg_cleanline-trim s t none hs ht sp =
    rw (before_hash-append s _ hs, before_hash-append t _ ht)
      (trim-append_space s (t ++ b'\n' ∷ []) (All-append _ t (b'\n' ∷ []) sp (refl, tt)))
cfg_cleanline-trim s t (some r) hs ht sp =
    rw (before_hash-append s _ hs, before_hash-append t _ ht, append-nil t)
      (trim-append_space s t sp)

drop_space-Leads : (s : Bytes) → Leads s → drop_space s ≡ s
unfolding is_space
drop_space-Leads [] l = elim l [ ]
drop_space-Leads (c ∷ s) l = drop_space-NoSpace c s (ground arith)

trim-Leads : (s t : Bytes) → Leads t → All IsDigit t → trim (s ++ t) ≡ s ++ t
trim-Leads s [] l d = elim l [ ]
trim-Leads s (c ∷ t) l d = trim_word s c t (All-mono digit-space (c ∷ t) d)

cfg_text-ne_nil :
    (lineno : ℕ) (s : Bytes)
    → s ≢ []
    → cfg_text true lineno s ≡ cfg_fields true lineno (scan_word [] s)
unfolding cfg_text
cfg_text-ne_nil lineno [] ne = absurd (ne refl)
cfg_text-ne_nil lineno (c ∷ s) ne = refl

module _ (lineno : ℕ) (domain : Bytes) (weight : ℕ) (p : 0 < weight) (m : weight ≤ shrt_max) where
  check_weight-item : check_weight lineno domain (pos weight, []) ≡ item (new_item domain weight)
  unfolding check_weight
  check_weight-item = ground arith

  cfg_fields-item :
      (c : ℕ) (gap : Bytes)
      → AllSpace (c ∷ gap)
      → cfg_fields true lineno (domain, c ∷ (gap ++ print weight)) ≡ item (new_item domain weight)
  unfolding cfg_fields
  cfg_fields-item c gap sp =
      rw
        (
          drop_space-append (c ∷ gap) (print weight) sp,
          drop_space-Leads (print weight) (print-Leads weight p),
          strtol-print weight p (omega arith),
        )
        check_weight-item

  cfg_text-item :
      (indent gap : Bytes)
      → AllSpace indent
      → NoSpace domain
      → domain ≢ []
      → gap ≢ []
      → AllSpace gap
      → cfg_text true lineno (indent ++ (domain ++ (gap ++ print weight)))
        ≡ item (new_item domain weight)
  cfg_text-item indent [] si sd ne ge sg = absurd (ge refl)
  cfg_text-item indent (c ∷ gap) si sd ne ge sg =
      cfg_text-ne_nil lineno _ (ne-nil indent domain ne)
      ∙ rw (scan_word-AllSpace indent (domain ++ (c ∷ (gap ++ print weight))) si) (
          rw (scan_word-NoSpace [] domain c (gap ++ print weight) sd sg.0 ne)
            (cfg_fields-item c gap sg))
    where
      ne-nil : (i d : Bytes) → d ≢ [] → (i ++ (d ++ (c ∷ (gap ++ print weight)))) ≢ []
      ne-nil (x ∷ i) d h = cc
      ne-nil [] (x ∷ d) h = cc
      ne-nil [] [] h = cc

-- An entry is read, whatever white space and comment stand around it.
cfg_line-entry :
    (lineno : ℕ) (indent domain gap : Bytes) (weight : ℕ) (trail : Bytes) (remark : Option Bytes)
    → IsConfLine (entry indent domain gap weight trail remark)
    → cfg_line true lineno (show_line (entry indent domain gap weight trail remark) ++ b'\n' ∷ [])
      ≡ item (new_item domain weight)
unfolding cfg_line
cfg_line-entry lineno indent domain gap weight trail remark
      (hi, ne, hd, ge, hg, p, m, ht, hr, fits) =
    rw regroup (
      rw
        (cfg_cleanline-trim front trail remark no_hash (All-mono blank-hash trail ht)
          (All-mono blank-space trail ht))
        (rw trimmed (
          cfg_text-item lineno domain weight p m indent gap (All-mono blank-space indent hi)
            (All-mono domain-space domain hd) ne ge (All-mono blank-space gap hg))))
  where
    front : Bytes
    front = indent ++ (domain ++ (gap ++ print weight))

    regroup :
        show_line (entry indent domain gap weight trail remark) ++ b'\n' ∷ []
        ≡ front ++ (trail ++ (remark_text remark ++ b'\n' ∷ []))
    regroup = simp append_assoc

    no_hash : NoHash front
    no_hash = All-append _ indent _ (All-mono blank-hash indent hi) (
        All-append _ domain _ (All-mono domain-hash domain hd) (
          All-append _ gap _ (All-mono blank-hash gap hg)
            (All-mono digit-hash (print weight) (print-All weight))))

    trimmed : trim front ≡ front
    trimmed =
        let moved : (indent ++ (domain ++ gap)) ++ print weight ≡ front = simp append_assoc in
        rw (← moved) (
          trim-Leads (indent ++ (domain ++ gap)) (print weight) (print-Leads weight p)
            (print-All weight))

-- A blank line, or one with a comment alone, is skipped.
cfg_line-note :
    (lineno : ℕ) (indent : Bytes) (remark : Option Bytes)
    → All IsBlank indent
    → cfg_line true lineno (show_line (note indent remark) ++ b'\n' ∷ []) ≡ skip
unfolding cfg_line cfg_text drop_space
cfg_line-note lineno indent remark h = rw (append_assoc indent (remark_text remark) (b'\n' ∷ [])) (
    rw (
      cfg_cleanline-trim [] indent remark tt (All-mono blank-hash indent h)
        (All-mono blank-space indent h)))

-- No line holds a newline or a NUL.
show_line-text : (l : ConfLine) → IsConfLine l → All IsRemarkByte (show_line l)
show_line-text (note indent remark) (hi, hr, fits) =
    All-append _ indent _ (All-mono blank-text indent hi) (remark-text remark hr)
show_line-text (entry indent domain gap weight trail remark)
      (hi, ne, hd, ge, hg, p, m, ht, hr, fits) =
    All-append _ indent _ (All-mono blank-text indent hi) (
      All-append _ domain _ (All-mono domain-text domain hd) (
        All-append _ gap _ (All-mono blank-text gap hg) (
          All-append _ (print weight) _ (All-mono digit-text (print weight) (print-All weight))
            (All-append _ trail _ (All-mono blank-text trail ht) (remark-text remark hr)))))

show_line-fits : (l : ConfLine) → IsConfLine l → length (show_line l) ≤ maxline - 3
show_line-fits (note indent remark) h = h.2
show_line-fits (entry indent domain gap weight trail remark) h = h.9

unfoldable pub result_of : ConfLine → LineResult
result_of (note indent remark) = skip
result_of (entry indent domain gap weight trail remark) = item (new_item domain weight)

pub cfg_line-result :
    (lineno : ℕ) (l : ConfLine)
    → IsConfLine l
    → cfg_line true lineno (show_line l ++ b'\n' ∷ []) ≡ result_of l
unfolding result_of
cfg_line-result lineno (note indent remark) h = cfg_line-note lineno indent remark h.0
cfg_line-result lineno (entry indent domain gap weight trail remark) h =
    cfg_line-entry lineno indent domain gap weight trail remark h

pub c_string-show_line :
    (l : ConfLine) → IsConfLine l → c_string (show_line l ++ b'\n' ∷ []) ≡ show_line l ++ b'\n' ∷ []
c_string-show_line l h = c_string_lem _ (
    All-append _ (show_line l) (b'\n' ∷ [])
      (All-mono (λ c t. t.1) (show_line l) (show_line-text l h)) (omega arith))

pub fgets-show_line :
    (l : ConfLine) (rest : Bytes)
    → IsConfLine l
    → fgets (maxline - 2) (show_line l ++ (b'\n' ∷ rest)) ≡ (show_line l ++ b'\n' ∷ [], rest)
fgets-show_line l rest h =
    fgets_line (maxline - 2) (show_line l) rest (omega (arith, show_line-fits l h))
      (All-mono (λ c t. t.0) (show_line l) (show_line-text l h))
