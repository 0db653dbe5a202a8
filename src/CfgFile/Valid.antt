-- ===== src/CfgFile/Valid.antt =====
-- What every list that `cfg_read` returns has in common, and that its loop ends.
use rblpolicyd.Prelude.{
  ℕ, zero, suc, ◌+◌, ◌-◌, ◌≤◌, ◌<◌, ◌≡◌, refl, ◌≢◌, Bool, true, false, List, [], ◌∷◌, Option, none,
  some, ◌++◌, Bytes, length, length-append, All, All-append, reverse, Bool-cases, inl, inr, arith,
}
use rblpolicyd.Prelude.Int.{ℤ, pos, negsuc}
use rblpolicyd.CString.{is_space, drop_space, c_string}
use rblpolicyd.CString.Space.{All-reverse, length-reverse, length-drop_space}
use rblpolicyd.CfgFile.Line.{NoHash, length-fgets-le, length-fgets-lt}
use rblpolicyd.CfgFile.{
  CfgItem, shrt_max, maxline, LineResult, skip, item, refuse, before_hash, cfg_cleanline, scan_word,
  check_weight, cfg_fields, cfg_text, cfg_line, fgets, cfg_loop, CfgResult, loaded, failed,
  out_of_fuel, cfg_read,
}

abbrev IsWordByte : ℕ → Type 0
IsWordByte c = (is_space c ≡ false) × (c ≢ b'#')

-- A domain that is a word of a line, and a weight that a `short` holds.
pub record IsItem (it : CfgItem) : Type 0 where
  pub domain_ne : it.rbldomain ≢ []
  pub domain_bytes : All IsWordByte it.rbldomain
  pub domain_fits : length it.rbldomain ≤ maxline - 2
  pub weight_pos : 0 < it.weight
  pub weight_fits : it.weight ≤ shrt_max
  pub unasked : (it.questions ≡ 0) × (it.positive ≡ 0)

abbrev LineValid : LineResult → Type 0
LineValid skip = Unit
LineValid (item it) = IsItem it
LineValid (refuse e) = e ≢ out_of_fuel

record IsWord (temp s : Bytes) (r : Bytes × Bytes) : Type 0 where
  bytes : All IsWordByte r.0
  fits : length r.0 ≤ length temp + length s
  found : r.1 ≢ [] → r.0 ≢ []

later-IsWord :
    (temp : Bytes) (c : ℕ) (cs : Bytes) {r : Bytes × Bytes}
    → IsWord (temp ++ c ∷ []) cs r
    → IsWord temp (c ∷ cs) r
later-IsWord temp c cs w = record {
  bytes = w.bytes;
  fits = omega (arith, w.fits, length-append temp (c ∷ []));
  found = w.found;
}

scan_word-IsWord :
    (temp s : Bytes) → All IsWordByte temp → NoHash s → IsWord temp s (scan_word temp s)
unfolding scan_word
scan_word-IsWord temp [] ht hs = record {
  bytes = ht;
  fits = omega arith;
  found = λ h. absurd (h refl);
}
scan_word-IsWord [] (c ∷ cs) ht (hc, hs) = elim (Bool-cases (is_space c)) [
  | inl e ↦
      let later = scan_word-IsWord [] cs tt hs in
      rw (e, scan_word)
        (record { bytes = later.bytes; fits = omega (arith, later.fits); found = later.found })
  | inr e ↦ rw (e, scan_word) (later-IsWord [] c cs (scan_word-IsWord (c ∷ []) cs ((e, hc), tt) hs))
]
scan_word-IsWord (t ∷ ts) (c ∷ cs) ht (hc, hs) = elim (Bool-cases (is_space c)) [
  | inl e ↦ rw (e, scan_word) (record { bytes = ht; fits = omega arith; found = λ _. cc })
  | inr e ↦
      let longer = All-append _ (t ∷ ts) (c ∷ []) ht ((e, hc), tt) in
      rw (e, scan_word)
        (later-IsWord (t ∷ ts) c cs (scan_word-IsWord ((t ∷ ts) ++ c ∷ []) cs longer hs))
]

before_hash-NoHash : (s : Bytes) → NoHash (before_hash s)
unfolding before_hash
before_hash-NoHash [] = tt
before_hash-NoHash (c ∷ s) = ground (arith, before_hash-NoHash s)

length-before_hash : (s : Bytes) → length (before_hash s) ≤ length s
unfolding before_hash
length-before_hash [] = omega arith
length-before_hash (c ∷ s) = ground (arith, length-before_hash s)

drop_space-All {ℓ} : (P : ℕ → Type ℓ) (s : Bytes) → All P s → All P (drop_space s)
unfolding drop_space
drop_space-All P [] h = tt
drop_space-All P (c ∷ s) (hc, hs) = elim (Bool-cases (is_space c)) [
  | inl e ↦ rw e (drop_space-All P s hs)
  | inr e ↦ rw e (hc, hs)
]

cfg_cleanline-NoHash : (s : Bytes) → NoHash (cfg_cleanline s)
unfolding cfg_cleanline
cfg_cleanline-NoHash s =
    All-reverse _ _ (drop_space-All _ _ (All-reverse _ (before_hash s) (before_hash-NoHash s)))

length-cfg_cleanline : (s : Bytes) → length (cfg_cleanline s) ≤ length s
unfolding cfg_cleanline
length-cfg_cleanline s = omega (
  arith,
  length-reverse (drop_space (reverse (before_hash s))),
  length-drop_space (reverse (before_hash s)),
  length-reverse (before_hash s),
  length-before_hash s,
)

check_weight-LineValid :
    (lineno : ℕ) (domain : Bytes) (r : ℤ × Bytes)
    → domain ≢ []
    → All IsWordByte domain
    → length domain ≤ maxline - 2
    → LineValid (check_weight lineno domain r)
unfolding check_weight
check_weight-LineValid lineno domain (w, c ∷ cs) ne h f = cc
check_weight-LineValid lineno domain (negsuc w, []) ne h f = cc
check_weight-LineValid lineno domain (pos w, []) ne h f = ground arith

cfg_fields-LineValid :
    (got : Bool) (lineno : ℕ) (s : Bytes) (r : Bytes × Bytes)
    → length s ≤ maxline - 2
    → IsWord [] s r
    → LineValid (cfg_fields got lineno r)
unfolding cfg_fields
cfg_fields-LineValid got lineno s (domain, []) h w = cc
cfg_fields-LineValid false lineno s (domain, c ∷ cs) h w = cc
cfg_fields-LineValid true lineno s (domain, c ∷ cs) h w =
    check_weight-LineValid lineno domain _ (w.found (cc)) w.bytes (omega (arith, w.fits))

cfg_text-LineValid :
    (got : Bool) (lineno : ℕ) (s : Bytes)
    → length s ≤ maxline - 2
    → NoHash s
    → LineValid (cfg_text got lineno s)
unfolding cfg_text
cfg_text-LineValid got lineno [] h n = tt
cfg_text-LineValid got lineno (c ∷ cs) h n =
    cfg_fields-LineValid got lineno (c ∷ cs) _ h (scan_word-IsWord [] (c ∷ cs) tt n)

length-c_string : (s : Bytes) → length (c_string s) ≤ length s
unfolding c_string
length-c_string [] = omega arith
length-c_string (c ∷ s) = ground (arith, length-c_string s)

-- What a line of at most 1022 bytes gives: nothing, a valid item, or an error of the file.
cfg_line-LineValid :
    (got : Bool) (lineno : ℕ) (buf : Bytes)
    → length buf ≤ maxline - 2
    → LineValid (cfg_line got lineno (c_string buf))
unfolding cfg_line
cfg_line-LineValid got lineno buf h =
    cfg_text-LineValid got lineno (cfg_cleanline (c_string buf))
      (omega (arith, length-cfg_cleanline (c_string buf), length-c_string buf))
      (cfg_cleanline-NoHash (c_string buf))

abbrev ReadValid : CfgResult → Type 0
ReadValid (loaded items) = All IsItem items
ReadValid (failed e) = e ≢ out_of_fuel

cfg_loop-ReadValid :
    (calloc : ℕ → Bool) (fuel lineno : ℕ) (first : List CfgItem) (file : Bytes)
    → length file < fuel
    → All IsItem first
    → ReadValid (cfg_loop calloc fuel lineno first file)
unfolding cfg_loop
cfg_loop-ReadValid calloc zero lineno first file h v = elim h [ ]
cfg_loop-ReadValid calloc (suc fuel) lineno first [] h v = v
cfg_loop-ReadValid calloc (suc fuel) lineno first (c ∷ cs) h v =
    next _
      (cfg_line-LineValid (calloc (lineno + 1)) (lineno + 1) _
        (length-fgets-le (maxline - 2) (c ∷ cs)))
      (λ items w.
        cfg_loop-ReadValid calloc fuel (lineno + 1) items _
          (omega (arith, length-fgets-lt (maxline - 3) c cs)) w)
  where
    next :
        (r : LineResult)
        → LineValid r
        → ((items : List CfgItem)
            → All IsItem items
            → ReadValid (cfg_loop calloc fuel (lineno + 1) items (fgets (maxline - 2) (c ∷ cs)).1))
        → ReadValid (elim r [
          | skip ↦ cfg_loop calloc fuel (lineno + 1) first (fgets (maxline - 2) (c ∷ cs)).1
          | item current ↦
              cfg_loop calloc fuel
                (lineno + 1)
                (first ++ current ∷ [])
                (fgets (maxline - 2) (c ∷ cs)).1
          | refuse e ↦ failed e
        ])
    next skip w later = later first v
    next (item current) w later =
        later (first ++ current ∷ []) (All-append IsItem first (current ∷ []) v (w, tt))
    next (refuse e) w later = w

cfg_read-ReadValid : (calloc : ℕ → Bool) (file : Option Bytes) → ReadValid (cfg_read calloc file)
unfolding cfg_read
cfg_read-ReadValid calloc none = cc
cfg_read-ReadValid calloc (some file) =
    cfg_loop-ReadValid calloc (length file + 1) 0 [] file (omega arith) tt

-- Whatever the file holds, and on whichever lines `calloc` fails, as long as the copy of each domain has
-- memory (`strdup`): every item that `cfg_read` returns has a
-- domain that is not empty, without white space and `#`, of at most 1022 bytes, a weight from 1 to
-- 32767, and counters at 0.
pub cfg_read-IsItem :
    (calloc : ℕ → Bool) (file : Option Bytes) {items : List CfgItem}
    → cfg_read calloc file ≡ loaded items
    → All IsItem items
cfg_read-IsItem calloc file e = rw e at (cfg_read-ReadValid calloc file)
