-- ===== src/CfgFile.antt =====
-- cfgfile.c: the configuration file, a list of blacklist domains with their weights.
pub mod Line
pub mod Format
pub mod Entries
pub mod RoundTrip
pub mod Dump
pub mod Debug
pub mod Valid
use rblpolicyd.Prelude.{
  ℕ, zero, suc, ◌+◌, ◌-◌, Bool, true, false, ◌&&◌, Option, none, some, List, [], ◌∷◌, ◌++◌, reverse,
  Bytes, length, codes, ltb, leb, ◌==◌, if◌then◌else◌,
}
use rblpolicyd.Prelude.Int.{ℤ, pos, negsuc, pos_part, neg_part, ltb_ℤ}
use rblpolicyd.CString.{is_space, drop_space, c_string, print}
use rblpolicyd.CString.Strtol.{strtol}

-- `cfgitem_t`; the `next` pointers are the list that an item stands in.
pub record CfgItem : Type 0 where
  pub rbldomain : Bytes
  pub weight : ℕ
  pub questions : ℕ
  pub positive : ℕ
  pub rtt : List ℕ
  pub rttindex : ℕ

abbrev pub maxline : ℕ
maxline = 1024

abbrev pub shrt_max : ℕ
shrt_max = 32767

-- Why the file was refused, with the line; `out_of_fuel` is the model's own.
pub data CfgError : Type 0 where
  cannot_open : CfgError
  premature_end : ℕ → CfgError
  out_of_memory : ℕ → CfgError
  not_numeric : ℕ → CfgError
  outside_range : ℕ → CfgError
  out_of_fuel : CfgError

-- Of the lines read, what the loop makes of one.
pub data LineResult : Type 0 where
  skip : LineResult
  item : CfgItem → LineResult
  refuse : CfgError → LineResult

pub data CfgResult : Type 0 where
  loaded : List CfgItem → CfgResult
  failed : CfgError → CfgResult

-- the first loop of `cfg_cleanline`, and the NUL behind it
unfoldable pub before_hash : Bytes → Bytes
before_hash [] = []
before_hash (c ∷ cs) = if c == b'#' then [] else c ∷ before_hash cs

-- The second loop goes from the end towards the front.
unfoldable pub cfg_cleanline : Bytes → Bytes
cfg_cleanline line = reverse (drop_space (reverse (before_hash line)))

-- The loop over `x`, with the text in `temp` so far: the first word, and the text from the white
-- space behind it, which is empty where the line ends first.
unfoldable pub scan_word : Bytes → Bytes → Bytes × Bytes
scan_word temp [] = (temp, [])
scan_word temp (c ∷ cs) = elim (is_space c) [
  | true ↦ elim temp [ [] ↦ scan_word [] cs | t ∷ ts ↦ (t ∷ ts, c ∷ cs) ]
  | false ↦ scan_word (temp ++ c ∷ []) cs
]

-- `calloc` clears the other fields.
abbrev pub new_item : Bytes → ℕ → CfgItem
new_item domain weight = record {
  rbldomain = domain;
  weight = weight;
  questions = 0;
  positive = 0;
  rtt = 0 ∷ 0 ∷ 0 ∷ 0 ∷ 0 ∷ 0 ∷ 0 ∷ 0 ∷ 0 ∷ 0 ∷ 0 ∷ 0 ∷ 0 ∷ 0 ∷ 0 ∷ 0 ∷ [];
  rttindex = 0;
}

-- the checks on what `strtol` returned: `*y != '\0'`, then the range
unfoldable pub check_weight : ℕ → Bytes → ℤ × Bytes → LineResult
check_weight lineno domain (weight, c ∷ cs) = refuse (not_numeric lineno)
check_weight lineno domain (pos weight, []) =
    if weight == 0
    then refuse (outside_range lineno)
    else if ltb shrt_max weight
    then refuse (outside_range lineno)
    else item (new_item domain weight)
check_weight lineno domain (negsuc weight, []) = refuse (outside_range lineno)

-- behind the word: `x` is at the white space, or at the end of the line
unfoldable pub cfg_fields : Bool → ℕ → Bytes × Bytes → LineResult
cfg_fields got_memory lineno (domain, []) = refuse (premature_end lineno)
cfg_fields got_memory lineno (domain, c ∷ cs) =
    if got_memory
    then check_weight lineno domain (strtol (drop_space (c ∷ cs)))
    else refuse (out_of_memory lineno)

unfoldable pub cfg_text : Bool → ℕ → Bytes → LineResult
cfg_text got_memory lineno [] = skip
cfg_text got_memory lineno (c ∷ cs) = cfg_fields got_memory lineno (scan_word [] (c ∷ cs))

-- the body of the loop of `cfg_read`; `got_memory` says whether `calloc` succeeds on this line. The
-- `strdup` behind it, whose result the code does not test, is taken to have memory where `calloc` had.
unfoldable pub cfg_line : Bool → ℕ → Bytes → LineResult
cfg_line got_memory lineno buf = cfg_text got_memory lineno (cfg_cleanline buf)

-- `fgets` for at most `n` bytes: those it reads, and the rest of the file
unfoldable pub fgets : ℕ → Bytes → Bytes × Bytes
fgets zero s = ([], s)
fgets (suc n) [] = ([], [])
fgets (suc n) (c ∷ s) =
    let more = fgets n s in if c == b'\n' then (c ∷ [], s) else (c ∷ more.0, more.1)

-- `while (fgets(buf, MAXLINE - 1, c))`: one byte of the buffer is for the NUL. `first` is the list
-- so far, `calloc` says on which lines memory is there.
unfoldable pub cfg_loop : (calloc : ℕ → Bool) → ℕ → ℕ → List CfgItem → Bytes → CfgResult
cfg_loop calloc zero lineno first file = failed out_of_fuel
cfg_loop calloc (suc fuel) lineno first [] = loaded first
cfg_loop calloc (suc fuel) lineno first (c ∷ cs) =
    let (buf, rest) = fgets (maxline - 2) (c ∷ cs) in
    elim (cfg_line (calloc (lineno + 1)) (lineno + 1) (c_string buf)) [
      | skip ↦ cfg_loop calloc fuel (lineno + 1) first rest
      | item current ↦ cfg_loop calloc fuel (lineno + 1) (first ++ current ∷ []) rest
      | refuse e ↦ failed e
    ]

-- `none` where `fopen` fails
unfoldable pub cfg_read : (calloc : ℕ → Bool) → Option Bytes → CfgResult
cfg_read calloc none = failed cannot_open
cfg_read calloc (some file) = cfg_loop calloc (length file + 1) 0 [] file

-- The pointer that `cfg_read` returns: an error frees the list and gives NULL, as an empty file does.
unfoldable pub cfg_pointer : CfgResult → List CfgItem
cfg_pointer (loaded items) = items
cfg_pointer (failed e) = []
