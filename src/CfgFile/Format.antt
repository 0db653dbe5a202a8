-- ===== src/CfgFile/Format.antt =====
-- cfgfile.c: the documented format of the configuration, and which bytes stand where in it.
use rblpolicyd.Prelude.{
  ℕ, ◌-◌, ◌≤◌, ◌<◌, ◌≡◌, ◌≢◌, true, false, List, [], ◌∷◌, Option, none, some, ◌++◌, Bytes, length,
  All, arith,
}
use rblpolicyd.CString.{is_space, print}
use rblpolicyd.CString.Decimal.{IsDigit}
use rblpolicyd.CfgFile.{CfgItem, new_item, shrt_max, maxline}

-- white space within a line
abbrev pub IsBlank : ℕ → Type 0
IsBlank c = (is_space c ≡ true) × (c ≢ b'\n')

abbrev pub IsDomainByte : ℕ → Type 0
IsDomainByte c = (is_space c ≡ false) × (c ≢ b'#') × (c ≢ 0)

abbrev pub IsRemarkByte : ℕ → Type 0
IsRemarkByte c = (c ≢ b'\n') × (c ≢ 0)

abbrev pub remark_text : Option Bytes → Bytes
remark_text none = []
remark_text (some s) = b'#' ∷ s

-- A line with no entry, and one with an entry.
pub data ConfLine : Type 0 where
  note : (indent : Bytes) (remark : Option Bytes) → ConfLine
  entry :
      (indent domain gap : Bytes) (weight : ℕ) (trail : Bytes) (remark : Option Bytes) → ConfLine

abbrev pub show_line : ConfLine → Bytes
show_line (note indent remark) = indent ++ remark_text remark
show_line (entry indent domain gap weight trail remark) =
    indent ++ (domain ++ (gap ++ (print weight ++ (trail ++ remark_text remark))))

abbrev pub show_file : List ConfLine → Bytes
show_file [] = []
show_file (l ∷ ls) = show_line l ++ (b'\n' ∷ show_file ls)

abbrev pub items_of : List ConfLine → List CfgItem
items_of [] = []
items_of (note indent remark ∷ ls) = items_of ls
items_of (entry indent domain gap weight trail remark ∷ ls) = new_item domain weight ∷ items_of ls

abbrev IsRemark : Option Bytes → Type 0
IsRemark none = Unit
IsRemark (some s) = All IsRemarkByte s

-- A line of at most `MAXLINE` - 3 bytes, its newline not counted.
abbrev pub IsConfLine : ConfLine → Type 0
IsConfLine (note indent remark) =
    All IsBlank indent × IsRemark remark × (length (indent ++ remark_text remark) ≤ maxline - 3)
IsConfLine (entry indent domain gap weight trail remark) =
    All IsBlank indent
    × (domain ≢ [])
    × All IsDomainByte domain
    × (gap ≢ [])
    × All IsBlank gap
    × (0 < weight)
    × (weight ≤ shrt_max)
    × All IsBlank trail
    × IsRemark remark
    × (length (show_line (entry indent domain gap weight trail remark)) ≤ maxline - 3)

pub All-mono {ℓ κ} :
    {P : ℕ → Type ℓ} {Q : ℕ → Type κ} → ((c : ℕ) → P c → Q c) → (s : Bytes) → All P s → All Q s
All-mono f [] h = tt
All-mono f (c ∷ s) h = (f c h.0, All-mono f s h.1)

pub blank-space : (c : ℕ) → IsBlank c → is_space c ≡ true
blank-space c h = h.0

pub blank-text : (c : ℕ) → IsBlank c → IsRemarkByte c
unfolding is_space
blank-text c h = ground arith

pub blank-hash : (c : ℕ) → IsBlank c → c ≢ b'#'
unfolding is_space
blank-hash c h = ground arith

pub domain-space : (c : ℕ) → IsDomainByte c → is_space c ≡ false
domain-space c h = h.0

pub domain-text : (c : ℕ) → IsDomainByte c → IsRemarkByte c
unfolding is_space
domain-text c h = ground arith

pub domain-hash : (c : ℕ) → IsDomainByte c → c ≢ b'#'
domain-hash c h = h.1

pub digit-space : (c : ℕ) → IsDigit c → is_space c ≡ false
unfolding is_space
digit-space c h = ground arith

pub digit-text : (c : ℕ) → IsDigit c → IsRemarkByte c
digit-text c h = omega arith

pub digit-hash : (c : ℕ) → IsDigit c → c ≢ b'#'
digit-hash c h = omega arith

pub remark-text : (r : Option Bytes) → IsRemark r → All IsRemarkByte (remark_text r)
remark-text none h = tt
remark-text (some s) h = ((omega arith, omega arith), h)
