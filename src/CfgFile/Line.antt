-- ===== src/CfgFile/Line.antt =====
-- One line of the file: what comes in front of a comment, the word, the weight.
use rblpolicyd.Prelude.{
  ℕ, zero, suc, ◌+◌, ◌≤◌, ◌<◌, ◌≡◌, refl, ◌∙◌, ◌≢◌, true, [], ◌∷◌, ◌++◌, append-nil, append_assoc,
  Bytes, length, All, arith,
}
use rblpolicyd.CString.{is_space}
use rblpolicyd.CString.Space.{AllSpace, NoSpace}
use rblpolicyd.CfgFile.{before_hash, scan_word, fgets}

abbrev pub NoHash : Bytes → Type 0
NoHash = All (λ c. c ≢ b'#')

pub before_hash-append : (s t : Bytes) → NoHash s → before_hash (s ++ t) ≡ s ++ before_hash t
unfolding before_hash
before_hash-append [] t h = refl
before_hash-append (c ∷ s) t h = ground (arith, before_hash-append s t h.1)

-- a word behind white space, and white space behind it
pub scan_word-NoSpace :
    (temp word : Bytes) (c : ℕ) (rest : Bytes)
    → NoSpace word
    → is_space c ≡ true
    → (temp ++ word) ≢ []
    → scan_word temp (word ++ (c ∷ rest)) ≡ (temp ++ word, c ∷ rest)
unfolding scan_word
scan_word-NoSpace [] [] c rest h k ne = absurd (ne refl)
scan_word-NoSpace (t ∷ ts) [] c rest h k ne = rw (append-nil, k, scan_word)
scan_word-NoSpace temp (w ∷ ws) c rest h k ne =
    rw (h.0, scan_word)
      (scan_word-NoSpace (temp ++ w ∷ []) ws c rest h.1 k (rw append_assoc ne) ∙ rw append_assoc)

pub scan_word-AllSpace :
    (indent s : Bytes) → AllSpace indent → scan_word [] (indent ++ s) ≡ scan_word [] s
unfolding scan_word
scan_word-AllSpace [] s h = refl
scan_word-AllSpace (c ∷ indent) s h = rw (h.0, scan_word) (scan_word-AllSpace indent s h.1)

-- A line that fits the buffer is read whole, with its newline.
pub fgets_line :
    (n : ℕ) (s rest : Bytes)
    → length s < n
    → All (λ c. c ≢ b'\n') s
    → fgets n (s ++ (b'\n' ∷ rest)) ≡ (s ++ b'\n' ∷ [], rest)
unfolding fgets
fgets_line zero s rest h text = elim h [ ]
fgets_line (suc n) [] rest h text = refl
fgets_line (suc n) (c ∷ s) rest h text = ground (arith, fgets_line n s rest (omega arith) text.1)

length-fgets : (n : ℕ) (s : Bytes) → length (fgets n s).0 + length (fgets n s).1 ≡ length s
unfolding fgets
length-fgets zero s = omega arith
length-fgets (suc n) [] = refl
length-fgets (suc n) (c ∷ s) = ground (arith, length-fgets n s)

-- Each call of `fgets` makes progress.
pub length-fgets-lt : (n c : ℕ) (s : Bytes) → length (fgets (suc n) (c ∷ s)).1 ≤ length s
unfolding fgets
length-fgets-lt n c s = ground (arith, length-fgets n s)

-- Never more bytes than the buffer holds.
pub length-fgets-le : (n : ℕ) (s : Bytes) → length (fgets n s).0 ≤ n
unfolding fgets
length-fgets-le zero s = omega arith
length-fgets-le (suc n) [] = omega arith
length-fgets-le (suc n) (c ∷ s) = ground (arith, length-fgets-le n s)
