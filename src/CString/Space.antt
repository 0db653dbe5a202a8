-- ===== src/CString/Space.antt =====
-- Skipping white space, and trimming it from the end of a text.
use mathlib.Core.List.{reverse-append, reverse-reverse, reverse-cons}
use rblpolicyd.Prelude.{
  ℕ, ◌≡◌, refl, ap, ◌∙◌, ◌≢◌, true, false, [], ◌∷◌, ◌++◌, reverse, append_assoc, Bytes, All,
  All-append, arith, length, length-append, ◌≤◌,
}
use rblpolicyd.CString.{is_space, drop_space, c_string}

abbrev pub AllSpace : Bytes → Type 0
AllSpace = All (λ c. is_space c ≡ true)

abbrev pub NoSpace : Bytes → Type 0
NoSpace = All (λ c. is_space c ≡ false)

pub drop_space-append : (s t : Bytes) → AllSpace s → drop_space (s ++ t) ≡ drop_space t
unfolding drop_space
drop_space-append [] t h = refl
drop_space-append (c ∷ s) t h = ground (arith, drop_space-append s t)

pub drop_space-NoSpace : (c : ℕ) (s : Bytes) → is_space c ≡ false → drop_space (c ∷ s) ≡ c ∷ s
unfolding drop_space
drop_space-NoSpace c s h = rw h

pub All-reverse {ℓ} : (P : ℕ → Type ℓ) (s : Bytes) → All P s → All P (reverse s)
All-reverse P [] h = tt
All-reverse P (c ∷ s) (hc, hs) =
    rw reverse-cons (All-append P (reverse s) (c ∷ []) (All-reverse P s hs) (hc, tt))

-- The text without the white space at its end.
abbrev pub trim : Bytes → Bytes
trim s = reverse (drop_space (reverse s))

pub trim-append_space : (s t : Bytes) → AllSpace t → trim (s ++ t) ≡ trim s
trim-append_space s t h = rw (reverse-append s t) (
    ap reverse
      (drop_space-append (reverse t) (reverse s) (All-reverse (λ c. is_space c ≡ true) t h)))

trim_last : (s : Bytes) (c : ℕ) → is_space c ≡ false → trim (s ++ c ∷ []) ≡ s ++ c ∷ []
trim_last s c h =
    rw (reverse-append s (c ∷ []))
      (rw (drop_space-NoSpace c (reverse s) h) (reverse-cons c (reverse s) ∙ rw reverse-reverse))

-- A text that ends in a word keeps all of it.
pub trim_word :
    (s : Bytes) (c : ℕ) (w : Bytes) → NoSpace (c ∷ w) → trim (s ++ (c ∷ w)) ≡ s ++ (c ∷ w)
trim_word s c [] h = trim_last s c h.0
trim_word s c (d ∷ w) h =
    let moved = append_assoc s (c ∷ []) (d ∷ w) in rw (← moved) (trim_word (s ++ c ∷ []) d w h.1)

pub c_string_lem : (s : Bytes) → All (λ c. c ≢ 0) s → c_string s ≡ s
unfolding c_string
c_string_lem [] h = refl
c_string_lem (c ∷ s) h = ground (arith, c_string_lem s h.1)

pub length-reverse : (s : Bytes) → length (reverse s) ≡ length s
length-reverse [] = refl
length-reverse (c ∷ s) =
    ap length (reverse-cons c s)
    ∙ omega (arith, length-append (reverse s) (c ∷ []), length-reverse s)

pub length-drop_space : (s : Bytes) → length (drop_space s) ≤ length s
unfolding drop_space
length-drop_space [] = omega arith
length-drop_space (c ∷ s) = ground (arith, length-drop_space s)
