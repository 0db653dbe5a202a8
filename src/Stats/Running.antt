-- ===== src/Stats/Running.antt =====
-- The text of a running time, read back.
use rblpolicyd.Prelude.{
  ℕ, zero, suc, ◌+◌, ◌*◌, ◌^◌, ◌<◌, ◌≤◌, ◌≡◌, refl, ◌∙◌, Bool-cases, inl, inr, [], ◌∷◌, ◌++◌, Bytes,
  some, length, length-append, none, take-all, ltb, ◌==◌, if◌then◌else◌, arith, Bool,
}
use rblpolicyd.CString.{print}
use rblpolicyd.CString.Decimal.{length-print, scan_digits-print, scan_digit}
use rblpolicyd.CString.Strtol.{digit_value, scan_digits}
use rblpolicyd.Stats.{Split, split, two_digits, fmt_parts, fmt_buffer, fmt_secs}
use rblpolicyd.Stats.Average.{split_lem}

-- the seconds of a unit
abbrev pub unit : ℕ → ℕ
unit c =
    if c == b'w'
    then 604800
    else if c == b'd'
    then 86400
    else if c == b'h'
    then 3600
    else if c == b'm'
    then 60
    else if c == b's'
    then 1
    else 0

abbrev read_part : ℕ × Bytes → (Bytes → ℕ) → ℕ
read_part (n, []) others = 0
read_part (n, c ∷ rest) others = n * unit c + others rest

-- A reader of such texts: up to `k` numbers, each in decimal and with its unit behind it, add up.
unfoldable pub read_time : ℕ → Bytes → ℕ
read_time zero s = 0
read_time (suc k) s = read_part (scan_digits 10 0 s) (read_time k)

-- what `%02d` writes is read as the number
scan_digits-two_digits :
    (n : ℕ) (rest : Bytes) → scan_digits 10 0 (two_digits n ++ rest) ≡ scan_digits 10 n rest
unfolding two_digits
scan_digits-two_digits n rest = elim (Bool-cases (ltb n 10)) [
  | inl small ↦
      rw small (scan_digit 0 b'0' (print n ++ rest) (omega arith) ∙ scan_digits-print n rest)
  | inr large ↦ rw large (scan_digits-print n rest)
]

-- a letter ends a number
scan_digits-letter :
    (n c : ℕ) (rest : Bytes) → b'a' ≤ c → scan_digits 10 n (c ∷ rest) ≡ (n, c ∷ rest)
unfolding scan_digits digit_value
scan_digits-letter n c rest h = ground arith

read_time-print :
    (k n c : ℕ) (rest : Bytes)
    → b'a' ≤ c
    → read_time (suc k) (print n ++ (c ∷ rest)) ≡ n * unit c + read_time k rest
unfolding read_time
read_time-print k n c rest letter =
    rw (scan_digits-print n (c ∷ rest), scan_digits-letter n c rest letter) refl

read_time-two_digits :
    (k n c : ℕ) (rest : Bytes)
    → b'a' ≤ c
    → read_time (suc k) (two_digits n ++ (c ∷ rest)) ≡ n * unit c + read_time k rest
unfolding read_time
read_time-two_digits k n c rest letter =
    rw (scan_digits-two_digits n (c ∷ rest), scan_digits-letter n c rest letter) refl

read_time-fmt_parts :
    (t : Split)
    → read_time 5 (fmt_parts t)
      ≡ t.weeks * 604800 + t.days * 86400 + t.hours * 3600 + t.minutes * 60 + t.seconds
unfolding fmt_parts
read_time-fmt_parts t =
    let s = two_digits t.seconds ++ (b's' ∷ []) in
    let m = two_digits t.minutes ++ (b'm' ∷ s) in
    let h = two_digits t.hours ++ (b'h' ∷ m) in
    let d = print t.days ++ (b'd' ∷ h) in
    let shape : fmt_parts t ≡ print t.weeks ++ (b'w' ∷ d) = refl in
    let none_left : read_time 0 [] ≡ 0 = unfold read_time in refl in
    rw shape (
      omega (
        arith,
        none_left,
        read_time-print 4 t.weeks b'w' d (omega arith),
        read_time-print 3 t.days b'd' h (omega arith),
        read_time-two_digits 2 t.hours b'h' m (omega arith),
        read_time-two_digits 1 t.minutes b'm' s (omega arith),
        read_time-two_digits 0 t.seconds b's' [] (omega arith),
      ))

length-two_digits : (n : ℕ) → n < 60 → length (two_digits n) ≤ 3
unfolding two_digits
length-two_digits n h = ground (arith, length-print n 1 (omega (arith, h)))

-- A running time of 32 bits takes no more than the buffer has.
length-fmt_parts : (s : ℕ) → s < 2 ^ 32 → length (fmt_parts (split s)) ≤ 126
unfolding fmt_parts
length-fmt_parts s h =
    let t = split s in
    let (whole, days, hours, minutes, seconds) = split_lem s in
    let ss = two_digits t.seconds ++ (b's' ∷ []) in
    let ms = two_digits t.minutes ++ (b'm' ∷ ss) in
    let hs = two_digits t.hours ++ (b'h' ∷ ms) in
    let ds = print t.days ++ (b'd' ∷ hs) in
    let shape : fmt_parts t ≡ print t.weeks ++ (b'w' ∷ ds) = refl in
    rw shape (
      omega (
        arith,
        length-append (print t.weeks) (b'w' ∷ ds),
        length-append (print t.days) (b'd' ∷ hs),
        length-append (two_digits t.hours) (b'h' ∷ ms),
        length-append (two_digits t.minutes) (b'm' ∷ ss),
        length-append (two_digits t.seconds) (b's' ∷ []),
        length-print t.weeks 4 (omega (arith, whole, h)),
        length-print t.days 0 (omega (arith, days)),
        length-two_digits t.hours (omega (arith, hours)),
        length-two_digits t.minutes minutes,
        length-two_digits t.seconds seconds,
      ))

-- For every running time below 2 ^ 32 the text that `fmt_secs` returns is whole: a reader that adds up
-- the numbers, each times the seconds of the unit behind it, gets the time back. It takes at most 126
-- bytes. Without memory for it the result is NULL.
pub fmt_secs-read_time :
    (strdup : ℕ → Bool) (s : ℕ)
    → s < 2 ^ 32
    → (text : Bytes) × (read_time 5 text ≡ s)
      × (length text ≤ 126)
      × (fmt_secs strdup s ≡ (if strdup (length text + 1) then some text else none))
unfolding fmt_secs fmt_buffer
fmt_secs-read_time strdup s h =
    let whole = length-fmt_parts s h in
    let all = take-all 126 (fmt_parts (split s)) whole in
    (fmt_parts (split s), read_time-fmt_parts (split s) ∙ (split_lem s).0, whole, rw all refl)
