-- ===== src/Request/Whole.antt =====
-- A request is returned whole, however the connection cuts it up.
use rblpolicyd.Request.Pieces.{
  delivers, joined, IsRequest, Ends-ends_request, not-ends_request, push, push-delivers,
  push-joined, push-All, length-take-or, List-cases, ne-nil_of_length, length_of_ne-nil,
  append-eq-nil,
}
use rblpolicyd.Prelude.{
  ℕ, zero, suc, ◌+◌, ◌-◌, ◌^◌, ap, ◌≤◌, ◌<◌, ◌≡◌, refl, ◌∙◌, ◌≢◌, Bool, true, Option, none, some,
  List, [], ◌∷◌, ◌++◌, Bytes, length, take, drop, length-append, length-take, length-take-drop,
  append_assoc, append-nil, inl, inr, arith, All,
}
use rblpolicyd.Request.Bounds.{rounds-push_back, take-append-drop, grown-fits}
use rblpolicyd.Request.{
  Event, buffer, stop, more, received, read_into, grown, contents, read_loop, rounds, int_realloc,
  read_request,
}

-- The next read brings the bytes up to four at least.
abbrev FirstFour : Bytes → List Bytes → Type 0
FirstFour old [] = Unit
FirstFour old (p ∷ ps) = 4 ≤ length old + length p

FirstFour-of_le : (old : Bytes) (ps : List Bytes) → 4 ≤ length old → FirstFour old ps
FirstFour-of_le old [] h = tt
FirstFour-of_le old (p ∷ ps) h = omega arith

module _ (realloc : ℕ → Bool) (memory : (n : ℕ) → n < 2 ^ 31 → realloc n ≡ true) (request : Bytes)
    (short : length request + 2047 < 2 ^ 31) (is : IsRequest request) where
  -- The read that completes the request ends the loop.
  received-whole :
      (bufsize size : ℕ) (old got left : Bytes)
      → (bufsize < size → size < 2 ^ 31)
      → length (old ++ got) < size
      → 4 ≤ length (old ++ got)
      → got ≢ []
      → left ≡ []
      → old ++ got ≡ request
      → received realloc bufsize size old got left ≡ stop (buffer request)
  unfolding received
  received-whole bufsize size old got left room fits four ne e whole =
      ground (arith, room, memory size, Ends-ends_request request is.ends)

  -- Any other read lets it go on.
  received-part :
      (bufsize size : ℕ) (old got left back : Bytes)
      → (bufsize < size → size < 2 ^ 31)
      → length (old ++ got) < size
      → 4 ≤ length (old ++ got)
      → got ≢ []
      → (old ++ got) ++ back ≡ request
      → back ≢ []
      → received realloc bufsize size old got left ≡ more size (old ++ got) left
  unfolding received
  received-part bufsize size old got left back room fits four ne whole e =
      ground (
        arith,
        room,
        memory size,
        not-ends_request (old ++ got) (is.only (old ++ got) back whole e),
      )

  -- One arrival that fits or not, before the rest of the request.
  module _ (bufsize : ℕ) (old p back : Bytes) (fits : length old ≤ bufsize)
      (four : 4 ≤ length old + length p) (ne : p ≢ []) where
    size : ℕ
    size = grown bufsize (length old)

    space : ℕ
    unfolding size
    space = size - length old - 1

    got : Bytes
    unfolding space
    got = take space p

    left : Bytes
    unfolding space
    left = drop space p

    got-bounds :
        (length (old ++ got) < size)
        × (4 ≤ length (old ++ got))
        × (0 < length got)
        × (length left + length got ≡ length p)
    unfolding got left
    got-bounds =
        let room = grown-fits bufsize (length old) fits in
        let part = length-take-or space p in
        let sum = length-append old got in
        let all = length-take-drop space p in
        let cap = length-take space p in
        let some_byte = length_of_ne-nil p ne in
        (omega arith, omega arith, omega arith, omega arith)

    -- The buffer grows only as far as the request goes.
    room : (old ++ p) ++ back ≡ request → bufsize < size → size < 2 ^ 31
    unfolding size grown
    room whole larger =
        let sum = length-append (old ++ p) back in
        let sum' = length-append old p in
        let whole' = ap length whole in ground (arith, sum, sum', whole', short, fits, larger)

    regroup :
        (g l : Bytes)
        → g ++ l ≡ p
        → (old ++ p) ++ back ≡ request
        → (old ++ g) ++ (l ++ back) ≡ request
    regroup g l e whole =
        let moved : (old ++ g) ++ (l ++ back) ≡ (old ++ (g ++ l)) ++ back = simp append_assoc in
        moved ∙ rw e whole

    read_into-whole :
        (old ++ p) ++ back ≡ request
        → left ++ back ≡ []
        → read_into realloc bufsize size old p ≡ stop (buffer request)
    unfolding read_into got left
    read_into-whole whole e =
        let (fits', four', pos, _) = got-bounds in
        received-whole bufsize size old (take space p) (drop space p) (room whole) fits' four'
          (ne-nil_of_length (take space p) pos) (append-eq-nil left back e)
          (rw (e, append-nil (old ++ take space p)) at
            (regroup (take space p) (drop space p) (take-append-drop space p) whole))

    read_into-part :
        (old ++ p) ++ back ≡ request
        → left ++ back ≢ []
        → read_into realloc bufsize size old p ≡ more size (old ++ got) left
    unfolding read_into got left
    read_into-part whole e =
        let (fits', four', pos, _) = got-bounds in
        received-part bufsize size old (take space p) (drop space p) (left ++ back) (room whole)
          fits' four' (ne-nil_of_length (take space p) pos)
          (regroup (take space p) (drop space p) (take-append-drop space p) whole) e

  read_loop-delivers :
      (fuel bufsize : ℕ) (buf : Option Bytes) (ps : List Bytes) (later : List Event)
      → rounds (delivers ps later) ≤ fuel
      → length (contents buf) ≤ bufsize
      → FirstFour (contents buf) ps
      → All (λ p. p ≢ []) ps
      → joined ps ≢ []
      → contents buf ++ joined ps ≡ request
      → read_loop realloc fuel bufsize buf (delivers ps later) ≡ buffer request
  unfolding read_loop got left
  read_loop-delivers fuel bufsize buf [] later f b four ne rest whole = absurd (rest refl)
  read_loop-delivers zero bufsize buf (p ∷ ps) later f b four ne rest whole = absurd (omega arith)
  read_loop-delivers (suc fuel) bufsize buf (p ∷ ps) later f b four (np, ne) rest whole =
      let old = contents buf in
      let back = joined ps in
      let whole' : (old ++ p) ++ back ≡ request = append_assoc old p back ∙ whole in
      elim (List-cases (left bufsize old p back b four np ++ back)) [
        | inl e ↦ rw (read_into-whole bufsize old p back b four np whole' e, read_loop)
        | inr e ↦
            let n = grown bufsize (length old) in
            let rem = drop (n - length old - 1) p in
            let bounds = got-bounds bufsize old p back b four np in
            rw (read_into-part bufsize old p back b four np whole' e, read_loop)
              (rw (← (push-delivers rem ps later)) (
                read_loop-delivers fuel n (some (old ++ take (n - length old - 1) p)) (push rem ps)
                  later
                  (rw (push-delivers rem ps later)
                    (omega (arith, rounds-push_back rem (delivers ps later), bounds)))
                  (omega (arith, bounds)) (FirstFour-of_le _ (push rem ps) bounds.1)
                  (push-All rem ps ne) (rw (push-joined rem ps) e)
                  (rw (push-joined rem ps) (
                    regroup bufsize old p back b four np _ rem
                      (take-append-drop (n - length old - 1) p) whole'))))
      ]

-- A request that ends in `\n\n` or `\r\n\r\n`, and has neither in front of its end, is returned byte
-- for byte, however many pieces it arrives in, as long as the first has four bytes, none is empty,
-- the request has fewer than 2 ^ 31 - 2047 bytes, and there is memory for the sizes that an `int`
-- holds; what arrives later is not looked at.
pub read_request-joined :
    (realloc : ℕ → Bool) (p : Bytes) (ps : List Bytes) (later : List Event)
    → ((n : ℕ) → realloc n ≡ true)
    → length (joined (p ∷ ps)) + 2047 < 2 ^ 31
    → IsRequest (joined (p ∷ ps))
    → 4 ≤ length p
    → All (λ q. q ≢ []) ps
    → read_request realloc (delivers (p ∷ ps) later) ≡ buffer (joined (p ∷ ps))
unfolding read_request int_realloc
read_request-joined realloc p ps later memory short is four ne =
    let np = ne-nil_of_length p (omega arith) in
    read_loop-delivers (int_realloc realloc) (λ n l. ground (arith, memory n)) (joined (p ∷ ps))
      short is (rounds (delivers (p ∷ ps) later)) 0 none (p ∷ ps) later (omega arith) (omega arith)
      (omega arith) (np, ne)
      (ne-nil_of_length (p ++ joined ps) (omega (arith, length-append p (joined ps)))) refl
