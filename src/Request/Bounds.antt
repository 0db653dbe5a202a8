-- ===== src/Request/Bounds.antt =====
-- The loop of `read_request`: it ends, and it stays within its buffer once four bytes are read.
use rblpolicyd.Prelude.{
  ℕ, zero, suc, ◌+◌, ◌-◌, ◌≤◌, ◌<◌, ◌≡◌, refl, ap, ◌∙◌, ◌≢◌, Bool, true, false, Option, none, some,
  List, [], ◌∷◌, ◌++◌, Bytes, length, take, drop, length-append, length-take, length-take-drop,
  take-all, append_assoc, ◌↔◌, inl, inr, ◌⊎◌, arith,
}
use rblpolicyd.Request.{
  Event, select_error, timeout, read_error, arrived, Reading, fault, out_of_fuel, chunk, Round,
  stop, more, received, read_into, ends_request, returned, grown, push_back, read_loop, rounds,
  read_request, int_realloc,
}

pub rounds-push_back :
    (s : Bytes) (conn : List Event) → rounds (push_back s conn) ≤ suc (length s + rounds conn)
unfolding push_back
rounds-push_back [] conn = omega arith
rounds-push_back (c ∷ s) conn = omega arith

returned-ends : (buf : Option Bytes) → (returned buf ≢ out_of_fuel) × (returned buf ≢ fault)
unfolding returned
returned-ends none = (cc, cc)
returned-ends (some s) = (cc, cc)

-- What is left of an arrival when the loop goes on, and what the loop then holds.
pub record Progress (old s : Bytes) (size : ℕ) (r : Round) : Type 0 where
  pub goes_on :
      (size' : ℕ) (new left : Bytes)
      → r ≡ more size' new left
      → (size' ≡ size)
        × (length left < length s)
        × (length new < size)
        × (4 ≤ length new)
        × (new ++ left ≡ old ++ s)
        × (ends_request new ≡ false)
  pub ends : r ≢ stop out_of_fuel
  pub safe : 4 ≤ length old → r ≢ stop fault

pub take-append-drop : (n : ℕ) (s : Bytes) → take n s ++ drop n s ≡ s
take-append-drop zero s = refl
take-append-drop (suc n) [] = refl
take-append-drop (suc n) (c ∷ s) = ap (◌∷◌ c) (take-append-drop n s)

received-Progress :
    (realloc : ℕ → Bool) (bufsize size : ℕ) (old s got left : Bytes)
    → length old + length got < size
    → got ++ left ≡ s
    → length got + length left ≡ length s
    → Progress old s size (received realloc bufsize size old got left)
unfolding received
received-Progress realloc bufsize size old s got left fits e n = record {
  goes_on = λ size' new left' q. (
    ground (arith, length-append old got),
    ground (arith, length-append old got),
    ground (arith, length-append old got),
    ground (arith, length-append old got),
    ground (arith, append_assoc old got left),
    ground (arith, length-append old got),
  );
  ends = ground arith;
  safe = λ h. ground (arith, length-append old got);
}

pub grown-fits : (bufsize bread : ℕ) → bread ≤ bufsize → chunk + bread ≤ grown bufsize bread
unfolding grown
grown-fits bufsize bread h = ground arith

read_into-Progress :
    (realloc : ℕ → Bool) (bufsize : ℕ) (old s : Bytes)
    → length old ≤ bufsize
    → Progress old s
        (grown bufsize (length old))
        (read_into realloc bufsize (grown bufsize (length old)) old s)
unfolding read_into
read_into-Progress realloc bufsize old s h =
    let size = grown bufsize (length old) in
    let space = size - length old - 1 in
    received-Progress realloc bufsize size old s (take space s) (drop space s)
      (omega (arith, grown-fits bufsize (length old) h, length-take space s))
      (take-append-drop space s) (length-take-drop space s)

Round-cases :
    (r : Round)
    → ((x : Reading) × (r ≡ stop x))
      ⊎ ((n : ℕ) × (new : Bytes) × (left : Bytes) × (r ≡ more n new left))
Round-cases (stop x) = inl (x, refl)
Round-cases (more n new left) = inr (n, new, left, refl)

read_loop-ne-fault :
    (realloc : ℕ → Bool) (fuel bufsize : ℕ) (buf : Bytes) (conn : List Event)
    → 4 ≤ length buf
    → length buf ≤ bufsize
    → read_loop realloc fuel bufsize (some buf) conn ≢ fault
unfolding read_loop
read_loop-ne-fault realloc zero bufsize buf conn h f = cc
read_loop-ne-fault realloc (suc fuel) bufsize buf [] h f = (returned-ends (some buf)).1
read_loop-ne-fault realloc (suc fuel) bufsize buf (select_error ∷ conn) h f = cc
read_loop-ne-fault realloc (suc fuel) bufsize buf (timeout ∷ conn) h f =
    (returned-ends (some buf)).1
read_loop-ne-fault realloc (suc fuel) bufsize buf (read_error ∷ conn) h f = ground arith
read_loop-ne-fault realloc (suc fuel) bufsize buf (arrived s ∷ conn) h f =
    let p = read_into-Progress realloc bufsize buf s f in
    elim (Round-cases (read_into realloc bufsize (grown bufsize (length buf)) buf s)) [
      | inl (x, e) ↦ rw (e, read_loop) (λ q. p.safe h (e ∙ ap stop q))
      | inr (n, new, left, e) ↦
          let g = p.goes_on n new left e in
          rw (e, read_loop)
            (read_loop-ne-fault realloc fuel n new (push_back left conn) (omega arith)
              (omega arith))
    ]

-- The first read brings one to three bytes, and there is memory for the first buffer.
abbrev pub StartsShort : (realloc : ℕ → Bool) → List Event → Type 0
StartsShort realloc (arrived s ∷ conn) = (0 < length s) × (length s < 4) × (realloc chunk ≡ true)
StartsShort realloc _ = ⊥

-- The first round: the read has room for 1023 bytes.
received_first :
    (realloc : ℕ → Bool) (s got left : Bytes)
    → length got + length left ≡ length s
    → length got < chunk
    → (length got < 4 → got ≡ s)
    → (received realloc 0 chunk [] got left ≡ stop fault) ↔ StartsShort realloc (arrived s ∷ [])
unfolding received
received_first realloc s got left n f whole = (λ e. ground arith, λ h. ground arith)

-- With room for 1023 bytes, a read of fewer takes all that arrived.
read_first :
    (realloc : ℕ → Bool) (s : Bytes)
    → (read_into realloc 0 chunk [] s ≡ stop fault) ↔ StartsShort realloc (arrived s ∷ [])
unfolding read_into
read_first realloc s =
    let space : ℕ = chunk - 1 in
    received_first realloc s (take space s) (drop space s) (length-take-drop space s)
      (omega (arith, length-take space s))
      (λ h. take-all space s (short_take space s (omega arith)))
  where
    short_take : (n : ℕ) (t : Bytes) → length (take n t) < n → length t ≤ n
    short_take zero t h = absurd (omega arith)
    short_take (suc n) [] h = omega arith
    short_take (suc n) (c ∷ t) h = omega (arith, short_take n t (omega arith))

module _ (realloc : ℕ → Bool) (s : Bytes) (conn : List Event) where
  first_round-fault :
      (fuel : ℕ)
      → StartsShort realloc (arrived s ∷ conn)
      → read_loop realloc (suc fuel) 0 none (arrived s ∷ conn) ≡ fault
  unfolding read_loop grown
  first_round-fault fuel h = rw ((read_first realloc s).1 h, read_loop)

  first_round-StartsShort :
      (fuel : ℕ)
      → read_loop realloc (suc fuel) 0 none (arrived s ∷ conn) ≡ fault
      → StartsShort realloc (arrived s ∷ conn)
  unfolding read_loop grown
  first_round-StartsShort fuel q = elim (Round-cases (read_into realloc 0 chunk [] s)) [
    | inl (x, e) ↦ (read_first realloc s).0 (e ∙ ap stop (rw (e, read_loop) at q))
    | inr (n, new, left, e) ↦
        let g = (read_into-Progress realloc 0 [] s (omega arith)).goes_on n new left e in
        absurd (
          read_loop-ne-fault realloc fuel n new (push_back left conn) (omega arith) (omega arith)
            (rw (e, read_loop) at q))
  ]

module _ (realloc : ℕ → Bool) where
  loop-fault_iff :
      (conn : List Event)
      → (read_loop realloc (rounds conn) 0 none conn ≡ fault) ↔ StartsShort realloc conn
  loop-fault_iff [] = unfold read_loop in (λ e. absurd ((returned-ends none).1 e), λ h. absurd h)
  loop-fault_iff (select_error ∷ conn) = unfold read_loop in (λ e. cc, λ h. absurd h)
  loop-fault_iff (timeout ∷ conn) =
      unfold read_loop in (λ e. absurd ((returned-ends none).1 e), λ h. absurd h)
  loop-fault_iff (read_error ∷ conn) = unfold read_loop in (λ e. ground arith, λ h. absurd h)
  loop-fault_iff (arrived s ∷ conn) =
      (first_round-StartsShort realloc s conn _, first_round-fault realloc s conn _)

  -- The first buffer is within the sizes that an `int` holds.
  int_realloc-StartsShort :
      (conn : List Event) → StartsShort (int_realloc realloc) conn ↔ StartsShort realloc conn
  unfolding int_realloc
  int_realloc-StartsShort [] = ((λ h. h), λ h. h)
  int_realloc-StartsShort (select_error ∷ conn) = ((λ h. h), λ h. h)
  int_realloc-StartsShort (timeout ∷ conn) = ((λ h. h), λ h. h)
  int_realloc-StartsShort (read_error ∷ conn) = ((λ h. h), λ h. h)
  int_realloc-StartsShort (arrived s ∷ conn) = ((λ h. ground (arith, h)), λ h. ground (arith, h))

-- `read_request` leaves its buffer exactly when the first read brings one to three bytes (and memory
-- for the first buffer is there): the test for four bytes at the end then looks in front of the
-- buffer. On all other connections every access stays inside, however the bytes arrive.
pub read_request-fault_iff :
    (realloc : ℕ → Bool) (conn : List Event)
    → (read_request realloc conn ≡ fault) ↔ StartsShort realloc conn
unfolding read_request
read_request-fault_iff realloc conn =
    let (to, from) = loop-fault_iff (int_realloc realloc) conn in
    let (less, back) = int_realloc-StartsShort realloc conn in
    ((λ e. less (to e)), λ h. from (back h))
