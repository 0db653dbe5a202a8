-- ===== src/Request/Pieces.antt =====
-- worker.c: the pieces in which a request arrives, and what a whole request is.
use rblpolicyd.Prelude.{
  ℕ, zero, suc, ◌-◌, ◌∙◌, ◌<◌, ◌≡◌, codes, drop, length-append, Bool-cases, refl, ap, ◌≢◌, true,
  false, List, [], ◌∷◌, ◌++◌, Bytes, length, take, inl, inr, ◌⊎◌, arith, All,
}
use rblpolicyd.Request.{Event, arrived, equal, last, ends_request, push_back}

abbrev pub delivers : List Bytes → List Event → List Event
delivers [] later = later
delivers (p ∷ ps) later = arrived p ∷ delivers ps later

abbrev pub joined : List Bytes → Bytes
joined [] = []
joined (p ∷ ps) = p ++ joined ps

-- The two ends of a request.
abbrev pub Ends : Bytes → Type 0
Ends s = (front : Bytes) × ((s ≡ front ++ codes "\n\n") ⊎ (s ≡ front ++ codes "\r\n\r\n"))

-- The request ends like that, and no beginning of it does.
pub record IsRequest (request : Bytes) : Type 0 where
  pub ends : Ends request
  pub only : (front back : Bytes) → front ++ back ≡ request → back ≢ [] → ¬ Ends front

pub equal_sound : (s t : Bytes) → equal s t ≡ true → s ≡ t
unfolding equal
equal_sound [] [] e = refl
equal_sound [] (c ∷ t) e = absurd (ground (arith, e))
equal_sound (c ∷ s) [] e = absurd (ground (arith, e))
equal_sound (c ∷ s) (d ∷ t) e = ground (arith, e, equal_sound s t)

equal_refl : (s : Bytes) → equal s s ≡ true
unfolding equal
equal_refl [] = refl
equal_refl (c ∷ s) = ground (arith, equal_refl s)

take-drop : (n : ℕ) (s : Bytes) → s ≡ take n s ++ drop n s
take-drop zero s = refl
take-drop (suc n) [] = refl
take-drop (suc n) (c ∷ s) = ap (λ t. c ∷ t) (take-drop n s)

drop-append : (s t : Bytes) → drop (length s) (s ++ t) ≡ t
drop-append [] t = refl
drop-append (c ∷ s) t = drop-append s t

last-append : (front t : Bytes) → last (length t) (front ++ t) ≡ t
last-append front t =
    let n : length (front ++ t) - length t ≡ length front = omega (arith, length-append front t) in
    rw n (drop-append front t)

pub ends_request-Ends : (s : Bytes) → ends_request s ≡ true → Ends s
unfolding ends_request
ends_request-Ends s e = elim (Bool-cases (equal (last 2 s) (codes "\n\n"))) [
  | inl two ↦ (
    take (length s - 2) s,
    inl (
        take-drop (length s - 2) s
        ∙ ap (λ t. take (length s - 2) s ++ t) (equal_sound (last 2 s) (codes "\n\n") two)),
  )
  | inr other ↦
      let four : equal (last 4 s) (codes "\r\n\r\n") ≡ true = ground (arith, e, other) in
      (
        take (length s - 4) s,
        inr (
            take-drop (length s - 4) s
            ∙ ap (λ t. take (length s - 4) s ++ t)
                (equal_sound (last 4 s) (codes "\r\n\r\n") four)),
      )
]

pub Ends-ends_request : (s : Bytes) → Ends s → ends_request s ≡ true
unfolding ends_request
Ends-ends_request s (front, inl e) =
    let two : equal (last 2 s) (codes "\n\n") ≡ true =
      ap (λ t. equal (last 2 t) (codes "\n\n")) e
      ∙ ap (λ t. equal t (codes "\n\n")) (last-append front (codes "\n\n"))
      ∙ equal_refl (codes "\n\n") in
    ground (arith, two)
Ends-ends_request s (front, inr e) =
    let four : equal (last 4 s) (codes "\r\n\r\n") ≡ true =
      ap (λ t. equal (last 4 t) (codes "\r\n\r\n")) e
      ∙ ap (λ t. equal t (codes "\r\n\r\n")) (last-append front (codes "\r\n\r\n"))
      ∙ equal_refl (codes "\r\n\r\n") in
    ground (arith, four)

pub not-ends_request : (s : Bytes) → (¬ Ends s) → ends_request s ≡ false
not-ends_request s never = elim (Bool-cases (ends_request s)) [
  | inl e ↦ absurd (never (ends_request-Ends s e))
  | inr e ↦ e
]

pub push : Bytes → List Bytes → List Bytes
push [] ps = ps
push (c ∷ s) ps = (c ∷ s) ∷ ps

pub push-delivers :
    (s : Bytes) (ps : List Bytes) (later : List Event)
    → delivers (push s ps) later ≡ push_back s (delivers ps later)
unfolding push push_back
push-delivers [] ps later = refl
push-delivers (c ∷ s) ps later = refl

pub push-joined : (s : Bytes) (ps : List Bytes) → joined (push s ps) ≡ s ++ joined ps
unfolding push
push-joined [] ps = refl
push-joined (c ∷ s) ps = refl

pub push-All : (s : Bytes) (ps : List Bytes) → All (λ p. p ≢ []) ps → All (λ p. p ≢ []) (push s ps)
unfolding push
push-All [] ps h = h
push-All (c ∷ s) ps h = ((λ e. cc), h)

pub length-take-or : (n : ℕ) (s : Bytes) → (length (take n s) ≡ n) ⊎ (length (take n s) ≡ length s)
length-take-or zero s = inl refl
length-take-or (suc n) [] = inr refl
length-take-or (suc n) (c ∷ s) = elim (length-take-or n s) [
  | inl e ↦ inl (ap suc e)
  | inr e ↦ inr (ap suc e)
]

pub List-cases : (s : Bytes) → (s ≡ []) ⊎ (s ≢ [])
List-cases [] = inl refl
List-cases (c ∷ s) = inr (λ e. cc)

pub ne-nil_of_length : (s : Bytes) → 0 < length s → s ≢ []
ne-nil_of_length [] h = absurd (omega arith)
ne-nil_of_length (c ∷ s) h = λ e. cc

pub length_of_ne-nil : (s : Bytes) → s ≢ [] → 0 < length s
length_of_ne-nil [] h = absurd (h refl)
length_of_ne-nil (c ∷ s) h = omega arith

pub append-eq-nil : (s t : Bytes) → s ++ t ≡ [] → s ≡ []
append-eq-nil [] t e = refl
append-eq-nil (c ∷ s) t e = cc
