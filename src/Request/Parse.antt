-- ===== src/Request/Parse.antt =====
-- What `parse_request` returns.
use rblpolicyd.Prelude.{
  ℕ, suc, ◌+◌, ◌≤◌, ◌≡◌, refl, sym, ap, ◌∙◌, ◌≢◌, ◌↔◌, Bool, true, Option, none, some, [], ◌∷◌,
  ◌++◌, Bytes, length, ◌==◌, Bool-cases, Option-cases, inl, inr, ◌⊎◌, arith, All,
}
use rblpolicyd.Request.{strip, behind, up_to, pattern, value_of, copied, address_in, parse_request}

abbrev pub Without : ℕ → Bytes → Type 0
Without c = All (λ d. d ≢ c)

strip_sound : (p s t : Bytes) → strip p s ≡ some t → s ≡ p ++ t
unfolding strip
strip_sound [] s t e = ground arith
strip_sound (p ∷ ps) [] t e = cc
strip_sound (p ∷ ps) (c ∷ s) t e = ground (arith, strip_sound ps s t)

strip_complete : (p t : Bytes) → strip p (p ++ t) ≡ some t
unfolding strip
strip_complete [] t = refl
strip_complete (p ∷ ps) t = ground (arith, strip_complete ps t)

-- Where `pattern` first stands in `s`: behind `pre`, and nowhere before that.
pub record Finds (p s pre rest : Bytes) : Type 0 where
  pub splits : s ≡ pre ++ (p ++ rest)
  pub first : (front back : Bytes) → s ≡ front ++ (p ++ back) → length pre ≤ length front

pub behind_sound : (p s : Bytes) {t : Bytes} → behind p s ≡ some t → (pre : Bytes) × Finds p s pre t
unfolding behind
behind_sound p [] {t} e =
    ([], record { splits = strip_sound p [] t e; first = λ front back h. omega arith })
behind_sound p (c ∷ s) {t} e = elim (Option-cases (strip p (c ∷ s))) [
  | inl miss ↦
      let (pre, f) = behind_sound p s (rw (miss, behind) at e) in
      (c ∷ pre, record { splits = ap (◌∷◌ c) f.splits; first = later c s pre miss f.first })
  | inr (u, hit) ↦
      let e' : u ≡ t = cc (rw (hit, behind) at e) in
      (
        [],
        record {
          splits = strip_sound p (c ∷ s) t (hit ∙ ap some e');
          first = λ front back h. omega arith;
        },
      )
]
  where
    later :
        (d : ℕ) (u pre : Bytes)
        → strip p (d ∷ u) ≡ none
        → ((front back : Bytes) → u ≡ front ++ (p ++ back) → length pre ≤ length front)
        → (front back : Bytes) → (d ∷ u) ≡ front ++ (p ++ back)
        → suc (length pre) ≤ length front
    later d u pre miss first [] back h = cc (h, strip_complete p back, ap (strip p) h)
    later d u pre miss first (x ∷ front) back h = omega (arith, first front back (cc))

behind_here : (p s : Bytes) {t : Bytes} → strip p s ≡ some t → behind p s ≡ some t
unfolding behind
behind_here p [] e = e
behind_here p (c ∷ s) e = rw (e, behind)

behind_miss :
    (p : Bytes) (c : ℕ) (s : Bytes) → strip p (c ∷ s) ≡ none → behind p (c ∷ s) ≡ behind p s
unfolding behind
behind_miss p c s miss = rw (miss, behind)

behind_complete : (p s pre rest : Bytes) → Finds p s pre rest → behind p s ≡ some rest
behind_complete p s [] rest f = behind_here p s (rw f.splits (strip_complete p rest))
behind_complete p [] (x ∷ pre) rest f = cc (f.splits)
behind_complete p (c ∷ s) (x ∷ pre) rest f = elim (Option-cases (strip p (c ∷ s))) [
  | inl miss ↦
      let tail_eq : s ≡ pre ++ (p ++ rest) = cc (f.splits) in
      let ih = behind_complete p s pre rest (record {
        splits = tail_eq;
        first = λ front back h. omega (arith, f.first (c ∷ front) back (ap (◌∷◌ c) h));
      }) in
      behind_miss p c s miss ∙ ih
  | inr (u, hit) ↦ absurd (omega (arith, f.first [] u (strip_sound p (c ∷ s) u hit)))
]

up_to_sound :
    (c : ℕ) (s v : Bytes)
    → up_to c s ≡ some v
    → (post : Bytes) × (s ≡ v ++ (c ∷ post)) × Without c v
unfolding up_to
up_to_sound c [] v e = cc
up_to_sound c (d ∷ s) v e = elim (Bool-cases (d == c)) [
  | inl hit ↦ let at_end : v ≡ [] = ground arith in (s, rw at_end (ground arith), rw at_end tt)
  | inr miss ↦ elim (Option-cases (up_to c s)) [
    | inl gone ↦ ground arith
    | inr (w, found) ↦
        let longer : v ≡ d ∷ w = ground arith in
        let (post, split, out) = up_to_sound c s w found in
        (post, rw longer (ap (◌∷◌ d) split), rw longer (ground arith, out))
  ]
]

up_to_complete : (c : ℕ) (v post : Bytes) → Without c v → up_to c (v ++ (c ∷ post)) ≡ some v
unfolding up_to
up_to_complete c [] post h = ground arith
up_to_complete c (d ∷ v) post h = ground (arith, up_to_complete c v post h.1)

up_to-none : (c : ℕ) (s : Bytes) → (up_to c s ≡ none) ↔ Without c s
unfolding up_to
up_to-none c [] = (λ e. tt, λ h. refl)
up_to-none c (d ∷ s) = ground (arith, up_to-none c s)

-- The value that begins at `rest`: up to the first carriage return, and where there is none up to the
-- first newline.
abbrev pub IsValue : Bytes → Bytes → Type 0
IsValue rest v =
    ((post : Bytes) × (rest ≡ v ++ (b'\r' ∷ post)) × Without b'\r' v)
    ⊎ (Without b'\r' rest × ((post : Bytes) × (rest ≡ v ++ (b'\n' ∷ post)) × Without b'\n' v))

value_of-IsValue : (rest v : Bytes) → (value_of rest ≡ some v) ↔ IsValue rest v
unfolding value_of
value_of-IsValue rest v = elim (Option-cases (up_to b'\r' rest)) [
  | inl gone ↦ (
    λ e. inr ((up_to-none b'\r' rest).0 gone, up_to_sound b'\n' rest v (rw (gone, value_of) at e)),
    elim [
      | inl (post, split, out) ↦ cc (gone, ap (up_to b'\r') split, up_to_complete b'\r' v post out)
      | inr (none_there, (post, split, out)) ↦
          rw (gone, value_of) (ap (up_to b'\n') split ∙ up_to_complete b'\n' v post out)
    ],
  )
  | inr (w, found) ↦ (
    λ e. inl (up_to_sound b'\r' rest v (found ∙ (rw (found, value_of) at e))),
    elim [
      | inl (post, split, out) ↦
          rw (found, value_of)
            (sym found ∙ ap (up_to b'\r') split ∙ up_to_complete b'\r' v post out)
      | inr (none_there, _) ↦ cc (found, (up_to-none b'\r' rest).1 none_there)
    ],
  )
]

-- The request names `v` as the client address.
pub record Names (malloc : ℕ → Bool) (request v : Bytes) : Type 0 where
  pub pre : Bytes
  pub rest : Bytes
  pub finds : Finds pattern request pre rest
  pub value : IsValue rest v
  pub memory : malloc (length v + 1) ≡ true

copied_iff :
    (malloc : ℕ → Bool) (o : Option Bytes) (v : Bytes)
    → (copied malloc o ≡ some v) ↔ ((o ≡ some v) × (malloc (length v + 1) ≡ true))
unfolding copied
copied_iff malloc none v = (λ e. cc, λ h. cc)
copied_iff malloc (some w) v = (λ e. (ground arith, ground arith), λ h. ground arith)

-- `parse_request` returns `v` exactly when the request holds `client_address=`, `v` is the text behind
-- the first such place up to the first carriage return behind it or, where there is none in the rest
-- of the request, up to the first newline, and memory for it is there.
pub parse_request_iff :
    (malloc : ℕ → Bool) (request v : Bytes)
    → (parse_request malloc request ≡ some v) ↔ Names malloc request v
unfolding parse_request
parse_request_iff malloc request v = (sound, complete)
  where
    sound : address_in malloc (behind pattern request) ≡ some v → Names malloc request v
    sound e = elim (Option-cases (behind pattern request)) [
      | inl gone ↦ unfold address_in in cc (rw gone at e)
      | inr (rest, found) ↦
          let (pre, f) = behind_sound pattern request found in
          let (value, memory) =
            (copied_iff malloc (value_of rest) v).0 (unfold address_in in rw found at e) in
          record {
            pre = pre;
            rest = rest;
            finds = f;
            value = (value_of-IsValue rest v).0 value;
            memory = memory;
          }
    ]

    complete : Names malloc request v → address_in malloc (behind pattern request) ≡ some v
    complete n = rw (behind_complete pattern request n.pre n.rest n.finds) (
        unfold address_in in
        (copied_iff malloc (value_of n.rest) v).1 ((value_of-IsValue n.rest v).1 n.value, n.memory))
