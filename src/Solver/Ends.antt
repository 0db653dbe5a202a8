-- ===== src/Solver/Ends.antt =====
-- The lookup ends where the resolver is content with some buffer.
use native.Mathlib.Nat.{pow-suc}
use rblpolicyd.Prelude.{
  ℕ, zero, suc, ◌+◌, ◌*◌, ◌^◌, ◌<◌, ◌≡◌, refl, ◌↔◌, inl, inr, true, Option, none, some, List, [],
  ◌∷◌, Bytes, All, Bool-cases, arith,
}
use rblpolicyd.Address.RoundTrip.{IsInAddr, is_listed_iff}
use rblpolicyd.Address.{InAddr, is_listed}
use rblpolicyd.CfgFile.{CfgItem}
use rblpolicyd.Solver.{
  Hostent, Lookup, erange, answer, lookup_loop, any_listed, found_in, score_of, scored, solver_th,
}

-- `gethostbyname_r` refuses the first `k` buffer sizes as too small, and answers `hp` at the next.
pub record AnswersAt (resolver : Bytes → ℕ → Lookup) (hostname : Bytes) (k : ℕ)
    (hp : Option Hostent) : Type 0 where
  pub small : (j : ℕ) → j < k → resolver hostname (1024 * 2 ^ j) ≡ erange
  pub enough : resolver hostname (1024 * 2 ^ k) ≡ answer hp

lookup_loop-from :
    (resolver : Bytes → ℕ → Lookup) (hostname : Bytes) (hp : Option Hostent) (left i fuel size : ℕ)
    → AnswersAt resolver hostname (i + left) hp
    → size ≡ 1024 * 2 ^ i
    → left < fuel
    → lookup_loop resolver fuel size hostname ≡ some hp
unfolding lookup_loop
lookup_loop-from resolver hostname hp left i zero size a e f = elim f [ ]
lookup_loop-from resolver hostname hp zero i (suc fuel) size a e f =
    let at_i : i + 0 ≡ i = omega arith in rw (e, (rw at_i at a.enough), lookup_loop)
lookup_loop-from resolver hostname hp (suc left) i (suc fuel) size a e f =
    let moved : i + suc left ≡ suc i + left = omega arith in
    let doubled : size * 2 ≡ 1024 * 2 ^ suc i = rw pow-suc (omega arith) in
    let ih =
      lookup_loop-from resolver hostname hp left (suc i) fuel (size * 2) (rw moved at a) doubled
        (omega arith) in
    let here : resolver hostname size ≡ erange = rw e (a.small i (omega arith)) in
    rw (here, lookup_loop) ih

-- an address that counts is among them
pub data Lists127 : List InAddr → Type 0 where
  here : {a : InAddr} {rest : List InAddr} → a.b1 ≡ 127 → Lists127 (a ∷ rest)
  later : {a : InAddr} {rest : List InAddr} → Lists127 rest → Lists127 (a ∷ rest)

-- The answer is of IPv4 addresses, one of them in 127.0.0.0/8.
abbrev pub Says127 : Option Hostent → Type 0
Says127 none = ⊥
Says127 (some hp) = (hp.is_inet ≡ true) × Lists127 hp.addr_list

abbrev HasBytes : Option Hostent → Type 0
HasBytes none = Unit
HasBytes (some hp) = All IsInAddr hp.addr_list

Lists127-head :
    {a : InAddr} {rest : List InAddr} → ¬ (a.b1 ≡ 127) → Lists127 (a ∷ rest) → Lists127 rest
Lists127-head miss (here e) = absurd (miss e)
Lists127-head miss (later l) = l

not-Lists127-nil : ¬ Lists127 []
not-Lists127-nil l = go l refl
  where
    go : {xs : List InAddr} → Lists127 xs → xs ≡ [] → ⊥
    go (here e) q = cc
    go (later l) q = cc

any_listed_iff : (l : List InAddr) → All IsInAddr l → (any_listed l ≡ true) ↔ Lists127 l
unfolding any_listed
any_listed_iff [] h = (λ e. cc, λ l. absurd (not-Lists127-nil l))
any_listed_iff (a ∷ rest) (h, hs) =
    let (sound, complete) = any_listed_iff rest hs in
    let (is_127, of_127) = is_listed_iff a h in
    elim (Bool-cases (is_listed a)) [
      | inl hit ↦ (λ e. here (is_127 hit), λ l. rw hit)
      | inr miss ↦ (
        λ e. later (sound (rw miss at e)),
        λ l. rw miss (complete (Lists127-head (λ e. cc (miss, of_127 e)) l)),
      )
    ]

found_in_iff : (hp : Option Hostent) → HasBytes hp → (found_in hp ≡ true) ↔ Says127 hp
unfolding found_in
found_in_iff none h = (λ e. cc, λ l. absurd l)
found_in_iff (some hp) h = elim (Bool-cases hp.is_inet) [
  | inl v4 ↦
      let (sound, complete) = any_listed_iff hp.addr_list h in
      (λ e. (v4, sound (rw v4 at e)), λ l. rw v4 (complete l.1))
  | inr v6 ↦ (λ e. cc (rw v6 at e), λ l. cc (v6, l.0))
]

-- If the resolver is content with a buffer of 1024 * 2 ^ k bytes and the loop may make k + 1 rounds,
-- then `solver_th` ends. The score it leaves is the blacklist's weight if the answer is of IPv4
-- addresses with one in 127.0.0.0/8, and otherwise 0.
pub solver_th_lem :
    (resolver : Bytes → ℕ → Lookup) (fuel k : ℕ) (hostname : Bytes) (rblitem : CfgItem)
    (hp : Option Hostent)
    → AnswersAt resolver hostname k hp
    → k < fuel
    → HasBytes hp
    → (Says127 hp → solver_th resolver fuel hostname rblitem ≡ some rblitem.weight)
      × (¬ Says127 hp → solver_th resolver fuel hostname rblitem ≡ some 0)
unfolding solver_th
solver_th_lem resolver fuel k hostname rblitem hp a f h =
    let zero_k : 0 + k ≡ k = omega arith in
    let ends = lookup_loop-from resolver hostname hp k 0 fuel 1024 (rw zero_k a) (refl) f in
    let (sound, complete) = found_in_iff hp h in
    (
      λ says. rw ends (unfold scored score_of in rw (complete says)),
      λ silent. rw ends (
          unfold scored score_of in
          elim (Bool-cases (found_in hp)) [ inl e ↦ absurd (silent (sound e)) | inr e ↦ rw e ]),
    )
