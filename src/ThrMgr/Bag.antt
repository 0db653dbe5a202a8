-- ===== src/ThrMgr/Bag.antt =====
-- thrmgr.c: what a manager promises, as a bag of threads: which threads are registered, and how often,
-- but neither the order of the list nor where its nodes are.
use mathlib.Core.Quot
use mathlib.Core.Quot.{Quot, Quot-set}
use native.Mathlib.Nat.{ℕ_set}
use rblpolicyd.Prelude.{
  ℕ, ◌+◌, ◌-◌, ◌≤◌, ◌≡◌, ◌≢◌, refl, sym, ap, ◌∙◌, false, List, [], ◌∷◌, length, ltb, ◌==◌,
  if◌then◌else◌, arith,
}
use rblpolicyd.ThrMgr.Members.{without}

abbrev pub count : ℕ → List ℕ → ℕ
count t [] = 0
count t (u ∷ us) = (if u == t then 1 else 0) + count t us

-- the same threads, as often
pub record IsSameBag (ts us : List ℕ) : Type 0 where
  pub counts : (t : ℕ) → count t ts ≡ count t us
  pub sizes : length ts ≡ length us

abbrev pub Bag : Type 0
Bag = Quot IsSameBag

unfoldable pub times : ℕ → Bag → ℕ
times t = Quot.lift ℕ_set (count t) (λ ts us same. same.counts t)

unfoldable pub size : Bag → ℕ
size = Quot.lift ℕ_set length (λ ts us same. same.sizes)

unfoldable pub insert : ℕ → Bag → Bag
insert t =
    Quot.lift Quot-set (λ ts. Quot.mk (t ∷ ts))
      (λ ts us same.
        Quot.sound (record {
          counts = λ u. omega (arith, same.counts u);
          sizes = omega (arith, same.sizes);
        }))

count-without :
    (t u : ℕ) (ts : List ℕ) → count u (without t ts) ≡ count u ts - (if t == u then 1 else 0)
count-without t u [] = ground arith
count-without t u (v ∷ ts) = ground (arith, count-without t u ts)

count_le : (t : ℕ) (ts : List ℕ) → count t ts ≤ length ts
count_le t [] = omega arith
count_le t (v ∷ ts) = ground (arith, count_le t ts)

length-without :
    (t : ℕ) (ts : List ℕ)
    → length (without t ts) ≡ length ts - (if ltb 0 (count t ts) then 1 else 0)
length-without t [] = ground arith
length-without t (v ∷ ts) = ground (arith, length-without t ts, count_le t ts)

pub without-IsSameBag :
    (t : ℕ) (ts us : List ℕ) → IsSameBag ts us → IsSameBag (without t ts) (without t us)
without-IsSameBag t ts us same = record {
  counts = λ u. omega (arith, count-without t u ts, count-without t u us, same.counts u);
  sizes = ground (arith, length-without t ts, length-without t us, same.counts t, same.sizes);
}

unfoldable pub remove : ℕ → Bag → Bag
remove t =
    Quot.lift Quot-set (λ ts. Quot.mk (without t ts))
      (λ ts us same. Quot.sound (without-IsSameBag t ts us same))

-- A registration, or the end of a registration, of a thread.
pub data ListCall : Type 0 where
  register : ℕ → ListCall
  unregister : ℕ → ListCall

abbrev pub caller : ListCall → ℕ
caller (register t) = t
caller (unregister t) = t

unfoldable pub apply : ListCall → Bag → Bag
apply (register t) b = insert t b
apply (unregister t) b = remove t b

-- the threads that are registered behind the calls, the latest in front
unfoldable pub registered : List ListCall → Bag
registered [] = Quot.mk []
registered (c ∷ cs) = apply c (registered cs)

unfoldable pub on : ListCall → List ℕ → List ℕ
on (register t) ts = t ∷ ts
on (unregister t) ts = without t ts

pub apply-mk : (c : ListCall) (ts : List ℕ) → apply c (Quot.mk ts) ≡ Quot.mk (on c ts)
unfolding apply insert remove on
apply-mk (register t) ts = refl
apply-mk (unregister t) ts = refl

IsSameBag-refl : (ts : List ℕ) → IsSameBag ts ts
IsSameBag-refl ts = record { counts = λ t. refl; sizes = refl }

on_comm :
    (c d : ListCall) (ts : List ℕ)
    → caller c ≢ caller d
    → IsSameBag (on c (on d ts)) (on d (on c ts))
unfolding on
on_comm (register t) (register u) ts ne = record { counts = λ v. omega arith; sizes = refl }
on_comm (register t) (unregister u) ts ne =
    let other : (t == u) ≡ false = ground (arith, ne) in
    rw other (IsSameBag-refl (t ∷ without u ts))
on_comm (unregister t) (register u) ts ne =
    let other : (u == t) ≡ false = ground (arith, ne) in
    rw other (IsSameBag-refl (u ∷ without t ts))
on_comm (unregister t) (unregister u) ts ne = record {
  counts = λ v. omega (
    arith,
    count-without t v (without u ts),
    count-without u v ts,
    count-without u v (without t ts),
    count-without t v ts,
  );
  sizes = ground (
    arith,
    ne,
    length-without t (without u ts),
    length-without u ts,
    length-without u (without t ts),
    length-without t ts,
    count-without u t ts,
    count-without t u ts,
  );
}

-- Calls for different threads can change places.
apply_comm :
    (c d : ListCall) → caller c ≢ caller d → (b : Bag) → apply c (apply d b) ≡ apply d (apply c b)
apply_comm c d ne =
    Quot.ind (λ b. Quot-set _ _)
      (λ ts.
        ap (apply c) (apply-mk d ts)
        ∙ apply-mk c (on d ts)
        ∙ Quot.sound (on_comm c d ts ne)
        ∙ sym (apply-mk d (on c ts))
        ∙ sym (ap (apply d) (apply-mk c ts)))

-- The same calls of each thread, in the same order; those of different threads in any order.
pub data Reordered : List ListCall → List ListCall → Type 0 where
  same : {cs : List ListCall} → Reordered cs cs
  swap :
      {c d : ListCall} {cs : List ListCall}
      → caller c ≢ caller d
      → Reordered (c ∷ d ∷ cs) (d ∷ c ∷ cs)
  deeper : {c : ListCall} {cs ds : List ListCall} → Reordered cs ds → Reordered (c ∷ cs) (c ∷ ds)
  through : {cs ds es : List ListCall} → Reordered cs ds → Reordered ds es → Reordered cs es

pub registered-Reordered : {cs ds : List ListCall} → Reordered cs ds → registered cs ≡ registered ds
unfolding registered
registered-Reordered same = refl
registered-Reordered (swap {c} {d} {cs} ne) = apply_comm c d ne (registered cs)
registered-Reordered (deeper {c} r) = ap (apply c) (registered-Reordered r)
registered-Reordered (through r r') = registered-Reordered r ∙ registered-Reordered r'
