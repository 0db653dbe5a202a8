-- ===== src/Prelude/Lists.antt =====
-- Lists measured by native numbers, predicates on their elements, and texts as code points.
use Prim.Native.Nat.{ℕ, zero, suc, ◌+◌, ◌≤◌}
use Prim.Native.Char.{code}
use Prim.Native.String.{String}
use mathlib.Core.Path.{◌≡◌, refl, ap}
use mathlib.Core.List.{List, [], ◌∷◌, ◌++◌}
use native.Mathlib.Omega.{arith}

-- A C string, or the contents of a file or a buffer: one number for each byte.
abbrev pub Bytes : Type 0
Bytes = List ℕ

-- The code points of a text: its bytes, since every literal here is ASCII.
abbrev pub codes : String → Bytes
codes String.[] = []
codes (String.◌∷◌ c s) = code c ∷ codes s

module _ {ℓ} {A : Type ℓ} where
  abbrev pub length : List A → ℕ
  length [] = 0
  length (x ∷ xs) = suc (length xs)

  abbrev pub take : ℕ → List A → List A
  take zero xs = []
  take (suc n) [] = []
  take (suc n) (x ∷ xs) = x ∷ take n xs

  abbrev pub drop : ℕ → List A → List A
  drop zero xs = xs
  drop (suc n) [] = []
  drop (suc n) (x ∷ xs) = drop n xs

  pub length-append : (xs ys : List A) → length (xs ++ ys) ≡ length xs + length ys
  length-append [] ys = omega arith
  length-append (x ∷ xs) ys = omega (arith, length-append xs ys)

module _ {ℓ} {A : Type ℓ} where
  pub length-take : (n : ℕ) (s : List A) → length (take n s) ≤ n
  length-take zero s = omega arith
  length-take (suc n) [] = omega arith
  length-take (suc n) (c ∷ s) = omega (arith, length-take n s)

  pub length-take-drop : (n : ℕ) (s : List A) → length (take n s) + length (drop n s) ≡ length s
  length-take-drop zero s = omega arith
  length-take-drop (suc n) [] = refl
  length-take-drop (suc n) (c ∷ s) = omega (arith, length-take-drop n s)

  pub take-all : (n : ℕ) (s : List A) → length s ≤ n → take n s ≡ s
  take-all zero [] h = refl
  take-all zero (c ∷ s) h = absurd (omega (arith, h))
  take-all (suc n) [] h = refl
  take-all (suc n) (c ∷ s) h = ap (◌∷◌ c) (take-all n s (omega (arith, h)))

-- A predicate by recursion computes to tuples, which the tactics read and build.
abbrev pub All {ℓ κ} : {A : Type ℓ} → (A → Type κ) → List A → Type κ
All P [] = Unit
All P (x ∷ xs) = P x × All P xs

pub All-append {ℓ κ} :
    {A : Type ℓ} (P : A → Type κ) (xs ys : List A) → All P xs → All P ys → All P (xs ++ ys)
All-append P [] ys hx hy = hy
All-append P (x ∷ xs) ys hx hy = (hx.0, All-append P xs ys hx.1 hy)
