-- ===== src/CfgList/Freed.antt =====
-- `cfg_free` frees a list.
use rblpolicyd.Prelude.{
  ℕ, zero, suc, ◌<◌, ◌≡◌, ◌≢◌, refl, ◌∙◌, Bool, true, false, ◌||◌, none, some, List, [], ◌∷◌,
  length, Bool-cases, inl, inr, ◌==◌, arith,
}
use rblpolicyd.CfgList.{Block, item, text, Blocks, freed, emptied, free, free_item, cfg_free}

-- the items of a list, each with its domain, and which addresses they take
abbrev Items : Type 0
Items = List (ℕ × ℕ)

abbrev pub takes : ℕ → Items → Bool
takes a [] = false
takes a ((p, d) ∷ xs) = (a == p) || (a == d) || takes a xs

-- Items and domains in blocks of their own, linked from `p` to NULL.
pub data Owned (h : Blocks) : ℕ → Items → Type 0 where
  nil : {p : ℕ} → p ≡ 0 → Owned h p []
  cons :
      {p d q : ℕ} {xs : Items}
      → p ≢ 0
      → d ≢ 0
      → p ≢ d
      → h p ≡ some (item d q)
      → h d ≡ some text
      → takes p xs ≡ false
      → takes d xs ≡ false
      → Owned h q xs
      → Owned h p ((p, d) ∷ xs)

frame :
    {h g : Blocks} {p : ℕ} {xs : Items}
    → Owned h p xs
    → ((a : ℕ) → takes a xs ≡ true → g a ≡ h a)
    → Owned g p xs
frame (nil e) same = nil e
frame (cons {p} {d} np nd apart at dt po dout o) same =
    cons np nd apart (ground (arith, same p)) (ground (arith, same d)) po dout
      (frame o λ a i. same a (ground arith))

free-at : (h : Blocks) (p : ℕ) (b : Block) → h p ≡ some b → free h p ≡ some (emptied h p)
unfolding free
free-at h p b at = rw (free, at) refl

free_item-both :
    (h : Blocks) {p d q : ℕ}
    → d ≢ 0
    → p ≢ d
    → h p ≡ some (item d q)
    → h d ≡ some text
    → free_item h p d ≡ some (emptied (emptied h d) p)
unfolding free_item
free_item-both h {p} {d} {q} nd apart at dt =
    let real : (d == 0) ≡ false = ground arith in
    let still : emptied h d p ≡ some (item d q) = unfold emptied in ground arith in
    rw (real, free-at h d text dt) (free-at (emptied h d) p (item d q) still)

step :
    (h : Blocks) {g : Blocks} {p d q : ℕ} (fuel : ℕ)
    → p ≢ 0
    → h p ≡ some (item d q)
    → free_item h p d ≡ some g
    → cfg_free (suc fuel) h p ≡ cfg_free fuel g q
unfolding cfg_free
step h {p = p} fuel np at e = let real : (p == 0) ≡ false = ground arith in rw (real, at, e) refl

without :
    (h : Blocks) (p d : ℕ) {q : ℕ} {xs : Items}
    → Owned h q xs
    → takes p xs ≡ false
    → takes d xs ≡ false
    → Owned (emptied (emptied h d) p) q xs
unfolding emptied
without h p d o po dout = frame o (λ a i. ground (arith, i, po, dout))

both_gone :
    (h : Blocks) {g : Blocks} (p d : ℕ) (xs : Items) (a : ℕ)
    → takes a ((p, d) ∷ xs) ≡ true
    → ((b : ℕ) → takes b xs ≡ false → g b ≡ emptied (emptied h d) p b)
    → ((b : ℕ) → takes b xs ≡ true → g b ≡ none)
    → g a ≡ none
unfolding emptied
both_gone h p d xs a i same gone = elim (Bool-cases (takes a xs)) [
  | inl later ↦ gone a later
  | inr here ↦ ground (arith, same a here, i, here)
]

untouched :
    (h : Blocks) {g : Blocks} (p d : ℕ) (xs : Items) (a : ℕ)
    → takes a ((p, d) ∷ xs) ≡ false
    → ((b : ℕ) → takes b xs ≡ false → g b ≡ emptied (emptied h d) p b)
    → g a ≡ h a
unfolding emptied
untouched h p d xs a i same = ground (arith, same a, i)

-- A list whose items and domains are blocks of their own is freed block by block: no block is freed
-- twice or read after that, nothing of the list is left, and nothing else is touched. One round more
-- than the list has items is enough.
pub cfg_free-Owned :
    (fuel : ℕ) {h : Blocks} {p : ℕ} {xs : Items}
    → Owned h p xs
    → length xs < fuel
    → (g : Blocks) × (cfg_free fuel h p ≡ freed g)
      × ((a : ℕ) → takes a xs ≡ true → g a ≡ none)
      × ((a : ℕ) → takes a xs ≡ false → g a ≡ h a)
unfolding cfg_free
cfg_free-Owned zero o enough = absurd (omega (arith, enough))
cfg_free-Owned (suc fuel) {h} {p} (nil e) enough =
    let end : (p == 0) ≡ true = ground arith in
    (h, rw end refl, (λ a i. absurd (ground (arith, i))), λ a i. refl)
cfg_free-Owned (suc fuel) {h} (cons {p = p} {d} {q} {xs} np nd apart at dt po dout o) enough =
    let (g, e, gone, same) =
      cfg_free-Owned fuel (without h p d o po dout) (omega (arith, enough)) in
    (
      g,
      step h fuel np at (free_item-both h nd apart at dt) ∙ e,
      λ a i. both_gone h p d xs a i same gone,
      λ a i. untouched h p d xs a i same,
    )
