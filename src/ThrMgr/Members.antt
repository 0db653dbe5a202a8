-- ===== src/ThrMgr/Members.antt =====
-- thrmgr.c: the threads of a manager, less the order of its list and the addresses of its nodes.
use rblpolicyd.Prelude.{ℕ, ◌≤◌, ◌≡◌, refl, List, [], ◌∷◌, length, ◌==◌, if◌then◌else◌, arith}
use rblpolicyd.ThrMgr.Links.{Nodes}
use rblpolicyd.ThrMgr.Behind.{erase}

abbrev pub tids : Nodes → List ℕ
tids [] = []
tids ((p, t) ∷ xs) = t ∷ tids xs

-- the list without its first entry for the thread
abbrev pub without : ℕ → List ℕ → List ℕ
without t [] = []
without t (u ∷ us) = if u == t then us else u ∷ without t us

pub tids-erase : (t : ℕ) (xs : Nodes) → tids (erase t xs) ≡ without t (tids xs)
tids-erase t [] = refl
tids-erase t ((p, u) ∷ xs) = ground (arith, tids-erase t xs)

pub length-tids : (xs : Nodes) → length (tids xs) ≡ length xs
length-tids [] = refl
length-tids ((p, u) ∷ xs) = ground (arith, length-tids xs)

pub length-erase_le : (t : ℕ) (xs : Nodes) → length (erase t xs) ≤ length xs
length-erase_le t [] = omega arith
length-erase_le t ((p, u) ∷ xs) = ground (arith, length-erase_le t xs)
