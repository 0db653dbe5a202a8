-- ===== src/Stats/Latest.antt =====
-- The ring buffers hold the last 16 durations.
use rblpolicyd.Prelude.{
  ℕ, zero, suc, ◌+◌, ◌-◌, ◌%◌, ◌<◌, ◌≡◌, refl, Option, none, some, List, [], ◌∷◌, length, min,
  arith,
}
use rblpolicyd.Stats.{Ring, set_val, recorded, cleared}

abbrev get_elem? : ℕ → List ℕ → Option ℕ
get_elem? k [] = none
get_elem? zero (x ∷ xs) = some x
get_elem? (suc k) (x ∷ xs) = get_elem? k xs

-- The ring holds the durations `ds`, the latest first, as far as there is room.
abbrev pub Holds : Ring → List ℕ → Type 0
Holds r ds =
    (r.index < 16)
    × (r.count ≡ min 16 (length ds))
    × ((k : ℕ) → k < r.count → get_elem? k ds ≡ some (r.val ((r.index + 15 - k) % 16)))

-- after one more duration in front, per slot
slot :
    (r : Ring) (d : ℕ) (ds : List ℕ)
    → Holds r ds
    → (k : ℕ) → k < (recorded r d).count
    → get_elem? k (d ∷ ds) ≡ some ((recorded r d).val (((recorded r d).index + 15 - k) % 16))
unfolding recorded set_val
slot r d ds (small, count, at) zero l = ground arith
slot r d ds (small, count, at) (suc k) l = ground (arith, at k (ground arith))

-- Recording a duration puts it in front of those that the ring holds; of more than 16 the oldest is
-- dropped. The cleared ring holds none.
pub recorded-Holds :
    (r : Ring) (d : ℕ) (ds : List ℕ)
    → Holds cleared [] × (Holds r ds → Holds (recorded r d) (d ∷ ds))
unfolding recorded cleared
recorded-Holds r d ds = (
  (omega arith, refl, λ k l. absurd (omega (arith, l))),
  λ holds.
      let (small, count, at) = holds in (omega arith, ground (arith, count), slot r d ds holds),
)
