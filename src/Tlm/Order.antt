-- ===== src/Tlm/Order.antt =====
-- Lists of slot indices: membership and distinctness, as the eviction order needs them.
use zonal_zero_trust_auth.Base.{
  ℕ, ◌+◌, ◌≡◌, refl, [], ◌∷◌, ◌++◌, Bool, true, false, length, ◌==◌, if◌then◌else◌, bit, arith,
}
use zonal_zero_trust_auth.Ring.Fifo.{Fifo, remove}

abbrev pub occurs : ℕ → Fifo → Bool
occurs i [] = false
occurs i (x ∷ q) = if x == i then true else occurs i q

abbrev pub Distinct : Fifo → Type 0
Distinct [] = Unit
Distinct (x ∷ q) = (occurs x q ≡ false) × Distinct q

pub occurs-remove :
    (i j : ℕ) (q : Fifo) → occurs j (remove q i) ≡ (if i == j then false else occurs j q)
unfolding remove
occurs-remove i j [] = ground arith
occurs-remove i j (x ∷ q) = ground (arith, occurs-remove i j q)

pub occurs-append :
    (j x : ℕ) (q : Fifo) → occurs j (q ++ x ∷ []) ≡ (if x == j then true else occurs j q)
occurs-append j x [] = ground arith
occurs-append j x (y ∷ q) = ground (arith, occurs-append j x q)

pub remove-Distinct : (i : ℕ) (q : Fifo) → Distinct q → Distinct (remove q i)
unfolding remove
remove-Distinct i [] d = tt
remove-Distinct i (x ∷ q) d = ground (arith, remove-Distinct i q d.1, occurs-remove i x q)

pub append-Distinct : (x : ℕ) (q : Fifo) → Distinct q → occurs x q ≡ false → Distinct (q ++ x ∷ [])
append-Distinct x [] d f = (refl, tt)
append-Distinct x (y ∷ q) d f = ground (arith, append-Distinct x q d.1, occurs-append y x q)

remove-absent : (i : ℕ) (q : Fifo) → occurs i q ≡ false → length (remove q i) ≡ length q
unfolding remove
remove-absent i [] f = refl
remove-absent i (x ∷ q) f = ground (arith, remove-absent i q)

-- A removal shortens a distinct list by one if the index is there, and by nothing if not.
pub length-remove-Distinct :
    (i : ℕ) (q : Fifo) → Distinct q → length (remove q i) + bit (occurs i q) ≡ length q
unfolding remove
length-remove-Distinct i [] d = refl
length-remove-Distinct i (x ∷ q) d =
    ground (arith, length-remove-Distinct i q d.1, remove-absent i q)

pub remove-absent_eq : (i : ℕ) (q : Fifo) → occurs i q ≡ false → remove q i ≡ q
unfolding remove
remove-absent_eq i [] f = refl
remove-absent_eq i (x ∷ q) f = ground (arith, remove-absent_eq i q)

-- Taking the oldest index off a distinct list is removing it.
pub remove-head : (i : ℕ) (q : Fifo) → Distinct (i ∷ q) → remove (i ∷ q) i ≡ q
unfolding remove
remove-head i q d = ground (arith, remove-absent_eq i q d.0)
