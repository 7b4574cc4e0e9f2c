-- ===== src/Ring/Fifo.antt =====
-- What the ring promises: a bounded first-in first-out list of slot indices, oldest first.
use zonal_zero_trust_auth.Base.{
  ℕ, ◌≡◌, ◌≤◌, refl, List, [], ◌∷◌, ◌++◌, Bool, true, false, Option, none, some, length, ◌==◌,
  if◌then◌else◌, arith,
}

abbrev pub Fifo : Type 0
Fifo = List ℕ

unfoldable pub pop : Fifo → Option ℕ × Fifo
pop [] = (none, [])
pop (x ∷ q) = (some x, q)

-- All occurrences go, the order of the rest stays.
unfoldable pub remove : Fifo → ℕ → Fifo
remove [] idx = []
remove (x ∷ q) idx = if x == idx then remove q idx else x ∷ remove q idx

pub data Op : Type 0 where
  pushes : ℕ → Op
  pops : Op
  removes : ℕ → Op

-- What the caller sees of an operation: whether it succeeded, and the value that came out.
abbrev pub Reply : Type 0
Reply = Bool × Option ℕ

abbrev pub popped : Option ℕ → Reply
popped none = (false, none)
popped (some x) = (true, some x)

module _ (n : ℕ) where
  unfoldable pub push : Fifo → ℕ → Bool × Fifo
  push q idx = if length q == n then (false, q) else (true, q ++ idx ∷ [])

  unfoldable pub run : Fifo → List Op → List Reply
  run q [] = []
  run q (pushes idx ∷ ops) = let (done, q') = push q idx in (done, none) ∷ run q' ops
  run q (pops ∷ ops) = let (out, q') = pop q in popped out ∷ run q' ops
  run q (removes idx ∷ ops) = (true, none) ∷ run (remove q idx) ops

pub remove-append : (q r : Fifo) (idx : ℕ) → remove (q ++ r) idx ≡ remove q idx ++ remove r idx
unfolding remove
remove-append [] r idx = refl
remove-append (x ∷ q) r idx = ground (arith, remove-append q r idx)

pub length-remove : (q : Fifo) (idx : ℕ) → length (remove q idx) ≤ length q
unfolding remove
length-remove [] idx = omega arith
length-remove (x ∷ q) idx = ground (arith, length-remove q idx)
