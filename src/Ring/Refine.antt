-- ===== src/Ring/Refine.antt =====
-- A valid ring behaves as the bounded list of the indices that it holds.
use zonal_zero_trust_auth.Base.{
  ℕ, zero, suc, ◌<◌, ◌≡◌, refl, ap, ◌∙◌, List, [], ◌∷◌, ◌++◌, arith, true, none, ◌==◌, Bool-cases,
  inl, inr, ==_iff,
}
use zonal_zero_trust_auth.Ring.{StaticCircularBuffer, to_byte, push, pop, remove}
use zonal_zero_trust_auth.Ring.Fifo
use zonal_zero_trust_auth.Ring.Fifo.{Fifo, Op, pushes, pops, removes, Reply, popped, remove-append}
use zonal_zero_trust_auth.Ring.Fifo.{length-remove}
pub use zonal_zero_trust_auth.Ring.Steps.{
  IsValid, contents, length-contents, empty-IsValid, pushed, push-room, push-full, pushed-IsValid,
  contents-pushed, popped_ring, pop-some, pop-none, popped_ring-IsValid, contents-popped,
}
pub use zonal_zero_trust_auth.Ring.Removal.{remove-IsValid, contents-remove}

module _ (n : ℕ) where
  -- `Push` answers as the bounded list does, and leaves the ring holding the same list.
  pub push_refines :
      (r : StaticCircularBuffer) (idx : ℕ)
      → IsValid n r
      → idx < 256
      → let (done, r') = push n r idx in (done, contents n r') ≡ Fifo.push n (contents n r) idx
  unfolding Fifo.push
  push_refines r idx v h = elim (Bool-cases (r.count == n)) [
    | inl full ↦
        let e = (==_iff r.count n).0 full in
        rw (push-full n r idx e, length-contents n r) (rw full refl)
    | inr room ↦
        let lt : r.count < n = ground (arith, v.count_in) in
        let same : to_byte idx ≡ idx = omega arith in
        rw (push-room n r idx v lt, length-contents n r)
          (rw room (
            ap (λ c. (true, c))
              (contents-pushed n r idx v lt ∙ ap (λ x. contents n r ++ x ∷ []) same)))
  ]

  push-IsValid : (r : StaticCircularBuffer) (idx : ℕ) → IsValid n r → IsValid n (push n r idx).1
  push-IsValid r idx v = elim (Bool-cases (r.count == n)) [
    | inl full ↦ rw (push-full n r idx ((==_iff r.count n).0 full)) v
    | inr room ↦
        let lt : r.count < n = ground (arith, v.count_in) in
        rw (push-room n r idx v lt) (pushed-IsValid n r idx v lt)
  ]

  -- `Pop` hands out the oldest index and leaves the rest, or refuses on an empty ring.
  pub pop_refines :
      (r : StaticCircularBuffer)
      → IsValid n r
      → let (out, r') = pop n r in ((out, contents n r') ≡ Fifo.pop (contents n r)) × IsValid n r'
  unfolding Fifo.pop
  pop_refines r v = by_count r.count refl
    where
      by_count :
          (k : ℕ)
          → r.count ≡ k
          → let (out, r') = pop n r in
            ((out, contents n r') ≡ Fifo.pop (contents n r)) × IsValid n r'
      by_count zero e = rw (pop-none n r e) (rw e refl, v)
      by_count (suc k) e =
          rw (pop-some n r k v e)
            (rw (contents-popped n r k v e) refl, popped_ring-IsValid n r k v e)

  -- The replies of the ring to a sequence of calls.
  unfoldable pub run : StaticCircularBuffer → List Op → List Reply
  run r [] = []
  run r (pushes idx ∷ ops) = let (done, r') = push n r idx in (done, none) ∷ run r' ops
  run r (pops ∷ ops) = let (out, r') = pop n r in popped out ∷ run r' ops
  run r (removes idx ∷ ops) = (true, none) ∷ run (remove n r idx) ops

  -- The indices that a sequence of calls uses fit the element type.
  abbrev pub Fits : List Op → Type 0
  Fits [] = Unit
  Fits (pushes idx ∷ ops) = (idx < 256) × Fits ops
  Fits (pops ∷ ops) = Fits ops
  Fits (removes idx ∷ ops) = (idx < 256) × Fits ops

  -- A valid ring answers every sequence of pushes, pops and removals of indices below 256 as the
  -- bounded first-in first-out list of its contents n does.
  pub run_refines :
      (ops : List Op) (r : StaticCircularBuffer)
      → IsValid n r
      → Fits ops
      → run r ops ≡ Fifo.run n (contents n r) ops
  unfolding run Fifo.run
  run_refines [] r v f = refl
  run_refines (pushes idx ∷ ops) r v f =
      rw (run_refines ops (push n r idx).1 (push-IsValid r idx v) f.1, ← push_refines r idx v f.0)
  run_refines (pops ∷ ops) r v f =
      rw (run_refines ops (pop n r).1 (pop_refines r v).1 f, ← (pop_refines r v).0)
  run_refines (removes idx ∷ ops) r v f =
      let same : to_byte idx ≡ idx = omega (arith, f.0) in
      rw (
        run_refines ops (remove n r idx) (remove-IsValid n r idx v) f.1,
        contents-remove n r idx v,
        same,
      )
