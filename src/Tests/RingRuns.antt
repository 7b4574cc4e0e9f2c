-- ===== src/Tests/RingRuns.antt =====
-- Runs of the ring buffer and of the constant-time tests.
use zonal_zero_trust_auth.Base.{◌≡◌, ◌↔◌, List, [], ◌∷◌, true, arith}
use zonal_zero_trust_auth.ConstantTime.{same_bytes, same_bytes_iff}
use zonal_zero_trust_auth.Ring
use zonal_zero_trust_auth.Ring.Fifo
use zonal_zero_trust_auth.Ring.Fifo.{Op, pushes, pops, removes}
use zonal_zero_trust_auth.Ring.Refine.{contents, empty-IsValid, run, run_refines}
use zonal_zero_trust_auth.Tests.Data.{alice, alice-IsClientId, bob, bob-IsClientId}

abbrev calls : List Op
calls = pushes 4 ∷ pushes 5 ∷ removes 4 ∷ pushes 6 ∷ pushes 7 ∷ pops ∷ pushes 8 ∷ pops ∷ pops ∷ []

run_refines_example : run 3 (Ring.empty 3) calls ≡ Fifo.run 3 (contents 3 (Ring.empty 3)) calls
run_refines_example =
    run_refines 3 calls (Ring.empty 3) (empty-IsValid 3 (omega arith) (omega arith)) (omega arith)

same_bytes_iff_example : (same_bytes alice bob ≡ true) ↔ (alice ≡ bob)
same_bytes_iff_example = same_bytes_iff 8 alice bob alice-IsClientId bob-IsClientId
