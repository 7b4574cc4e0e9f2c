-- ===== src/Ring/Removal.antt =====
-- `Remove`: what the loop has written after each round, and the contents in the end.
use native.Mathlib.Nat.{mod-eq_of_lt}
use zonal_zero_trust_auth.Base.{
  ℕ, zero, suc, ◌+◌, ◌%◌, ◌≤◌, ◌<◌, ◌≡◌, refl, sym, ap, ◌∙◌, List, [], ◌∷◌, ◌++◌, length, get_or,
  set, arith, length-set, length-replicate, ◌==◌, if◌then◌else◌, Bool-cases, inl, inr,
}
use zonal_zero_trust_auth.Ring.{StaticCircularBuffer, add_size, to_byte, nth, remove_rounds, remove}
use zonal_zero_trust_auth.Ring.Fifo
use zonal_zero_trust_auth.Ring.Fifo.{Fifo, Op, pushes, pops, removes, Reply, popped, remove-append}
use zonal_zero_trust_auth.Ring.Fifo.{length-remove}
use zonal_zero_trust_auth.Ring.Window.{window, window-snoc}
use mathlib.Core.List.{append-nil}
use zonal_zero_trust_auth.Ring.Steps.{IsValid, contents}

module _ (n : ℕ) where
  -- What the loop of `Remove` has written after `i` rounds.
  record Removing (r : StaticCircularBuffer) (byte i : ℕ) (out : List ℕ × ℕ) : Type 0 where
    stored : length out.0 ≡ n
    few : out.1 ≤ i
    kept : window n out.0 0 out.1 ≡ Fifo.remove (window n r.buf r.head i) byte

  nth-window :
      (r : StaticCircularBuffer) (i : ℕ)
      → IsValid n r
      → i < n
      → nth n r.buf r.head i ≡ get_or r.buf ((r.head + i) % n) 0
  nth-window r i v h =
      let w : add_size r.head i ≡ r.head + i = omega (arith, v.small, v.head_in) in
      ap (λ t. get_or r.buf (t % n) 0) w

  round-Removing :
      (r : StaticCircularBuffer) (byte i b : ℕ) (out : List ℕ × ℕ)
      → i < n
      → b ≡ get_or r.buf ((r.head + i) % n) 0
      → Removing r byte i out
      → Removing r byte (suc i) (if b == byte then out else (set out.0 out.1 b, out.1 + 1))
  unfolding Fifo.remove
  round-Removing r byte i b out h e before = elim (Bool-cases (b == byte)) [
    | inl hit ↦ rw hit (record {
      stored = before.stored;
      few = omega (arith, before.few);
      kept =
          before.kept
          ∙ sym (append-nil _)
          ∙ ap (λ t. Fifo.remove (window n r.buf r.head i) byte ++ t) (rw (← e) (rw hit refl))
          ∙ sym (remove-append (window n r.buf r.head i) _ byte);
    })
    | inr miss ↦ rw miss (record {
      stored = length-set out.0 out.1 b ∙ before.stored;
      few = omega (arith, before.few);
      kept =
          ap (λ t. window n (set out.0 t b) 0 (out.1 + 1))
            (sym (mod-eq_of_lt {n = 0 + out.1} {m = n} (omega (arith, before.few)) ∙ omega arith))
          ∙ ap (window n (set out.0 ((0 + out.1) % n) b) 0) {x = out.1 + 1} {y = suc out.1}
              (omega arith)
          ∙ window-snoc n out.0 0 out.1 b before.stored (omega arith) (omega (arith, before.few))
          ∙ ap (λ w. w ++ b ∷ []) before.kept
          ∙ ap (λ t. Fifo.remove (window n r.buf r.head i) byte ++ t) (rw (← e) (rw miss refl))
          ∙ sym (remove-append (window n r.buf r.head i) _ byte);
    })
  ]

  remove_rounds-Removing :
      (r : StaticCircularBuffer) (byte i : ℕ)
      → IsValid n r
      → i ≤ r.count
      → Removing r byte i (remove_rounds n r.buf r.head byte i)
  unfolding remove_rounds Fifo.remove
  remove_rounds-Removing r byte zero v h = record {
    stored = length-replicate n 0;
    few = omega arith;
    kept = refl;
  }
  remove_rounds-Removing r byte (suc i) v h =
      round-Removing r byte i (nth n r.buf r.head i) (remove_rounds n r.buf r.head byte i)
        (omega (arith, v.count_in)) (nth-window r i v (omega (arith, v.count_in)))
        (remove_rounds-Removing r byte i v (omega arith))

  pub remove-IsValid :
      (r : StaticCircularBuffer) (idx : ℕ) → IsValid n r → IsValid n (remove n r idx)
  unfolding remove
  remove-IsValid r idx v =
      let done = remove_rounds-Removing r (to_byte idx) r.count v (omega arith) in
      record {
        storage = done.stored;
        small = v.small;
        head_in = omega (arith, v.head_in);
        count_in = omega (arith, done.few, v.count_in);
        tail_eq = ap (λ t. t % n) (omega arith);
      }

  -- `Remove` drops every occurrence of the index and keeps the order of the others.
  pub contents-remove :
      (r : StaticCircularBuffer) (idx : ℕ)
      → IsValid n r
      → contents n (remove n r idx) ≡ Fifo.remove (contents n r) (to_byte idx)
  unfolding remove
  contents-remove r idx v = (remove_rounds-Removing r (to_byte idx) r.count v (omega arith)).kept
