-- ===== src/Ring/Steps.antt =====
-- The invariant of the ring, the list of its contents, and what one `Push` or `Pop` does to them.
use native.Mathlib.Nat.{mod-eq_of_lt, mod-add-mod, mod-lt}
use zonal_zero_trust_auth.Base.{
  ℕ, suc, ◌+◌, ◌-◌, ◌%◌, ◌^◌, ◌≤◌, ◌<◌, ◌≡◌, sym, ap, ◌∙◌, [], ◌∷◌, ◌++◌, length, get_or, set,
  arith, length-set, length-replicate, true, false, none, some, ◌==◌,
}
use zonal_zero_trust_auth.Ring.{StaticCircularBuffer, add_size, to_byte, empty, push, pop}
use zonal_zero_trust_auth.Ring.Fifo.{Fifo}
use zonal_zero_trust_auth.Ring.Window.{window, length-window, window-snoc, window-cons}

pub record IsValid (n : ℕ) (r : StaticCircularBuffer) : Type 0 where
  pub storage : length r.buf ≡ n
  pub small : n ≤ 2 ^ 63
  pub head_in : r.head < n
  pub count_in : r.count ≤ n
  pub tail_eq : r.tail ≡ (r.head + r.count) % n

module _ (n : ℕ) where
  abbrev pub contents : StaticCircularBuffer → Fifo
  contents r = window n r.buf r.head r.count

  pub length-contents : (r : StaticCircularBuffer) → length (contents r) ≡ r.count
  length-contents r = length-window n r.buf r.head r.count

  pub empty-IsValid : 0 < n → n ≤ 2 ^ 63 → IsValid n (empty n)
  unfolding empty
  empty-IsValid h s = record {
    storage = length-replicate n 0;
    small = s;
    head_in = h;
    count_in = omega arith;
    tail_eq = sym (mod-eq_of_lt {n = 0 + 0} {m = n} h);
  }

  -- What `Push` leaves when there is room.
  abbrev pub pushed : StaticCircularBuffer → ℕ → StaticCircularBuffer
  pushed r idx = record r {
    buf = set r.buf r.tail (to_byte idx);
    tail = (r.tail + 1) % n;
    count = suc r.count;
  }

  tail_in : (r : StaticCircularBuffer) → IsValid n r → r.tail < n
  tail_in r v =
      omega
        (arith, v.tail_eq, v.head_in, mod-lt (r.head + r.count) {m = n} (omega (arith, v.head_in)))

  pub push-room :
      (r : StaticCircularBuffer) (idx : ℕ)
      → IsValid n r
      → r.count < n
      → push n r idx ≡ (true, pushed r idx)
  unfolding push
  push-room r idx v h =
      let wt : add_size r.tail 1 ≡ r.tail + 1 = omega (arith, tail_in r v, v.small) in
      let wc : add_size r.count 1 ≡ suc r.count = omega (arith, v.small) in
      let ne : (r.count == n) ≡ false = ground arith in
      rw ne (λ i.
        (true, record r { buf = set r.buf r.tail (to_byte idx); tail = wt i % n; count = wc i }))

  pub push-full : (r : StaticCircularBuffer) (idx : ℕ) → r.count ≡ n → push n r idx ≡ (false, r)
  unfolding push
  push-full r idx h = let e : (r.count == n) ≡ true = ground arith in rw e

  pub pushed-IsValid :
      (r : StaticCircularBuffer) (idx : ℕ) → IsValid n r → r.count < n → IsValid n (pushed r idx)
  pushed-IsValid r idx v h = record {
    storage = length-set r.buf r.tail (to_byte idx) ∙ v.storage;
    small = v.small;
    head_in = v.head_in;
    count_in = h;
    tail_eq =
        ap (λ t. (t + 1) % n) v.tail_eq
        ∙ mod-add-mod (r.head + r.count) n 1
        ∙ ap (λ t. t % n) (omega arith);
  }

  pub contents-pushed :
      (r : StaticCircularBuffer) (idx : ℕ)
      → IsValid n r
      → r.count < n
      → contents (pushed r idx) ≡ contents r ++ to_byte idx ∷ []
  contents-pushed r idx v h =
      ap (λ t. window n (set r.buf t (to_byte idx)) r.head (suc r.count)) v.tail_eq
      ∙ window-snoc n r.buf r.head r.count (to_byte idx) v.storage v.head_in h

  -- What `Pop` leaves when `k` elements remain.
  abbrev pub popped_ring : StaticCircularBuffer → ℕ → StaticCircularBuffer
  popped_ring r k = record r { head = (r.head + 1) % n; count = k }

  pub pop-some :
      (r : StaticCircularBuffer) (k : ℕ)
      → IsValid n r
      → r.count ≡ suc k
      → pop n r ≡ (some (get_or r.buf r.head 0), popped_ring r k)
  unfolding pop
  pop-some r k v h =
      let wh : add_size r.head 1 ≡ r.head + 1 = omega (arith, v.small, v.head_in) in
      let wc : r.count - 1 ≡ k = omega arith in
      let ne : (r.count == 0) ≡ false = ground arith in
      rw ne (λ i. (some (get_or r.buf r.head 0), record r { head = wh i % n; count = wc i }))

  pub pop-none : (r : StaticCircularBuffer) → r.count ≡ 0 → pop n r ≡ (none, r)
  unfolding pop
  pop-none r h = let e : (r.count == 0) ≡ true = ground arith in rw e

  pub popped_ring-IsValid :
      (r : StaticCircularBuffer) (k : ℕ)
      → IsValid n r
      → r.count ≡ suc k
      → IsValid n (popped_ring r k)
  popped_ring-IsValid r k v h = record {
    storage = v.storage;
    small = v.small;
    head_in = mod-lt (r.head + 1) {m = n} (omega (arith, v.head_in));
    count_in = omega (arith, v.count_in);
    tail_eq = v.tail_eq ∙ ap (λ t. t % n) (omega arith) ∙ sym (mod-add-mod (r.head + 1) n k);
  }

  pub contents-popped :
      (r : StaticCircularBuffer) (k : ℕ)
      → IsValid n r
      → r.count ≡ suc k
      → contents r ≡ get_or r.buf r.head 0 ∷ contents (popped_ring r k)
  contents-popped r k v h = ap (window n r.buf r.head) h ∙ window-cons n r.buf r.head k v.head_in
