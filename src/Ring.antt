-- ===== src/Ring.antt =====
-- include/zzta/TokenLifecycleManager.hpp, `StaticCircularBuffer<N>`: the ring of slot indices behind
-- the eviction order. `n` is the template's capacity; `size_t` sums wrap at 2 ^ 64.
pub mod Fifo
pub mod Window
pub mod Steps
pub mod Removal
pub mod Refine
use zonal_zero_trust_auth.Base.{
  ℕ, zero, suc, ◌+◌, ◌-◌, ◌%◌, ◌^◌, List, Bool, true, false, Option, none, some, get_or, set,
  replicate, ◌==◌, if◌then◌else◌,
}

-- The elements of `buf` are of type `uint8_t`.
pub record StaticCircularBuffer : Type 0 where
  pub buf : List ℕ
  pub head : ℕ
  pub tail : ℕ
  pub count : ℕ

abbrev pub add_size : ℕ → ℕ → ℕ
add_size a b = (a + b) % 2 ^ 64

-- `static_cast<uint8_t>(idx)`
abbrev pub to_byte : ℕ → ℕ
to_byte idx = idx % 256

unfoldable pub is_empty : StaticCircularBuffer → Bool
is_empty r = r.count == 0

unfoldable pub size : StaticCircularBuffer → ℕ
size r = r.count

module _ (n : ℕ) where
  unfoldable pub empty : StaticCircularBuffer
  empty = record { buf = replicate n 0; head = 0; tail = 0; count = 0 }

  unfoldable pub is_full : StaticCircularBuffer → Bool
  is_full r = r.count == n

  unfoldable pub push : StaticCircularBuffer → ℕ → Bool × StaticCircularBuffer
  unfolding is_full
  push r idx = if is_full r then (false, r) else (
    true,
    record r {
      buf = set r.buf r.tail (to_byte idx);
      tail = add_size r.tail 1 % n;
      count = add_size r.count 1;
    },
  )

  -- The option is what goes through `idx_out`: `none` when `Pop` returns false and leaves it alone.
  unfoldable pub pop : StaticCircularBuffer → Option ℕ × StaticCircularBuffer
  unfolding is_empty
  pop r = if is_empty r then (none, r) else (
    some (get_or r.buf r.head 0),
    record r { head = add_size r.head 1 % n; count = r.count - 1 },
  )

  -- The element that round `i` of the loop in `Remove` looks at.
  abbrev pub nth : List ℕ → ℕ → ℕ → ℕ
  nth buf head i = get_or buf (add_size head i % n) 0

  -- `temp` and `new_count` after the given number of rounds.
  unfoldable pub remove_rounds : List ℕ → ℕ → ℕ → ℕ → List ℕ × ℕ
  remove_rounds buf head byte zero = (replicate n 0, 0)
  remove_rounds buf head byte (suc i) =
      let (temp, new_count) = remove_rounds buf head byte i in
      let b = nth buf head i in
      if b == byte then (temp, new_count) else (set temp new_count b, new_count + 1)

  unfoldable pub remove : StaticCircularBuffer → ℕ → StaticCircularBuffer
  unfolding remove_rounds
  remove r idx =
      let (temp, new_count) = remove_rounds r.buf r.head (to_byte idx) r.count in
      record { buf = temp; head = 0; tail = new_count % n; count = new_count }
