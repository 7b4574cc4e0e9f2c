-- ===== src/Tlm/Register/Evict.antt =====
-- The eviction of the oldest session when no slot is free.
use mathlib.Core.Path.{subst}
use zonal_zero_trust_auth.Base.{
  ℕ, suc, ◌<◌, ◌≡◌, sym, ap, ◌∙◌, ◌∷◌, true, false, get_or, set, get_or-set, ◌==◌, if◌then◌else◌,
  arith, Bool-cases, inl, inr, ==_iff,
}
use zonal_zero_trust_auth.Ring.Fifo.{remove}
use zonal_zero_trust_auth.Ring.Refine.{popped_ring, popped_ring-IsValid, contents-popped}
use zonal_zero_trust_auth.Tlm.{
  TokenSlot, TokenLifecycleManager, max_active_sessions, empty_slot, slot_at, evict,
}
use zonal_zero_trust_auth.Tlm.Order.{occurs, remove-head}
use zonal_zero_trust_auth.Tlm.Slots.{ended_slot, evict_lem}
use zonal_zero_trust_auth.Tlm.Invariant.{IsValid, WellFormed, active, ended-WellFormed}
use zonal_zero_trust_auth.Tlm.Register.Stages.{order_of, in_table, claimed_bound}

-- The manager after `Pop`, when `k` indices remain, and the index that came out.
abbrev pub popped : TokenLifecycleManager → ℕ → TokenLifecycleManager
popped m k = record m { insertion_order = popped_ring max_active_sessions m.insertion_order k }

abbrev pub oldest : TokenLifecycleManager → ℕ
oldest m = get_or m.insertion_order.buf m.insertion_order.head 0

module _ (m : TokenLifecycleManager) (v : IsValid m) (k : ℕ)
    (e : m.insertion_order.count ≡ suc k) where
  pub order-popped : order_of m ≡ oldest m ∷ order_of (popped m k)
  order-popped = contents-popped max_active_sessions m.insertion_order k v.ring e

  -- The index that comes out belongs to a live session, which is not locked out.
  pub oldest-active : active (slot_at m (oldest m)) ≡ true
  oldest-active =
      sym (v.table.listed (oldest m)) ∙ ap (occurs (oldest m)) order-popped ∙ ground arith

  pub oldest-unlocked : (slot_at m (oldest m)).is_locked_out ≡ false
  oldest-unlocked = elim (Bool-cases (slot_at m (oldest m)).is_locked_out) [
    | inl t ↦ absurd (ground (arith, (v.table.slots (oldest m)).idle t, oldest-active))
    | inr f ↦ f
  ]

  pub oldest-lt : oldest m < max_active_sessions
  oldest-lt = claimed_bound m v (oldest m) (ground (arith, oldest-active))

  pub slot_at-evict :
      (j : ℕ)
      → slot_at (evict (popped m k) (oldest m)) j
        ≡ (if oldest m == j then ended_slot (slot_at m (oldest m)) else slot_at m j)
  slot_at-evict j =
      ap (λ (c : TokenLifecycleManager). slot_at c j)
        (evict_lem (popped m k) (oldest m) (in_table m v (oldest m) oldest-lt))
      ∙ get_or-set m.session_table (oldest m) j (ended_slot (slot_at m (oldest m))) empty_slot
          (in_table m v (oldest m) oldest-lt)

  pub order-evict : order_of (evict (popped m k) (oldest m)) ≡ order_of (popped m k)
  order-evict = ap order_of (evict_lem (popped m k) (oldest m) (in_table m v (oldest m) oldest-lt))

  pub evict-IsValid : IsValid (evict (popped m k) (oldest m))
  evict-IsValid =
      rw (evict_lem (popped m k) (oldest m) (in_table m v (oldest m) oldest-lt)) (record {
        ring = popped_ring-IsValid max_active_sessions m.insertion_order k v.ring e;
        table =
            subst (WellFormed (set m.session_table (oldest m) (ended_slot (slot_at m (oldest m)))))
              (ap (λ q. remove q (oldest m)) order-popped
                ∙ remove-head (oldest m) (order_of (popped m k))
                    (rw order-popped at v.table.distinct))
              (ended-WellFormed m.session_table (order_of m) v.table (oldest m) oldest-lt);
      })

  -- No identifier changes.
  pub client_id-evict :
      (j : ℕ) → (slot_at (evict (popped m k) (oldest m)) j).client_id ≡ (slot_at m j).client_id
  client_id-evict j = ap (λ (s : TokenSlot). s.client_id) (slot_at-evict j) ∙ kept j
    where
      kept :
          (j : ℕ)
          → (if oldest m == j then ended_slot (slot_at m (oldest m)) else slot_at m j).client_id
            ≡ (slot_at m j).client_id
      kept j = elim (Bool-cases (oldest m == j)) [
        | inl e ↦ rw e (ap (λ (n : ℕ). (slot_at m n).client_id) ((==_iff (oldest m) j).0 e))
        | inr n ↦ rw n
      ]
