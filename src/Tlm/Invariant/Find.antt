-- ===== src/Tlm/Invariant/Find.antt =====
-- What the two table searches find, in terms of equal identifiers instead of byte comparisons.
use zonal_zero_trust_auth.Base.{
  ℕ, ◌<◌, ◌≡◌, ◌≢◌, refl, sym, true, false, none, some, length, find_index-some, find_index-before,
  find_index-none, find_index-first, arith, Bool-cases, inl, inr,
}
use zonal_zero_trust_auth.Platform.{ClientId, IsClientId, client_id_len}
use zonal_zero_trust_auth.ConstantTime.{same_bytes, same_bytes_iff, same_bytes_self}
use zonal_zero_trust_auth.Ring.Fifo.{Fifo}
use zonal_zero_trust_auth.Tlm.{
  TokenLifecycleManager, max_active_sessions, empty_slot, slot_at, has_id, is_free,
  find_slot_by_client_id, find_free_slot, is_locked_out,
}
use zonal_zero_trust_auth.Tlm.Invariant.{WellFormed, is_claimed}

pub differs : (x y : ClientId) → same_bytes x y ≡ false → x ≢ y
differs x y f e = ground (arith, same_bytes_self x)

-- The lockout test reads the flag of the slot found.
pub is_locked_out-some :
    (m : TokenLifecycleManager) (x : ClientId) (i : ℕ)
    → find_slot_by_client_id m x ≡ some i
    → is_locked_out m x ≡ (slot_at m i).is_locked_out
unfolding is_locked_out
is_locked_out-some m x i e = rw (e, is_locked_out)

pub is_locked_out-none :
    (m : TokenLifecycleManager) (x : ClientId)
    → find_slot_by_client_id m x ≡ none
    → is_locked_out m x ≡ false
unfolding is_locked_out
is_locked_out-none m x e = rw (e, is_locked_out)

module _ (m : TokenLifecycleManager) (order : Fifo) (w : WellFormed m.session_table order) where
  bounded : (i : ℕ) → i < length m.session_table → i < max_active_sessions
  bounded i h = omega (arith, w.size)

  -- The slot found for an identifier is the first one that holds it.
  pub found :
      (x : ClientId) (i : ℕ)
      → IsClientId x
      → find_slot_by_client_id m x ≡ some i
      → (i < max_active_sessions)
        × ((slot_at m i).client_id ≡ x)
        × ((j : ℕ) → j < i → (slot_at m j).client_id ≢ x)
  unfolding find_slot_by_client_id
  found x i hx e =
      let (h, hit) = find_index-some (has_id x) empty_slot m.session_table i e in
      (
        bounded i h,
        sym ((same_bytes_iff client_id_len x (slot_at m i).client_id hx (w.slots i).id).0 hit),
        λ j ji q.
            differs x (slot_at m j).client_id
              (find_index-before (has_id x) empty_slot m.session_table i j e ji) (sym q),
      )

  pub missing :
      (x : ClientId)
      → find_slot_by_client_id m x ≡ none
      → (j : ℕ) → j < max_active_sessions
      → (slot_at m j).client_id ≢ x
  unfolding find_slot_by_client_id
  missing x e j h q =
      differs x (slot_at m j).client_id
        (find_index-none (has_id x) empty_slot m.session_table j e (omega (arith, w.size))) (sym q)

  -- The converse: the first slot with an identifier is the one found.
  pub find_first :
      (x : ClientId) (i : ℕ)
      → IsClientId x
      → i < max_active_sessions
      → (slot_at m i).client_id ≡ x
      → ((j : ℕ) → j < i → (slot_at m j).client_id ≢ x)
      → find_slot_by_client_id m x ≡ some i
  unfolding find_slot_by_client_id
  find_first x i hx h e before =
      find_index-first (has_id x) empty_slot m.session_table i (omega (arith, w.size))
        ((same_bytes_iff client_id_len x (slot_at m i).client_id hx (w.slots i).id).1 (sym e))
        (λ j ji. other j (before j ji))
    where
      other : (j : ℕ) → (slot_at m j).client_id ≢ x → has_id x (slot_at m j) ≡ false
      other j ne = elim (Bool-cases (has_id x (slot_at m j))) [
        | inl t ↦ absurd (
            ne (
              sym ((same_bytes_iff client_id_len x (slot_at m j).client_id hx (w.slots j).id).0 t)))
        | inr f ↦ f
      ]

  -- A claimed slot is the one found for its identifier.
  pub find_claimed :
      (i : ℕ)
      → i < max_active_sessions
      → is_claimed (slot_at m i) ≡ true
      → find_slot_by_client_id m (slot_at m i).client_id ≡ some i
  find_claimed i h c =
      find_first (slot_at m i).client_id i (w.slots i).id h refl
        (λ j ji q. w.first i j ji c (sym q))

  -- A free slot is not claimed; if none is found then every slot is.
  pub free_found :
      (i : ℕ)
      → find_free_slot m ≡ some i
      → (i < max_active_sessions)
        × (is_claimed (slot_at m i) ≡ false)
        × ((j : ℕ) → j < i → is_claimed (slot_at m j) ≡ true)
  unfolding find_free_slot
  free_found i e =
      let (h, hit) = find_index-some is_free empty_slot m.session_table i e in
      (
        bounded i h,
        ground arith,
        λ j ji. ground (arith, find_index-before is_free empty_slot m.session_table i j e ji),
      )

  pub free_missing :
      find_free_slot m ≡ none → (j : ℕ) → j < max_active_sessions → is_claimed (slot_at m j) ≡ true
  unfolding find_free_slot
  free_missing e j h =
      let busy = find_index-none is_free empty_slot m.session_table j e (omega (arith, w.size)) in
      ground arith
