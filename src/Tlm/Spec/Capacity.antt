-- ===== src/Tlm/Spec/Capacity.antt =====
-- How many sessions the table can hold, and what the end of a client's session does to them.
use zonal_zero_trust_auth.Base.{
  ℕ, suc, ◌≤◌, ◌<◌, ◌≡◌, refl, sym, ap, ◌∙◌, [], ◌∷◌, Bool, true, false, not, none, some, length,
  ◌==◌, arith, count_if, count_if-set, count_if_mono, count_if_strict,
}
use zonal_zero_trust_auth.Platform.{ClientId, IsClientId}
use zonal_zero_trust_auth.Ring.Fifo.{Fifo}
use zonal_zero_trust_auth.Tlm.{
  TokenSlot, TokenLifecycleManager, empty_slot, slot_at, end_session, expire_existing,
  find_free_slot, is_locked_out,
}
use zonal_zero_trust_auth.Tlm.Order.{remove-absent_eq}
use zonal_zero_trust_auth.Tlm.Slots.{ended_slot, end_session_lem}
use zonal_zero_trust_auth.Tlm.Invariant.{IsValid, active}
use zonal_zero_trust_auth.Tlm.Invariant.Find.{found, free_found, free_missing}
use zonal_zero_trust_auth.Tlm.Register.Stages.{
  order_of, in_table, order-end_session, slot_at-end_session, expire_existing_cases,
}
use zonal_zero_trust_auth.Tlm.Spec.{drop_client}
use zonal_zero_trust_auth.Tlm.Spec.View.{
  view, sessions, view-drop-none, missing-Agree, sessions-drop,
}

abbrev unlocked : TokenSlot → Bool
unlocked slot = not slot.is_locked_out

-- The slots that can hold a session.
unfoldable pub capacity : TokenLifecycleManager → ℕ
capacity m = count_if unlocked m.session_table

pub length-view : (m : TokenLifecycleManager) (q : Fifo) → length (view m q) ≡ length q
length-view m [] = refl
length-view m (i ∷ q) = ap suc (length-view m q)

pub expire_existing-sessions :
    (m : TokenLifecycleManager) (v : IsValid m) (x : ClientId) (hx : IsClientId x)
    → is_locked_out m x ≡ false
    → (sessions (expire_existing m x) ≡ drop_client x (sessions m))
      × (capacity (expire_existing m x) ≡ capacity m)
unfolding capacity
expire_existing-sessions m v x hx o =
    expire_existing_cases m v x hx o
      (λ c. (sessions c ≡ drop_client x (sessions m)) × (capacity c ≡ capacity m))
      (λ e. (sym (view-drop-none m x (order_of m) (missing-Agree m v x hx e)), refl))
      (λ i e a. (
        sessions-drop m v x hx i m e (sym (remove-absent_eq i (order_of m) (v.table.listed i ∙ a)))
            (λ j ij. refl),
        refl,
      ))
      (λ i e a.
        let h = (found m (order_of m) v.table x i hx e).0 in
        let inside = in_table m v i h in
        (
          sessions-drop m v x hx i (end_session m i x) e (order-end_session m v i x h) (λ j ij.
              (let other : (i == j) ≡ false = ground arith in
                slot_at-end_session m i x j inside ∙ rw other)),
          ap capacity (end_session_lem m i inside x)
              ∙ omega (
                arith,
                count_if-set unlocked empty_slot m.session_table i (ended_slot (slot_at m i))
                    inside,
              ),
        ))

module _ (m : TokenLifecycleManager) (v : IsValid m) where
  active-unlocked : (i : ℕ) → active (slot_at m i) ≡ true → unlocked (slot_at m i) ≡ true
  active-unlocked i a = ground (arith, (v.table.slots i).idle)

  -- The live sessions are no more than the capacity.
  length-sessions : length (sessions m) ≡ count_if active m.session_table
  length-sessions = length-view m (order_of m) ∙ v.table.counted

  pub length-sessions-le : length (sessions m) ≤ capacity m
  unfolding capacity
  length-sessions-le = omega (
    arith,
    length-sessions,
    count_if_mono active unlocked empty_slot m.session_table (λ i h. active-unlocked i),
  )

  -- A free slot is room.
  pub sessions-lt : (i : ℕ) → find_free_slot m ≡ some i → length (sessions m) < capacity m
  unfolding capacity
  sessions-lt i e =
      let (h, free, _) = free_found m (order_of m) v.table i e in
      omega (
        arith,
        length-sessions,
        count_if_strict active unlocked empty_slot m.session_table i (λ j hj. active-unlocked j)
            (in_table m v i h) (ground arith) (ground arith),
      )

  -- Without a free slot every slot that is not locked out has a session.
  pub sessions-full : find_free_slot m ≡ none → length (sessions m) ≡ capacity m
  unfolding capacity
  sessions-full e =
      let other = count_if_mono unlocked active empty_slot m.session_table (λ j hj u.
        (let busy = free_missing m (order_of m) v.table e j (omega (arith, v.table.size)) in
          ground arith)) in
      omega (arith, length-sessions, other, length-sessions-le)
