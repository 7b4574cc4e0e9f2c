-- ===== src/Adaptor/Housing/Room.antt =====
-- There is always room in the session table for a client with a slot in the pool: the table has as many
-- slots as the pool, in keeping with the static assertions on their sizes.
use zonal_zero_trust_auth.Base.{
  ℕ, suc, ◌<◌, ◌≡◌, ◌≢◌, sym, ap, ◌∙◌, List, [], true, false, Option, none, some, ◌==◌, ==_iff,
  if◌then◌else◌, arith, Bool-cases, Option-cases, inl, inr, pigeonhole,
}
use zonal_zero_trust_auth.Platform.{ClientId, IsClientId, CryptoPlatform}
use zonal_zero_trust_auth.Engine.{KnownPeerEntry, SpdmSessionToken}
use zonal_zero_trust_auth.Tlm
use zonal_zero_trust_auth.Tlm.{
  TokenSlot, TokenLifecycleManager, max_active_sessions, slot_at, expire_existing, is_locked_out,
  find_free_slot, count_anomaly,
}
use zonal_zero_trust_auth.Tlm.Invariant
use zonal_zero_trust_auth.Tlm.Invariant.{is_claimed, count_anomaly_frame}
use zonal_zero_trust_auth.Tlm.Invariant.Find.{free_missing, free_found}
use zonal_zero_trust_auth.Tlm.Register.Stages.{
  order_of, expire_existing-IsValid, expire_existing-Unclaimed,
}
use zonal_zero_trust_auth.Tlm.Register.Outcome.{locked-expire_existing}
use zonal_zero_trust_auth.Tlm.Slotwise.{expire_existing-Slotwise}
use zonal_zero_trust_auth.Adaptor.{Adaptor, max_zone_slots}
use zonal_zero_trust_auth.Adaptor.Valid.{IsValid}
use zonal_zero_trust_auth.Adaptor.Hooks.{slot_bound}
use zonal_zero_trust_auth.Adaptor.Calls.{IsHoused}
use zonal_zero_trust_auth.Adaptor.Housing.{
  Housed, StaysHoused, StaysHoused-stable, StaysHoused-AllowsToken, IsCovered, same_house, house,
  house_lem,
}

module _ (p : CryptoPlatform) (table : Option (List KnownPeerEntry)) (count : ℕ) (a : Adaptor p)
    (v : IsValid p table count a) (c : IsCovered p a) where
  -- More clients than slots of the pool cannot all have one.
  crowded :
      (name : ℕ → ClientId)
      → ((i : ℕ) → i < suc max_zone_slots → IsClientId (name i) × IsHoused p a (name i))
      → ((i j : ℕ) → i < suc max_zone_slots → j < suc max_zone_slots → name i ≡ name j → i ≡ j)
      → ⊥
  crowded name homes apart =
      pigeonhole max_zone_slots (λ i. house p a (name i))
        (λ i h.
          slot_bound p table count a (name i) (house p a (name i)) v
            (house_lem p a (name i) ((homes i h).1)))
        (λ i j hi hj q. apart i j hi hj (
          same_house p a (name i) (name j) (house p a (name i)) c ((homes i hi).0) ((homes j hj).0)
            (house_lem p a (name i) ((homes i hi).1))
            (house_lem p a (name j) ((homes j hj).1) ∙ ap some (sym q))))

  module _ (y : ClientId) (hy : IsClientId y) (home : IsHoused p a y)
      (o : is_locked_out a.tlm y ≡ false) where
    -- The manager after the refresh path, and the clients of its slots with the newcomer as the last.
    abbrev refreshed : TokenLifecycleManager
    refreshed = expire_existing a.tlm y

    abbrev guest : ℕ → ClientId
    guest i = if i == max_active_sessions then y else (slot_at refreshed i).client_id

    refreshed-IsValid : Tlm.Invariant.IsValid refreshed
    refreshed-IsValid = expire_existing-IsValid a.tlm v.manager y hy o

    module _ (full : find_free_slot refreshed ≡ none) where
      taken : (i : ℕ) → i < max_active_sessions → is_claimed (slot_at refreshed i) ≡ true
      taken i h = free_missing refreshed (order_of refreshed) refreshed-IsValid.table full i h

      slot_home : (i : ℕ) → i < max_active_sessions → IsHoused p a (slot_at refreshed i).client_id
      slot_home i h =
          let token : SpdmSessionToken = record {
            client_id = y;
            session_nonce = [];
            session_key = [];
          } in
          let kept : Housed p a (slot_at refreshed i) =
            expire_existing-Slotwise (StaysHoused p a) (StaysHoused-stable p a) token 0
              (StaysHoused-AllowsToken p a token 0 home) hy a.tlm v.manager o i h (c.housed i h) in
          elim kept [ inl (free, z) ↦ absurd (ground (arith, taken i h)) | inr home ↦ home ]

      newcomer :
          (i : ℕ) → is_claimed (slot_at refreshed i) ≡ true → (slot_at refreshed i).client_id ≢ y
      newcomer i claimed = expire_existing-Unclaimed a.tlm v.manager y hy o i claimed

      below :
          (i : ℕ)
          → i < suc max_active_sessions
          → (i == max_active_sessions) ≡ false
          → i < max_active_sessions
      below i h slot = ground (arith, ==_iff i max_active_sessions)

      guest_home :
          (i : ℕ) → i < suc max_active_sessions → IsClientId (guest i) × IsHoused p a (guest i)
      guest_home i h = elim (Bool-cases (i == max_active_sessions)) [
        | inl last ↦ rw last (hy, home)
        | inr slot ↦ rw slot ((refreshed-IsValid.table.slots i).id, slot_home i (below i h slot))
      ]

      slots_apart :
          (i j : ℕ)
          → i < max_active_sessions
          → j < max_active_sessions
          → (slot_at refreshed i).client_id ≡ (slot_at refreshed j).client_id
          → i ≡ j
      slots_apart i j hi hj q =
          let first = refreshed-IsValid.table.first in
          ground (arith, first i j, first j i, taken i hi, taken j hj)

      guest_apart :
          (i j : ℕ)
          → i < suc max_active_sessions
          → j < suc max_active_sessions
          → guest i ≡ guest j
          → i ≡ j
      guest_apart i j hi hj = elim (Bool-cases (i == max_active_sessions)) [
        | inl last_i ↦ elim (Bool-cases (j == max_active_sessions)) [
          | inl last_j ↦ λ q. ground (arith, ==_iff i 8, ==_iff j 8)
          | inr slot_j ↦
              rw (last_i, slot_j) (λ q. absurd (newcomer j (taken j (below j hj slot_j)) (sym q)))
        ]
        | inr slot_i ↦ elim (Bool-cases (j == max_active_sessions)) [
          | inl last_j ↦
              rw (slot_i, last_j) (λ q. absurd (newcomer i (taken i (below i hi slot_i)) q))
          | inr slot_j ↦
              rw (slot_i, slot_j) (slots_apart i j (below i hi slot_i) (below j hj slot_j))
        ]
      ]

    -- There is a free slot, after the refresh path, for a client with a slot in the pool that is not locked out.
    pub find_free_slot-ne-none : find_free_slot refreshed ≢ none
    find_free_slot-ne-none full = crowded guest (guest_home full) (guest_apart full)

    -- So some slot of the table is not barred.
    pub open_place : (i : ℕ) × (i < max_active_sessions) × ((slot_at a.tlm i).is_locked_out ≡ false)
    open_place = elim (Option-cases (find_free_slot refreshed)) [
      | inl full ↦ absurd (find_free_slot-ne-none full)
      | inr (i, e) ↦
          let token : SpdmSessionToken = record {
            client_id = y;
            session_nonce = [];
            session_key = [];
          } in
          let (h, free, _) =
            free_found refreshed (order_of refreshed) refreshed-IsValid.table i e in
          (i, h, sym (locked-expire_existing token 0 hy a.tlm v.manager o i) ∙ ground arith)
    ]
