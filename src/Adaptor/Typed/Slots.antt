-- ===== src/Adaptor/Typed/Slots.antt =====
-- One slot of the pool: its bounds, and its engine reset or revoked.
use zonal_zero_trust_auth.Base.{ℕ, ◌<◌, ◌≡◌, some, find_index-some, arith}
use zonal_zero_trust_auth.Platform.{ClientId, CryptoPlatform}
use zonal_zero_trust_auth.Engine
use zonal_zero_trust_auth.Engine.{
  KnownPeerEntry, SpdmProtocolEngine, SpdmAuthRequest, SpdmAuthResponse, SpdmSessionToken,
  spdm_auth_request_len, spdm_auth_response_len, process_auth_request, process_auth_response,
}
use zonal_zero_trust_auth.Engine.Typed.{revoke-IsTyped, reset-IsTyped}
use zonal_zero_trust_auth.Adaptor.{
  Adaptor, max_zone_slots, empty_record, is_bound, is_unoccupied, engine_at, put_engine, find_slot,
  find_free_engine_slot,
}
use zonal_zero_trust_auth.Adaptor.Typed.{IsTyped, put_engine-IsTyped}

module _ (p : CryptoPlatform) where
  pub slot_in :
      (a : Adaptor p) (x : ClientId) (i : ℕ)
      → IsTyped p a
      → find_slot p a x ≡ some i
      → i < max_zone_slots
  unfolding find_slot
  slot_in a x i t e =
      omega
        (arith, (find_index-some (is_bound x) empty_record a.slot_records i e).0, t.records_size)

  pub free_in :
      (a : Adaptor p) (i : ℕ)
      → IsTyped p a
      → find_free_engine_slot p a ≡ some i
      → i < max_zone_slots
  unfolding find_free_engine_slot
  free_in a i t e =
      omega
        (arith, (find_index-some is_unoccupied empty_record a.slot_records i e).0, t.records_size)

  pub reset_slot :
      (a : Adaptor p) (i : ℕ)
      → IsTyped p a
      → i < max_zone_slots
      → IsTyped p (put_engine p a i (Engine.reset (engine_at p a i)))
  reset_slot a i t h =
      put_engine-IsTyped p a i (Engine.reset (engine_at p a i)) t h
        (reset-IsTyped (engine_at p a i))

  pub revoke_slot :
      (a : Adaptor p) (i : ℕ)
      → IsTyped p a
      → i < max_zone_slots
      → IsTyped p (put_engine p a i (Engine.revoke (engine_at p a i)))
  revoke_slot a i t h =
      put_engine-IsTyped p a i (Engine.revoke (engine_at p a i)) t h
        (revoke-IsTyped (engine_at p a i) (t.engines i h))
