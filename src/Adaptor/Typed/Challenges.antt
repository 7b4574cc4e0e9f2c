-- ===== src/Adaptor/Typed/Challenges.antt =====
-- `OnPeerOffered` and `OnAuthRequest` keep the sizes of all arrays.
use zonal_zero_trust_auth.Base.{
  ℕ, ◌≤◌, ◌<◌, refl, ◌∙◌, [], ◌∷◌, ◌++◌, if◌then◌else◌, Bool, true, false, Option, none, some,
  All-append, length, set, length-set, ltb, arith, Bool-cases, Option-cases, inl, inr,
}
use zonal_zero_trust_auth.Platform.{Bytes, ClientId, IsClientId, CryptoPlatform, client_id_len}
use zonal_zero_trust_auth.ConstantTime.{is_zero}
use zonal_zero_trust_auth.Engine.{SpdmAuthRequest, spdm_auth_request_len, process_auth_request}
use zonal_zero_trust_auth.Engine.Typed.{FillsArrays, request-IsTyped}
use zonal_zero_trust_auth.Tlm
use zonal_zero_trust_auth.Adaptor.{
  Frame, ZoneSlotRecord, Adaptor, max_zone_slots, decode_request, spdm_ok, engine_at, put_engine,
  find_slot, find_free_engine_slot, on_peer_offered, transmit_challenge, forward_request,
  on_auth_request, some_ip_method_id_challenge,
}
use zonal_zero_trust_auth.Adaptor.Events.{IsPayload, head-IsClientId}
use zonal_zero_trust_auth.Adaptor.Typed.{IsFrame, IsTyped, put_engine-IsTyped, platform-IsTyped}
use zonal_zero_trust_auth.Adaptor.Typed.Slots.{slot_in, free_in, reset_slot}

module _ (p : CryptoPlatform) where
  pub offer-IsTyped :
      (a : Adaptor p) (x : ClientId) → IsTyped p a → IsTyped p (on_peer_offered p a x).1
  unfolding on_peer_offered
  offer-IsTyped a x t = elim (Bool-cases (is_zero x)) [
    | inl z ↦ rw z t
    | inr nz ↦ elim (Bool-cases (Tlm.is_locked_out a.tlm x)) [
      | inl l ↦ rw (nz, l) t
      | inr o ↦ elim (Option-cases (find_slot p a x)) [
        | inr (i, e) ↦ rw (nz, o, e, on_peer_offered) (reset_slot p a i t (slot_in p a x i t e))
        | inl e ↦ elim (Option-cases (find_free_engine_slot p a)) [
          | inl f ↦ rw (nz, o, e, f, on_peer_offered) t
          | inr (i, f) ↦
              let slot : ZoneSlotRecord = record { client_id = x; is_occupied = true } in
              let bound : IsTyped p (record a { slot_records = set a.slot_records i slot }) =
                record {
                  manager = t.manager;
                  engines_size = t.engines_size;
                  records_size = length-set a.slot_records i slot ∙ t.records_size;
                  engines = t.engines;
                  slots = t.slots;
                  frames = t.frames;
                } in
              rw (nz, o, e, f, on_peer_offered)
                (reset_slot p (record a { slot_records = set a.slot_records i slot }) i bound
                  (free_in p a i t f))
        ]
      ]
    ]
  ]

module _ (p : CryptoPlatform) (fills : FillsArrays p) where
  -- Either of two typed adaptors.
  choose-IsTyped :
      (a b : Adaptor p) (c : Bool) → IsTyped p a → IsTyped p b → IsTyped p (if c then b else a)
  choose-IsTyped a b true t w = w
  choose-IsTyped a b false t w = t

  transmit-IsTyped :
      (a : Adaptor p) (i : ℕ) (x : ClientId)
      → IsTyped p a
      → i < max_zone_slots
      → IsClientId x
      → IsTyped p (transmit_challenge p a i x)
  unfolding transmit_challenge
  transmit-IsTyped a i x t h hx =
      let frame : Frame = record {
        client_id = x;
        method_id = some_ip_method_id_challenge;
        payload = (engine_at p a i).pending_nonce;
      } in
      choose-IsTyped a (record a { transmitted = a.transmitted ++ frame ∷ [] }) a.has_transmit t
        (record {
          manager = t.manager;
          engines_size = t.engines_size;
          records_size = t.records_size;
          engines = t.engines;
          slots = t.slots;
          frames =
              All-append IsFrame a.transmitted (frame ∷ []) t.frames
                ((hx, refl, (t.engines i h).pending_nonce), tt);
        })

  forward-IsTyped :
      (a : Adaptor p) (i : ℕ) (request : SpdmAuthRequest)
      → IsTyped p a
      → i < max_zone_slots
      → IsClientId request.client_id
      → IsTyped p (forward_request p a i request).1
  unfolding forward_request
  forward-IsTyped a i request t h id =
      let out = process_auth_request p (engine_at p a i) request a.platform in
      let a' = record (put_engine p a i out.engine) { platform = out.platform } in
      let w : IsTyped p a' = platform-IsTyped p (put_engine p a i out.engine) out.platform (
        put_engine-IsTyped p a i out.engine t h
          (request-IsTyped p fills (engine_at p a i) request a.platform id (t.engines i h))) in
      elim (Bool-cases (spdm_ok out.status)) [
        | inl ok ↦ rw ok (transmit-IsTyped a' i request.client_id w h id)
        | inr no_ok ↦ rw no_ok w
      ]

  pub request_hook-IsTyped :
      (a : Adaptor p) (payload : Option Bytes)
      → IsPayload payload
      → IsTyped p a
      → IsTyped p (on_auth_request p a payload).1
  unfolding on_auth_request
  request_hook-IsTyped a none b t = t
  request_hook-IsTyped a (some payload) b t =
      let x = (decode_request payload).client_id in
      elim (Bool-cases (ltb (length payload) spdm_auth_request_len)) [
        | inl short ↦ rw short t
        | inr long ↦ elim (Option-cases (find_slot p a x)) [
          | inl e ↦ rw (long, e, on_auth_request) t
          | inr (i, e) ↦
              let room : client_id_len ≤ length payload = ground arith in
              rw (long, e, on_auth_request)
                (forward-IsTyped a i (decode_request payload) t (slot_in p a x i t e)
                  (head-IsClientId payload room b))
        ]
      ]
