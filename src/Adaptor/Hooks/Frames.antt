-- ===== src/Adaptor/Hooks/Frames.antt =====
-- `OnPeerOffered` and `OnAuthRequest` keep the adaptor's invariant.
use mathlib.Core.Path.{subst}
use zonal_zero_trust_auth.Base.{
  ℕ, ◌<◌, ◌≡◌, refl, sym, ◌∙◌, List, Bool, true, false, Option, none, some, length, set, length-set,
  if◌then◌else◌, arith, Bool-cases, Option-cases, inl, inr, ltb, find_index-some, get_or-replicate,
}
use zonal_zero_trust_auth.Platform.{Bytes, ClientId, CryptoPlatform}
use zonal_zero_trust_auth.ConstantTime.{is_zero}
use zonal_zero_trust_auth.Engine
use zonal_zero_trust_auth.Engine.{
  KnownPeerEntry, SpdmAuthRequest, SpdmAuthResponse, SpdmProtocolEngine, SpdmSessionToken,
  SpdmStatus, Requested, Responded, spdm_auth_request_len, spdm_auth_response_len,
  process_auth_request, process_auth_response,
}
use zonal_zero_trust_auth.Tlm
use zonal_zero_trust_auth.Tlm.{TlmStatus, TokenLifecycleManager, Validated}
use zonal_zero_trust_auth.Adaptor.{
  ZoneSlotRecord, Frame, Adaptor, max_zone_slots, empty_record, is_bound, is_unoccupied,
  decode_request, spdm_ok, engine_at, put_engine, find_slot, find_free_engine_slot, on_peer_offered,
  transmit_challenge, forward_request, on_auth_request,
}
use zonal_zero_trust_auth.Adaptor.Valid.{
  IsValid, Backed, StaysBacked, LooksUp, request-LooksUp, reset-LooksUp, put_engine-IsValid,
}

module _ (p : CryptoPlatform) (table : Option (List KnownPeerEntry)) (count : ℕ) where
  abbrev pub Ok : Adaptor p → Type 0
  Ok = IsValid p table count

  pub slot_bound :
      (a : Adaptor p) (x : ClientId) (i : ℕ) → Ok a → find_slot p a x ≡ some i → i < max_zone_slots
  unfolding find_slot
  slot_bound a x i v e =
      omega
        (arith, (find_index-some (is_bound x) empty_record a.slot_records i e).0, v.records_size)

  pub free_bound :
      (a : Adaptor p) (i : ℕ) → Ok a → find_free_engine_slot p a ≡ some i → i < max_zone_slots
  unfolding find_free_engine_slot
  free_bound a i v e =
      omega
        (arith, (find_index-some is_unoccupied empty_record a.slot_records i e).0, v.records_size)

  pub offer-IsValid : (a : Adaptor p) (x : ClientId) → Ok a → Ok (on_peer_offered p a x).1
  unfolding on_peer_offered
  offer-IsValid a x v = elim (Bool-cases (is_zero x)) [
    | inl z ↦ rw z v
    | inr nz ↦ elim (Bool-cases (Tlm.is_locked_out a.tlm x)) [
      | inl l ↦ rw (nz, l) v
      | inr o ↦ elim (Option-cases (find_slot p a x)) [
        | inr (i, e) ↦
            let h = slot_bound a x i v e in
            rw (nz, o, e, on_peer_offered)
              (put_engine-IsValid p table count a i (Engine.reset (engine_at p a i)) v h
                (reset-LooksUp p table count (engine_at p a i) (v.lookups i h)))
        | inl e ↦ elim (Option-cases (find_free_engine_slot p a)) [
          | inl f ↦ rw (nz, o, e, f, on_peer_offered) v
          | inr (i, f) ↦
              let h = free_bound a i v f in
              let slot : ZoneSlotRecord = record { client_id = x; is_occupied = true } in
              rw (nz, o, e, f, on_peer_offered)
                (put_engine-IsValid p table count
                  (record a { slot_records = set a.slot_records i slot }) i
                  (Engine.reset (engine_at p a i))
                  (record {
                    manager = v.manager;
                    engines_size = v.engines_size;
                    records_size = length-set a.slot_records i slot ∙ v.records_size;
                    lookups = v.lookups;
                    backed = v.backed;
                  })
                  h (reset-LooksUp p table count (engine_at p a i) (v.lookups i h)))
        ]
      ]
    ]
  ]

  pub platform-IsValid : (a : Adaptor p) (s : p.State) → Ok a → Ok (record a { platform = s })
  platform-IsValid a s v = record {
    manager = v.manager;
    engines_size = v.engines_size;
    records_size = v.records_size;
    lookups = v.lookups;
    backed = v.backed;
  }

  pub spdm_ok-ok : (st : SpdmStatus) → spdm_ok st ≡ true → st ≡ SpdmStatus.ok
  spdm_ok-ok st h = ground arith

  pub fresh-LooksUp : LooksUp p table count (Engine.construct table count)
  unfolding Engine.construct
  fresh-LooksUp = (refl, refl)

  pub empty-Backed :
      (has_callback : Bool) (i : ℕ)
      → StaysBacked p table count Tlm.empty_slot (Tlm.slot_at (Tlm.construct has_callback) i)
  unfolding Tlm.construct
  empty-Backed has_callback i b =
      subst (λ (s : Tlm.TokenSlot). Backed p table count s)
        (sym (get_or-replicate Tlm.max_active_sessions i Tlm.empty_slot)) b

  choose-IsValid : (a b : Adaptor p) (c : Bool) → Ok a → Ok b → Ok (if c then b else a)
  choose-IsValid a b true v w = w
  choose-IsValid a b false v w = v

  log-IsValid :
      (a : Adaptor p) (frames : List Frame) → Ok a → Ok (record a { transmitted = frames })
  log-IsValid a frames v = record {
    manager = v.manager;
    engines_size = v.engines_size;
    records_size = v.records_size;
    lookups = v.lookups;
    backed = v.backed;
  }

  transmit-IsValid : (a : Adaptor p) (i : ℕ) (x : ClientId) → Ok a → Ok (transmit_challenge p a i x)
  unfolding transmit_challenge
  transmit-IsValid a i x v = choose-IsValid a _ a.has_transmit v (log-IsValid a _ v)

  request-IsValid :
      (a : Adaptor p) (i : ℕ) (request : SpdmAuthRequest)
      → Ok a
      → i < max_zone_slots
      → Ok (forward_request p a i request).1
  unfolding forward_request
  request-IsValid a i request v h =
      let out = process_auth_request p (engine_at p a i) request a.platform in
      let sent =
        put_engine-IsValid p table count a i out.engine v h
          (request-LooksUp p table count (engine_at p a i) request a.platform (v.lookups i h)) in
      let a' = record (put_engine p a i out.engine) { platform = out.platform } in
      let w : Ok a' = platform-IsValid (put_engine p a i out.engine) out.platform sent in
      elim (Bool-cases (spdm_ok out.status)) [
        | inl ok ↦ rw ok (transmit-IsValid a' i request.client_id w)
        | inr no_ok ↦ rw no_ok w
      ]

  pub on_request-IsValid :
      (a : Adaptor p) (payload : Option Bytes) → Ok a → Ok (on_auth_request p a payload).1
  unfolding on_auth_request
  on_request-IsValid a none v = v
  on_request-IsValid a (some payload) v =
      elim (Bool-cases (ltb (length payload) spdm_auth_request_len)) [
        | inl short ↦ rw short v
        | inr long ↦ elim (Option-cases (find_slot p a (decode_request payload).client_id)) [
          | inl e ↦ rw (long, e, on_auth_request) v
          | inr (i, e) ↦
              rw (long, e, on_auth_request)
                (request-IsValid a i (decode_request payload) v
                  (slot_bound a (decode_request payload).client_id i v e))
        ]
      ]
