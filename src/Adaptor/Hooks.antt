-- ===== src/Adaptor/Hooks.antt =====
-- Every hook keeps the adaptor's invariant, and so does every history of hook calls.
mod Frames
mod Sessions
use mathlib.Core.Path.{subst}
use zonal_zero_trust_auth.Base.{
  ℕ, ◌≤◌, ◌<◌, ◌≡◌, refl, sym, ◌∙◌, List, [], ◌∷◌, Bool, true, false, Option, none, some, length,
  set, length-set, if◌then◌else◌, arith, Bool-cases, Option-cases, inl, inr, ltb, find_index-some,
  length-replicate, get_or-replicate,
}
use zonal_zero_trust_auth.Platform.{
  Bytes, ClientId, SessionKey, IsClientId, CryptoPlatform, client_id_len,
}
use zonal_zero_trust_auth.ConstantTime.{is_zero}
use zonal_zero_trust_auth.Engine
use zonal_zero_trust_auth.Engine.{
  KnownPeerEntry, SpdmAuthRequest, SpdmAuthResponse, SpdmProtocolEngine, SpdmSessionToken,
  SpdmStatus, Requested, Responded, spdm_auth_request_len, spdm_auth_response_len,
  process_auth_request, process_auth_response,
}
use zonal_zero_trust_auth.Tlm
use zonal_zero_trust_auth.Tlm.{TlmStatus, TokenLifecycleManager, Validated}
use zonal_zero_trust_auth.Tlm.Register.Outcome.{register_token-IsValid}
use zonal_zero_trust_auth.Tlm.Sessions.Valid.{validate_token-IsValid, revoke_token-IsValid}
use zonal_zero_trust_auth.Tlm.Expiry.{evaluate_token_expiry_lem}
use zonal_zero_trust_auth.Tlm.History
use zonal_zero_trust_auth.Tlm.Slotwise.{
  register_token-Slotwise, validate_token-Slotwise, revoke_token-Slotwise,
  evaluate_token_expiry-Slotwise,
}
use zonal_zero_trust_auth.Adaptor.{
  ZoneSlotRecord, Frame, Adaptor, max_zone_slots, empty_record, empty_token, is_bound,
  is_unoccupied, decode_request, decode_response, spdm_ok, tlm_ok, engine_at, put_engine, construct,
  find_slot, find_free_engine_slot, on_peer_offered, transmit_challenge, forward_request,
  on_auth_request, register_session, complete_handshake, on_auth_response, on_session_tick,
  is_session_active, revoke_engine, revoke_session,
}
use zonal_zero_trust_auth.Adaptor.Valid.{
  IsValid, IsBacked, Backed, StaysBacked, StaysBacked-stable, StaysBacked-AllowsToken, LooksUp,
  request-LooksUp, response-LooksUp, revoke-LooksUp, reset-LooksUp, put_engine-IsValid,
  put_tlm-IsValid, response-IsBacked,
}
use zonal_zero_trust_auth.Adaptor.Events.{
  Event, offers, requests, responds, ticks, queries, revokes, IsPayload, IsTyped, AllTyped, step,
  run, head-IsClientId,
}
pub use Frames.{slot_bound, free_bound, spdm_ok-ok}
use Frames.{Ok, offer-IsValid, fresh-LooksUp, empty-Backed, on_request-IsValid}
use Sessions.{on_response-IsValid, query-IsValid, tick-IsValid, revoke_session-IsValid}

module _ (p : CryptoPlatform) (table : Option (List KnownPeerEntry)) (count : ℕ) where
  pub step-IsValid :
      (a : Adaptor p) (e : Event) → IsTyped e → Ok p table count a → Ok p table count (step p a e)
  unfolding step
  step-IsValid a (offers x) t v = offer-IsValid p table count a x v
  step-IsValid a (requests payload) t v = on_request-IsValid p table count a payload v
  step-IsValid a (responds payload now) t v = on_response-IsValid p table count a payload now t v
  step-IsValid a (ticks now) t v = tick-IsValid p table count a now v
  step-IsValid a (queries x now out) t v = query-IsValid p table count a x now out t v
  step-IsValid a (revokes x is_anomaly) t v =
      revoke_session-IsValid p table count a x is_anomaly t v

  pub run-IsValid :
      (a : Adaptor p) (es : List Event)
      → AllTyped es
      → Ok p table count a
      → Ok p table count (run p a es)
  unfolding run
  run-IsValid a [] t v = v
  run-IsValid a (e ∷ es) t v = run-IsValid (step p a e) es t.1 (step-IsValid a e t.0 v)

  -- An adaptor starts valid.
  pub construct-IsValid :
      (platform : p.State) (has_transmit has_callback : Bool)
      → Ok p table count (construct p platform table count has_transmit has_callback)
  unfolding construct
  construct-IsValid platform has_transmit has_callback = record {
    manager = Tlm.History.construct-IsValid has_callback;
    engines_size = length-replicate max_zone_slots (Engine.construct table count);
    records_size = length-replicate max_zone_slots empty_record;
    lookups = λ i h.
        subst (LooksUp p table count)
          (sym (get_or-replicate max_zone_slots i (Engine.construct table count)))
          (fresh-LooksUp p table count);
    backed = λ i h. empty-Backed p table count has_callback i (λ a. absurd (cc));
  }
