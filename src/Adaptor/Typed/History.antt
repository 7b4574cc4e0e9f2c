-- ===== src/Adaptor/Typed/History.antt =====
-- Every history of hook calls keeps the sizes of all arrays.
use mathlib.Core.Path.{subst}
use zonal_zero_trust_auth.Base.{
  ℕ, sym, List, [], ◌∷◌, Bool, Option, length-replicate, get_or-replicate,
}
use zonal_zero_trust_auth.Platform.{CryptoPlatform, nonce_len, session_key_len, client_id_len}
use zonal_zero_trust_auth.Engine
use zonal_zero_trust_auth.Engine.{
  KnownPeerEntry, SpdmProtocolEngine, SpdmAuthRequest, SpdmAuthResponse, SpdmSessionToken,
  spdm_auth_request_len, spdm_auth_response_len, process_auth_request, process_auth_response,
}
use zonal_zero_trust_auth.Engine.Typed
use zonal_zero_trust_auth.Engine.Typed.{
  FillsArrays, IsToken, zeros-IsArray, revoke-IsTyped, reset-IsTyped, request-IsTyped,
  response-IsTyped, response-IsToken,
}
use zonal_zero_trust_auth.Tlm
use zonal_zero_trust_auth.Tlm.History
use zonal_zero_trust_auth.Adaptor.{Adaptor, max_zone_slots, empty_record, construct}
use zonal_zero_trust_auth.Adaptor.Events
use zonal_zero_trust_auth.Adaptor.Events.{
  Event, offers, requests, responds, ticks, queries, revokes, IsPayload, AllTyped, step, run,
  head-IsClientId,
}
use zonal_zero_trust_auth.Adaptor.Typed.{IsTyped, IsSlot}
use zonal_zero_trust_auth.Adaptor.Typed.Challenges.{offer-IsTyped, request_hook-IsTyped}
use zonal_zero_trust_auth.Adaptor.Typed.Sessions.{
  response_hook-IsTyped, query-IsTyped, tick-IsTyped, revoke_hook-IsTyped,
}

module _ (p : CryptoPlatform) (fills : FillsArrays p) where
  step-IsTyped :
      (a : Adaptor p) (e : Event) → Events.IsTyped e → IsTyped p a → IsTyped p (step p a e)
  unfolding step
  step-IsTyped a (offers x) t w = offer-IsTyped p a x w
  step-IsTyped a (requests payload) t w = request_hook-IsTyped p fills a payload t w
  step-IsTyped a (responds payload now) t w = response_hook-IsTyped p fills a payload now t w
  step-IsTyped a (ticks now) t w = tick-IsTyped p fills a now w
  step-IsTyped a (queries x now out) t w = query-IsTyped p fills a x now out t w
  step-IsTyped a (revokes x is_anomaly) t w = revoke_hook-IsTyped p fills a x is_anomaly t w

  run-IsTyped :
      (a : Adaptor p) (es : List Event) → AllTyped es → IsTyped p a → IsTyped p (run p a es)
  unfolding run
  run-IsTyped a [] t w = w
  run-IsTyped a (e ∷ es) t w = run-IsTyped (step p a e) es t.1 (step-IsTyped a e t.0 w)

  fresh-IsTyped :
      (table : Option (List KnownPeerEntry)) (count : ℕ)
      → Engine.Typed.IsTyped (Engine.construct table count)
  unfolding Engine.construct
  fresh-IsTyped table count = record {
    pending_nonce = zeros-IsArray nonce_len;
    pending_client_id = zeros-IsArray client_id_len;
    authenticated_client_id = zeros-IsArray client_id_len;
  }

  fresh-IsSlot : (has_callback : Bool) (i : ℕ) → IsSlot (Tlm.slot_at (Tlm.construct has_callback) i)
  unfolding Tlm.construct
  fresh-IsSlot has_callback i =
      subst IsSlot (sym (get_or-replicate Tlm.max_active_sessions i Tlm.empty_slot))
        (zeros-IsArray session_key_len, zeros-IsArray nonce_len)

  construct-IsTyped :
      (platform : p.State) (table : Option (List KnownPeerEntry)) (count : ℕ)
      (has_transmit has_callback : Bool)
      → IsTyped p (construct p platform table count has_transmit has_callback)
  unfolding construct
  construct-IsTyped platform table count has_transmit has_callback = record {
    manager = Tlm.History.construct-IsValid has_callback;
    engines_size = length-replicate max_zone_slots (Engine.construct table count);
    records_size = length-replicate max_zone_slots empty_record;
    engines = λ i h.
        subst Engine.Typed.IsTyped
          (sym (get_or-replicate max_zone_slots i (Engine.construct table count)))
          (fresh-IsTyped table count);
    slots = λ i h. fresh-IsSlot has_callback i;
    frames = tt;
  }

  -- On a platform that fills nonces and keys with bytes, after any history of hook calls on an adaptor
  -- fresh from its constructor: the nonces and identifiers of every engine and the key and nonce of
  -- every session slot are arrays of their sizes, and every frame that went out is a challenge with an
  -- identifier of eight bytes and a payload of 32.
  pub run-construct-IsTyped :
      (platform : p.State) (table : Option (List KnownPeerEntry)) (count : ℕ)
      (has_transmit has_callback : Bool) (es : List Event)
      → AllTyped es
      → IsTyped p (run p (construct p platform table count has_transmit has_callback) es)
  run-construct-IsTyped platform table count has_transmit has_callback es t =
      run-IsTyped (construct p platform table count has_transmit has_callback) es t
        (construct-IsTyped platform table count has_transmit has_callback)
