-- ===== src/Adaptor/Typed.antt =====
-- Arrays keep their sizes over every history of hook calls: in the engines, in the session table and
-- in the frames that go out.
pub mod Slots
pub mod Challenges
pub mod Sessions
pub mod History
use mathlib.Core.Path.{subst}
use zonal_zero_trust_auth.Base.{
  ℕ, ◌≤◌, ◌<◌, ◌≡◌, refl, sym, ap, ◌∙◌, List, [], ◌∷◌, ◌++◌, Bool, true, false, Option, none, some,
  All, length, set, get_or-set, length-set, length-replicate, get_or-replicate, ◌==◌, ltb,
  if◌then◌else◌, arith, Bool-cases, Option-cases, inl, inr,
}
use zonal_zero_trust_auth.Platform.{
  Bytes, ClientId, SessionKey, IsArray, IsClientId, CryptoPlatform, nonce_len, session_key_len,
  client_id_len,
}
use zonal_zero_trust_auth.ConstantTime.{is_zero}
use zonal_zero_trust_auth.Engine
use zonal_zero_trust_auth.Engine.{
  KnownPeerEntry, SpdmProtocolEngine, SpdmAuthRequest, SpdmAuthResponse, SpdmSessionToken,
  spdm_auth_request_len, spdm_auth_response_len, process_auth_request, process_auth_response,
}
use zonal_zero_trust_auth.Engine.Typed
use zonal_zero_trust_auth.Engine.Typed.{
  FillsArrays, IsToken, zeros-IsArray, revoke-IsTyped, reset-IsTyped, request-IsTyped,
  response-IsTyped, response-IsToken,
}
use zonal_zero_trust_auth.Tlm
use zonal_zero_trust_auth.Tlm.{TokenSlot, TokenLifecycleManager, max_active_sessions}
use zonal_zero_trust_auth.Tlm.Invariant
use zonal_zero_trust_auth.Tlm.Register.Outcome.{register_token-IsValid}
use zonal_zero_trust_auth.Tlm.Sessions.Valid.{validate_token-IsValid, revoke_token-IsValid}
use zonal_zero_trust_auth.Tlm.Expiry.{evaluate_token_expiry_lem}
use zonal_zero_trust_auth.Tlm.Slotwise.{
  IsStable, AllowsToken, AllowsCount, Slotwise, register_token-Slotwise, validate_token-Slotwise,
  revoke_token-Slotwise, evaluate_token_expiry-Slotwise,
}
use zonal_zero_trust_auth.Adaptor.{
  Frame, Adaptor, max_zone_slots, empty_record, empty_token, some_ip_method_id_challenge,
  decode_request, decode_response, spdm_ok, tlm_ok, engine_at, put_engine, construct, find_slot,
  on_peer_offered, transmit_challenge, forward_request, on_auth_request, register_session,
  complete_handshake, on_auth_response, on_session_tick, is_session_active, revoke_engine,
  revoke_session,
}

-- The secrets of a slot, and what a frame carries.
abbrev pub IsSlot : TokenSlot → Type 0
IsSlot s = IsArray session_key_len s.session_key × IsArray nonce_len s.session_nonce

abbrev pub IsFrame : Frame → Type 0
IsFrame f =
    IsClientId f.client_id
    × (f.method_id ≡ some_ip_method_id_challenge)
    × IsArray nonce_len f.payload

abbrev pub StaysSlot : TokenSlot → TokenSlot → Type 0
StaysSlot old new = IsSlot old → IsSlot new

pub StaysSlot-stable : IsStable StaysSlot
StaysSlot-stable = record {
  same = λ s t. t;
  ended = λ s t. (zeros-IsArray session_key_len, zeros-IsArray nonce_len);
  touched = λ s now live t. t;
  joined = λ s t u f g h. g (f h);
}

pub StaysSlot-AllowsCount : (x : ClientId) → AllowsCount StaysSlot x
StaysSlot-AllowsCount x s is_anomaly own t =
    (zeros-IsArray session_key_len, zeros-IsArray nonce_len)

pub StaysSlot-AllowsToken :
    (token : SpdmSessionToken) (now : ℕ) → IsToken token → AllowsToken StaysSlot token now
StaysSlot-AllowsToken token now t s open_slot old = (t.session_key, t.session_nonce)

module _ (p : CryptoPlatform) where
  -- Sizes and bytes throughout an adaptor, over a valid session manager.
  pub record IsTyped (a : Adaptor p) : Type 0 where
    pub manager : Tlm.Invariant.IsValid a.tlm
    pub engines_size : length a.engines ≡ max_zone_slots
    pub records_size : length a.slot_records ≡ max_zone_slots
    pub engines : (i : ℕ) → i < max_zone_slots → Engine.Typed.IsTyped (engine_at p a i)
    pub slots : (i : ℕ) → i < max_active_sessions → IsSlot (Tlm.slot_at a.tlm i)
    pub frames : All IsFrame a.transmitted

  pub put_engine-IsTyped :
      (a : Adaptor p) (i : ℕ) (e : SpdmProtocolEngine)
      → IsTyped a
      → i < max_zone_slots
      → Engine.Typed.IsTyped e
      → IsTyped (put_engine p a i e)
  put_engine-IsTyped a i e t h new = record {
    manager = t.manager;
    engines_size = length-set a.engines i e ∙ t.engines_size;
    records_size = t.records_size;
    engines = λ j hj.
        subst Engine.Typed.IsTyped
          (sym (
            get_or-set a.engines i j e (Engine.construct a.peer_table a.peer_count)
              (omega (arith, t.engines_size))))
          (elim (Bool-cases (i == j)) [
            | inl same ↦ rw same new
            | inr other ↦ rw other (t.engines j hj)
          ]);
    slots = t.slots;
    frames = t.frames;
  }

  pub put_tlm-IsTyped :
      (a : Adaptor p) (tlm : TokenLifecycleManager)
      → IsTyped a
      → Tlm.Invariant.IsValid tlm
      → Slotwise StaysSlot StaysSlot-stable a.tlm tlm
      → IsTyped (record a { tlm = tlm })
  put_tlm-IsTyped a tlm t v s = record {
    manager = v;
    engines_size = t.engines_size;
    records_size = t.records_size;
    engines = t.engines;
    slots = λ i h. s i h (t.slots i h);
    frames = t.frames;
  }

  pub platform-IsTyped :
      (a : Adaptor p) (s : p.State) → IsTyped a → IsTyped (record a { platform = s })
  platform-IsTyped a s t = record {
    manager = t.manager;
    engines_size = t.engines_size;
    records_size = t.records_size;
    engines = t.engines;
    slots = t.slots;
    frames = t.frames;
  }
