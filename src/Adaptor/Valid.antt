-- ===== src/Adaptor/Valid.antt =====
-- The invariant of the adaptor: a valid session table in which every live session is vouched for by
-- the platform, and engines that all look peers up in the same table.
use mathlib.Core.Path.{subst}
use zonal_zero_trust_auth.Base.{
  ℕ, ◌<◌, ◌≡◌, refl, sym, ap, ◌∙◌, List, true, Option, some, length, get_or-set, length-set, ◌==◌,
  arith, Bool-cases, inl, inr,
}
use zonal_zero_trust_auth.Platform.{Nonce, ClientId, EccPublicKey, SessionKey, CryptoPlatform}
use zonal_zero_trust_auth.Engine
use zonal_zero_trust_auth.Engine.{
  KnownPeerEntry, SpdmAuthRequest, SpdmAuthResponse, SpdmProtocolEngine, SpdmSessionToken,
  SpdmStatus, Requested, Responded, process_auth_request, process_auth_response,
  find_peer_public_key,
}
use zonal_zero_trust_auth.Engine.Handshake.{
  Vouched, process_auth_response-Accepts, Accepts-process_auth_response,
}
use zonal_zero_trust_auth.Tlm
use zonal_zero_trust_auth.Tlm.{
  TokenSlot, TokenLifecycleManager, TlmStatus, Validated, max_active_sessions, admitted_slot,
  count_anomaly, empty_slot,
}
use zonal_zero_trust_auth.Tlm.Invariant
use zonal_zero_trust_auth.Tlm.Slotwise.{IsStable, AllowsToken, AllowsCount, Slotwise}
use zonal_zero_trust_auth.Adaptor.{Adaptor, max_zone_slots, engine_at, put_engine}

module _ (p : CryptoPlatform) (table : Option (List KnownPeerEntry)) (count : ℕ) where
  -- The key that the peer table holds for an identifier.
  abbrev pub peer_key : ClientId → Option EccPublicKey
  peer_key client_id = find_peer_public_key (Engine.construct table count) client_id

  -- Key and nonce of a session come from a handshake in which the platform accepted a signature by
  -- the key that the peer table holds for its client.
  pub record IsBacked (client_id : ClientId) (nonce : Nonce) (session : SessionKey) : Type 0 where
    pub key : EccPublicKey
    pub known : peer_key client_id ≡ some key
    pub vouched : Vouched p key client_id nonce session

  abbrev pub Backed : TokenSlot → Type 0
  Backed s = s.is_active ≡ true → IsBacked s.client_id s.session_nonce s.session_key

  abbrev pub StaysBacked : TokenSlot → TokenSlot → Type 0
  StaysBacked old new = Backed old → Backed new

  pub StaysBacked-stable : IsStable StaysBacked
  StaysBacked-stable = record {
    same = λ s b. b;
    ended = λ s b a. absurd (cc);
    touched = λ s now live b a. b live;
    joined = λ s t u f g b. g (f b);
  }

  pub StaysBacked-AllowsCount : (x : ClientId) → AllowsCount StaysBacked x
  StaysBacked-AllowsCount x s is_anomaly own b a = absurd (cc)

  pub StaysBacked-AllowsToken :
      (token : SpdmSessionToken) (now : ℕ)
      → IsBacked token.client_id token.session_nonce token.session_key
      → AllowsToken StaysBacked token now
  StaysBacked-AllowsToken token now b s open_slot old a = b

  -- An engine that looks peers up in the adaptor's table.
  abbrev pub LooksUp : SpdmProtocolEngine → Type 0
  LooksUp e = (e.peer_table ≡ table) × (e.peer_count ≡ (Engine.construct table count).peer_count)

  pub LooksUp-peer_key :
      (e : SpdmProtocolEngine) → LooksUp e → (x : ClientId) → find_peer_public_key e x ≡ peer_key x
  unfolding find_peer_public_key Engine.construct
  LooksUp-peer_key e l x =
      ap
        (λ (t : Option (List KnownPeerEntry)). find_peer_public_key (record e { peer_table = t }) x)
        l.0
      ∙ ap (λ (n : ℕ). find_peer_public_key (record e { peer_table = table; peer_count = n }) x) l.1

  pub record IsValid (a : Adaptor p) : Type 0 where
    pub manager : Tlm.Invariant.IsValid a.tlm
    pub engines_size : length a.engines ≡ max_zone_slots
    pub records_size : length a.slot_records ≡ max_zone_slots
    pub lookups : (i : ℕ) → i < max_zone_slots → LooksUp (engine_at p a i)
    pub backed : (i : ℕ) → i < max_active_sessions → Backed (Tlm.slot_at a.tlm i)

  pub request-LooksUp :
      (e : SpdmProtocolEngine) (request : SpdmAuthRequest) (s : p.State)
      → LooksUp e
      → LooksUp (process_auth_request p e request s).engine
  unfolding process_auth_request
  request-LooksUp e request s l = ground arith

  pub response-LooksUp :
      (e : SpdmProtocolEngine) (response : SpdmAuthResponse) (token : SpdmSessionToken)
      (s : p.State)
      → LooksUp e
      → LooksUp (process_auth_response p e response token s).engine
  unfolding process_auth_response Engine.revoke
  response-LooksUp e response token s l = ground arith

  pub revoke-LooksUp : (e : SpdmProtocolEngine) → LooksUp e → LooksUp (Engine.revoke e)
  unfolding Engine.revoke
  revoke-LooksUp e l = l

  pub reset-LooksUp : (e : SpdmProtocolEngine) → LooksUp e → LooksUp (Engine.reset e)
  unfolding Engine.reset
  reset-LooksUp e l = l

  -- A write of one engine.
  pub put_engine-IsValid :
      (a : Adaptor p) (i : ℕ) (e : SpdmProtocolEngine)
      → IsValid a
      → i < max_zone_slots
      → LooksUp e
      → IsValid (put_engine p a i e)
  put_engine-IsValid a i e v h l = record {
    manager = v.manager;
    engines_size = length-set a.engines i e ∙ v.engines_size;
    records_size = v.records_size;
    lookups = λ j hj.
        subst LooksUp
          (sym (
            get_or-set a.engines i j e (Engine.construct a.peer_table a.peer_count)
              (omega (arith, v.engines_size))))
          (elim (Bool-cases (i == j)) [
            | inl same ↦ rw same l
            | inr other ↦ rw other (v.lookups j hj)
          ]);
    backed = v.backed;
  }

  -- A change of the session manager.
  pub put_tlm-IsValid :
      (a : Adaptor p) (tlm : TokenLifecycleManager)
      → IsValid a
      → Tlm.Invariant.IsValid tlm
      → Slotwise StaysBacked StaysBacked-stable a.tlm tlm
      → IsValid (record a { tlm = tlm })
  put_tlm-IsValid a tlm v w s = record {
    manager = w;
    engines_size = v.engines_size;
    records_size = v.records_size;
    lookups = v.lookups;
    backed = λ i h. s i h (v.backed i h);
  }

  -- An accepted response yields a backed token.
  pub response-IsBacked :
      (e : SpdmProtocolEngine) (response : SpdmAuthResponse) (token : SpdmSessionToken)
      (s : p.State)
      → LooksUp e
      → let out = process_auth_response p e response token s in
        out.status ≡ SpdmStatus.ok
        → (out.token.client_id ≡ response.client_id)
          × IsBacked out.token.client_id out.token.session_nonce out.token.session_key
  response-IsBacked e response token s l h =
      let (key, session, s3, a) = process_auth_response-Accepts p e response token s h in
      rw (Accepts-process_auth_response p e response token s a) (
        refl,
        record {
          key = key;
          known = sym (LooksUp-peer_key e l response.client_id) ∙ a.known;
          vouched = record {
            response = response;
            digest = a.digest;
            s0 = s;
            s1 = a.s1;
            s2 = a.s2;
            s3 = s3;
            hashed = a.hashed;
            signed = a.signed;
            derived = a.derived;
          };
        },
      )
