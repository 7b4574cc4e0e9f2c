-- ===== src/Adaptor/Login/Exchange.antt =====
-- The two frames of an honest peer: its request is challenged, its response registered.
use zonal_zero_trust_auth.Base.{
  ℕ, ◌<◌, ◌≡◌, refl, ◌∙◌, List, [], ◌∷◌, ◌++◌, false, some, length, if◌then◌else◌, ltb,
  length-append, length-set, take-append, drop-append, arith, Bool-cases, inl, inr,
}
use zonal_zero_trust_auth.Platform.{
  ClientId, Nonce, CryptoSignature, EccPublicKey, SessionKey, Sha256Digest, CryptoStatus,
  CryptoPlatform, IsClientId, client_id_len, session_key_len, sha256_digest_len, nonce_len, zeros,
}
use zonal_zero_trust_auth.Engine
use zonal_zero_trust_auth.Engine.{
  SpdmProtocolEngine, SpdmAuthRequest, SpdmAuthResponse, SpdmStatus, State, Requested,
  supported_version, find_peer_public_key, process_auth_request, version_matches,
  spdm_auth_request_len,
}
use zonal_zero_trust_auth.Adaptor.{
  AdaptorStatus, Adaptor, Frame, max_zone_slots, some_ip_method_id_challenge, engine_at, put_engine,
  find_slot, transmit_challenge, forward_request, on_auth_request,
}
use zonal_zero_trust_auth.Adaptor.Login.Offer.{engine-put_engine}

-- The platform serves a login that starts in state `s`: it draws a nonce, digests nonce and
-- identifier, accepts the signature under the key, and derives the session key.
pub record Serves (p : CryptoPlatform) (s : p.State) (x : ClientId) (key : EccPublicKey)
    (signature : CryptoSignature) (nonce : Nonce) (session : SessionKey) : Type 0 where
  pub digest : Sha256Digest
  pub s1 : p.State
  pub s2 : p.State
  pub s3 : p.State
  pub s4 : p.State
  pub drawn : p.generate_random_nonce s (zeros nonce_len) ≡ (CryptoStatus.ok, nonce, s1)
  pub hashed :
      p.compute_sha256 s1 (some (nonce ++ x)) (zeros sha256_digest_len)
      ≡ (CryptoStatus.ok, digest, s2)
  pub signed : p.verify_ecc_signature s2 digest signature key ≡ (CryptoStatus.ok, s3)
  pub derived :
      p.derive_session_key s3 nonce x (zeros session_key_len) ≡ (CryptoStatus.ok, session, s4)

-- The engine that waits for the response to a challenge.
abbrev pub challenged : SpdmProtocolEngine → ClientId → Nonce → SpdmProtocolEngine
challenged e x nonce = record (Engine.reset e) {
  pending_nonce = nonce;
  pending_client_id = x;
  state = State.challenge_sent;
}

module _ (p : CryptoPlatform) where
  pub transmit_challenge_lem :
      (a : Adaptor p) (i : ℕ) (x : ClientId)
      → transmit_challenge p a i x ≡ record a {
        transmitted =
            if a.has_transmit
            then a.transmitted
              ++ record {
                client_id = x;
                method_id = some_ip_method_id_challenge;
                payload = (engine_at p a i).pending_nonce;
              }
                ∷ []
            else a.transmitted;
      }
  unfolding transmit_challenge
  transmit_challenge_lem a i x = elim (Bool-cases a.has_transmit) [
    | inl t ↦ rw t refl
    | inr f ↦ rw f refl
  ]

  -- A fresh engine challenges a known peer.
  fresh_request :
      (e : SpdmProtocolEngine) (x : ClientId) (key : EccPublicKey) (s s1 : p.State) (nonce : Nonce)
      → find_peer_public_key e x ≡ some key
      → p.generate_random_nonce s (zeros nonce_len) ≡ (CryptoStatus.ok, nonce, s1)
      → process_auth_request p
          (Engine.reset e)
          (record { client_id = x; version = supported_version })
          s
        ≡ record { status = SpdmStatus.ok; engine = challenged e x nonce; platform = s1 }
  unfolding process_auth_request Engine.reset version_matches find_peer_public_key
  fresh_request e x key s s1 nonce known drawn = rw (known, drawn, process_auth_request) refl

  -- The challenge that goes out, if there is a callback.
  abbrev pub challenge_frames : Adaptor p → ClientId → Nonce → List Frame
  challenge_frames a x nonce =
      if a.has_transmit
      then a.transmitted
        ++ record { client_id = x; method_id = some_ip_method_id_challenge; payload = nonce } ∷ []
      else a.transmitted

  -- The slot's engine waits, one challenge went out, and the session manager is as it was.
  pub record Challenged (a b : Adaptor p) (x : ClientId) (i : ℕ) (e : SpdmProtocolEngine)
      (nonce : Nonce) (s1 : p.State) : Type 0 where
    pub size : length b.engines ≡ max_zone_slots
    pub bound : find_slot p b x ≡ some i
    pub engine : engine_at p b i ≡ challenged e x nonce
    pub tlm : b.tlm ≡ a.tlm
    pub platform : b.platform ≡ s1
    pub transmitted : b.transmitted ≡ challenge_frames a x nonce

  module _ (a : Adaptor p) (size : length a.engines ≡ max_zone_slots) (x : ClientId)
      (hx : IsClientId x) (i : ℕ) (h : i < max_zone_slots) (bound : find_slot p a x ≡ some i) where
    forward_request-Challenged :
        (e : SpdmProtocolEngine) (key : EccPublicKey) (nonce : Nonce) (s1 : p.State)
        → engine_at p a i ≡ Engine.reset e
        → find_peer_public_key e x ≡ some key
        → p.generate_random_nonce a.platform (zeros nonce_len) ≡ (CryptoStatus.ok, nonce, s1)
        → let out = forward_request p a i (record { client_id = x; version = supported_version }) in
          (out.0 ≡ AdaptorStatus.ok) × Challenged a out.1 x i e nonce s1
    unfolding forward_request find_slot
    forward_request-Challenged e key nonce s1 at_i known drawn =
        let a' = record (put_engine p a i (challenged e x nonce)) { platform = s1 } in
        let new = engine-put_engine p a i (challenged e x nonce) size h in
        rw (at_i, fresh_request e x key a.platform s1 nonce known drawn)
          (
            refl,
            rw (transmit_challenge_lem a' i x) (record {
              size = length-set a.engines i (challenged e x nonce) ∙ size;
              bound = bound;
              engine = new;
              tlm = refl;
              platform = refl;
              transmitted = rw new refl;
            }),
          )

    pub on_auth_request-Challenged :
        (e : SpdmProtocolEngine) (key : EccPublicKey) (nonce : Nonce) (s1 : p.State)
        → engine_at p a i ≡ Engine.reset e
        → find_peer_public_key e x ≡ some key
        → p.generate_random_nonce a.platform (zeros nonce_len) ≡ (CryptoStatus.ok, nonce, s1)
        → let out = on_auth_request p a (some (x ++ supported_version)) in
          (out.0 ≡ AdaptorStatus.ok) × Challenged a out.1 x i e nonce s1
    unfolding on_auth_request
    on_auth_request-Challenged e key nonce s1 at_i known drawn =
        let long : ltb (length (x ++ supported_version)) spdm_auth_request_len ≡ false =
          ground (arith, length-append x supported_version) in
        let head = take-append client_id_len x supported_version hx.0 in
        let tail = drop-append client_id_len x supported_version hx.0 in
        rw (long, head)
          (rw (bound, tail, on_auth_request)
            (rw head (forward_request-Challenged e key nonce s1 at_i known drawn)))
