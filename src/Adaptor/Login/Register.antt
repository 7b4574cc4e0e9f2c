-- ===== src/Adaptor/Login/Register.antt =====
-- The response of an honest peer: its session is registered, and the gate opens.
use mathlib.Core.List.{append-nil}
use zonal_zero_trust_auth.Base.{
  ℕ, ◌≤◌, ◌<◌, ◌≡◌, refl, sym, ap, ◌∙◌, [], ◌++◌, false, some, length, take, ltb, length-append,
  take-append, drop-append, arith, inl, inr,
}
use zonal_zero_trust_auth.Platform.{
  ClientId, Nonce, CryptoSignature, EccPublicKey, SessionKey, CryptoPlatform, IsClientId,
  client_id_len, ecc_signature_len,
}
use zonal_zero_trust_auth.ConstantTime.{is_zero, same_bytes_self}
use zonal_zero_trust_auth.Engine
use zonal_zero_trust_auth.Engine.{
  SpdmProtocolEngine, SpdmAuthResponse, SpdmSessionToken, Responded, State, spdm_auth_response_len,
  find_peer_public_key, process_auth_response,
}
use zonal_zero_trust_auth.Engine.Handshake.{Accepts, Accepts-process_auth_response}
use zonal_zero_trust_auth.Tlm
use zonal_zero_trust_auth.Tlm.{
  TlmStatus, TokenLifecycleManager, Validated, max_active_sessions, token_lifetime_ms, age_ms,
  slot_at, register_token, validate_token,
}
use zonal_zero_trust_auth.Tlm.Invariant
use zonal_zero_trust_auth.Tlm.Invariant.Find.{is_locked_out-some}
use zonal_zero_trust_auth.Tlm.Register.Outcome.{Holds, register_token_lem}
use zonal_zero_trust_auth.Tlm.Sessions.{Holds-validate_token}
use zonal_zero_trust_auth.Adaptor.{
  AdaptorStatus, Adaptor, max_zone_slots, empty_token, engine_at, put_engine, find_slot,
  register_session, complete_handshake, on_auth_response, is_session_active,
}
use zonal_zero_trust_auth.Adaptor.Login.Exchange.{Serves, challenged}

-- A token for which there is a place is registered, and held afterwards.
pub register_token-Holds :
    (m : TokenLifecycleManager) (token : SpdmSessionToken) (now : ℕ)
    → Tlm.Invariant.IsValid m
    → IsClientId token.client_id
    → is_zero token.client_id ≡ false
    → Tlm.is_locked_out m token.client_id ≡ false
    → (k : ℕ) → k < max_active_sessions
    → (slot_at m k).is_locked_out ≡ false
    → ((register_token m token now).0 ≡ TlmStatus.ok)
      × Holds (register_token m token now).1 token now
register_token-Holds m token now v id nz o k hk open_slot =
    elim (register_token_lem token now id m v) [
      | inl (z, e) ↦ absurd (cc)
      | inr (inl (z, l, e)) ↦ absurd (cc)
      | inr (inr (inl (z, l, all, e))) ↦ let barred = all k hk in absurd (cc)
      | inr (inr (inr (z, l, some_open, ok, admission))) ↦ (ok, admission.holds)
    ]

module _ (p : CryptoPlatform) where
  -- The gate is open to the client at a time, and hands out the key.
  abbrev pub IsOpen : Adaptor p → ClientId → SessionKey → ℕ → SessionKey → Type 0
  IsOpen a x session now old =
      let answer = is_session_active p a x now (some old) in
      (answer.0 ≡ AdaptorStatus.ok) × (answer.1 ≡ some session)

  -- It is so for the lifetime of a token.
  abbrev pub Opens : Adaptor p → ClientId → SessionKey → ℕ → Type 0
  Opens a x session issued =
      (now : ℕ) (old : SessionKey)
      → age_ms now issued ≤ token_lifetime_ms
      → IsOpen a x session now old

  pub Holds-Opens :
      (a : Adaptor p) (token : SpdmSessionToken) (issued : ℕ)
      → Holds a.tlm token issued
      → Opens a token.client_id token.session_key issued
  unfolding is_session_active
  Holds-Opens a token issued holds now old young =
      let free = is_locked_out-some a.tlm token.client_id holds.idx holds.at_idx ∙ holds.unlocked in
      let (good, key) = Holds-validate_token a.tlm token issued now old holds young in
      rw free (rw good (refl, key))

  -- The call is answered with kOk, and the manager holds the token since then.
  abbrev pub Admits : AdaptorStatus × Adaptor p → SpdmSessionToken → ℕ → Type 0
  Admits out token issued = (out.0 ≡ AdaptorStatus.ok) × Holds out.1.tlm token issued

  registered-Admits :
      (a : Adaptor p) (i : ℕ) (token : SpdmSessionToken) (now : ℕ)
      → ((register_token a.tlm token now).0 ≡ TlmStatus.ok)
        × Holds (register_token a.tlm token now).1 token now
      → Admits (register_session p a i token now) token now
  unfolding register_session
  registered-Admits a i token now (good, holds) = rw good (refl, holds)

  -- An engine that waits for the client accepts the response.
  challenged-Accepts :
      (e : SpdmProtocolEngine) (x : ClientId) (key : EccPublicKey) (signature : CryptoSignature)
      (nonce : Nonce) (session : SessionKey) (s : p.State)
      (serves : Serves p s x key signature nonce session)
      → find_peer_public_key e x ≡ some key
      → Accepts p
          (challenged e x nonce)
          (record { client_id = x; signature = signature })
          serves.s1
          key
          session
          serves.s4
  unfolding find_peer_public_key Engine.reset
  challenged-Accepts e x key signature nonce session s serves known = record {
    digest = serves.digest;
    s1 = serves.s2;
    s2 = serves.s3;
    waiting = refl;
    same_client = same_bytes_self x;
    known = known;
    hashed = serves.hashed;
    signed = serves.signed;
    derived = serves.derived;
  }

  module _ (a : Adaptor p) (size : length a.engines ≡ max_zone_slots) (x : ClientId)
      (hx : IsClientId x) (i : ℕ) (h : i < max_zone_slots) (bound : find_slot p a x ≡ some i)
      (e : SpdmProtocolEngine) (key : EccPublicKey) (signature : CryptoSignature)
      (hs : length signature ≡ ecc_signature_len) (nonce : Nonce) (session : SessionKey)
      (s : p.State) (serves : Serves p s x key signature nonce session)
      (at_i : engine_at p a i ≡ challenged e x nonce) (known : find_peer_public_key e x ≡ some key)
      (platform : a.platform ≡ serves.s1) (v : Tlm.Invariant.IsValid a.tlm) (nz : is_zero x ≡ false)
      (o : Tlm.is_locked_out a.tlm x ≡ false) (k : ℕ) (hk : k < max_active_sessions)
      (open_slot : (slot_at a.tlm k).is_locked_out ≡ false) (now : ℕ) where
    abbrev pub agreed : SpdmSessionToken
    agreed = record { client_id = x; session_nonce = nonce; session_key = session }

    complete_handshake-Admits :
        Admits
          (complete_handshake p a i (record { client_id = x; signature = signature }) now)
          agreed
          now
    unfolding complete_handshake
    complete_handshake-Admits =
        let response : SpdmAuthResponse = record { client_id = x; signature = signature } in
        let done =
          Accepts-process_auth_response p (challenged e x nonce) response empty_token serves.s1
            (challenged-Accepts e x key signature nonce session s serves known) in
        let b =
          record (put_engine p a i (record (challenged e x nonce) {
            authenticated_client_id = x;
            state = State.authenticated;
          })) { platform = serves.s4 } in
        rw (at_i, platform)
          (rw done (
            registered-Admits b i agreed now
              (register_token-Holds a.tlm agreed now v hx nz o k hk open_slot)))

    pub on_auth_response-Admits :
        Admits (on_auth_response p a (some (x ++ signature)) now) agreed now
    unfolding on_auth_response
    on_auth_response-Admits =
        let long : ltb (length (x ++ signature)) spdm_auth_response_len ≡ false =
          ground (arith, length-append x signature) in
        let head = take-append client_id_len x signature hx.0 in
        let tail = drop-append client_id_len x signature hx.0 in
        let all : take ecc_signature_len signature ≡ signature =
          ap (take ecc_signature_len) (sym (append-nil signature))
          ∙ take-append ecc_signature_len signature [] hs in
        rw (long, head)
          (rw (bound, tail, on_auth_response) (rw (head, all) complete_handshake-Admits))
