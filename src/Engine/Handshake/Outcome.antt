-- ===== src/Engine/Handshake/Outcome.antt =====
-- `ProcessAuthResponse`: its two outcomes.
use zonal_zero_trust_auth.Base.{◌≡◌, ◌≢◌, ◌⊎◌, inl, inr, ap}
use zonal_zero_trust_auth.Platform.{EccPublicKey, SessionKey, CryptoPlatform}
use zonal_zero_trust_auth.Engine.{
  SpdmProtocolEngine, SpdmAuthResponse, SpdmSessionToken, SpdmStatus, State, Responded,
  process_auth_response, revoke,
}
use zonal_zero_trust_auth.Engine.Handshake.{
  Accepts, accepted_outcome, status-ok_or, Accepts-process_auth_response,
  process_auth_response-Accepts, process_auth_response-refused,
}

module _ (p : CryptoPlatform) where
  -- The two outcomes of a response.
  abbrev pub Handled :
      SpdmProtocolEngine
      → SpdmAuthResponse
      → SpdmSessionToken
      → p.State
      → Responded p.State
      → Type 0
  Handled e response token s out =
      ((key : EccPublicKey) × (session : SessionKey) × (s3 : p.State) × Accepts p e response s key
          session s3
        × (out ≡ accepted_outcome p e response session s3))
      ⊎ ((key : EccPublicKey) (session : SessionKey) (s3 : p.State)
          → ¬ Accepts p e response s key session s3)
        × (out.status ≢ SpdmStatus.ok)
        × (out.token ≡ token)
        × ((e.state ≢ State.challenge_sent)
              × (out.status ≡ SpdmStatus.invalid_state)
              × (out.engine ≡ e)
              × (out.platform ≡ s)
            ⊎ (e.state ≡ State.challenge_sent) × (out.engine ≡ revoke e))

  -- A response is accepted exactly if it was awaited, names the pending client, has a key in the peer
  -- table, and passes the digest, the signature check and the key derivation of the platform, one after
  -- the other on the platform's state. Then the engine is authenticated as the client and the token
  -- carries the client, the pending nonce and the derived key. Otherwise the token is left alone: out of
  -- turn nothing changes, in turn the engine is revoked.
  pub process_auth_response_lem :
      (e : SpdmProtocolEngine) (response : SpdmAuthResponse) (token : SpdmSessionToken)
      (s : p.State)
      → Handled e response token s (process_auth_response p e response token s)
  process_auth_response_lem e response token s =
      let out = process_auth_response p e response token s in
      elim (status-ok_or out.status) [
        | inl good ↦
            let (key, session, s3, a) = process_auth_response-Accepts p e response token s good in
            inl (key, session, s3, a, Accepts-process_auth_response p e response token s a)
        | inr bad ↦
            let (kept, left) = process_auth_response-refused p e response token s bad in
            inr (
              λ key session s3 a. bad (
                  ap (λ (r : Responded p.State). r.status)
                    (Accepts-process_auth_response p e response token s a)),
              bad,
              kept,
              left,
            )
      ]
