-- ===== src/Adaptor/Gate.antt =====
-- `IsSessionActive` as a gate: whom it lets through after any history of hook calls, and how
-- `RevokeSession` closes it.
use mathlib.Core.Path.{subst}
use zonal_zero_trust_auth.Base.{
  ℕ, ◌<◌, ◌≡◌, ◌≢◌, refl, ap, ◌∙◌, List, Bool, true, Option, some, arith, Bool-cases, Option-cases,
  inl, inr,
}
use zonal_zero_trust_auth.Platform.{Nonce, ClientId, SessionKey, IsClientId, CryptoPlatform}
use zonal_zero_trust_auth.Engine.{KnownPeerEntry}
use zonal_zero_trust_auth.Tlm
use zonal_zero_trust_auth.Tlm.{TlmStatus, Validated}
use zonal_zero_trust_auth.Tlm.Invariant.Find.{found}
use zonal_zero_trust_auth.Tlm.Register.Stages.{order_of}
use zonal_zero_trust_auth.Tlm.Sessions.{IsLive, validate_token-IsLive, IsLive-validate_token}
use zonal_zero_trust_auth.Tlm.Sessions.Valid.{revoke_token-none}
use zonal_zero_trust_auth.Tlm.Revoke.{revoke_token_lem}
use zonal_zero_trust_auth.Adaptor.{
  AdaptorStatus, Adaptor, tlm_ok, construct, find_slot, is_session_active, revoke_engine,
  revoke_session,
}
use zonal_zero_trust_auth.Adaptor.Valid.{IsValid, IsBacked}
use zonal_zero_trust_auth.Adaptor.Events.{Event, AllTyped, run}
use zonal_zero_trust_auth.Adaptor.Hooks.{run-IsValid, construct-IsValid}

tlm_ok-ok : (st : TlmStatus) → tlm_ok st ≡ true → st ≡ TlmStatus.ok
tlm_ok-ok st h = ground arith

module _ (p : CryptoPlatform) where
  -- The gate opens only when the session manager confirms the token, and then hands out its key.
  pub is_session_active-opens :
      (a : Adaptor p) (x : ClientId) (now : ℕ) (out : Option SessionKey)
      → (is_session_active p a x now out).0 ≡ AdaptorStatus.ok
      → ((Tlm.validate_token a.tlm x now out).status ≡ TlmStatus.ok)
        × ((is_session_active p a x now out).1 ≡ (Tlm.validate_token a.tlm x now out).key_out)
  unfolding is_session_active
  is_session_active-opens a x now out h = elim (Bool-cases (Tlm.is_locked_out a.tlm x)) [
    | inl l ↦ absurd (ground arith)
    | inr o ↦ (tlm_ok-ok (Tlm.validate_token a.tlm x now out).status (ground arith), ground arith)
  ]

  -- What lets a client through: a live session of its own that holds the key, and behind it a
  -- handshake that the platform vouches for.
  pub record IsAdmitted (table : Option (List KnownPeerEntry)) (count : ℕ) (a : Adaptor p)
      (x : ClientId) (now : ℕ) (session : SessionKey) : Type 0 where
    pub idx : ℕ
    pub bound : idx < Tlm.max_active_sessions
    pub live : IsLive a.tlm x now idx
    pub own : (Tlm.slot_at a.tlm idx).client_id ≡ x
    pub held : (Tlm.slot_at a.tlm idx).session_key ≡ session
    pub nonce : Nonce
    pub backed : IsBacked p table count x nonce session

  IsValid-admits :
      (table : Option (List KnownPeerEntry)) (count : ℕ) (a : Adaptor p)
      → IsValid p table count a
      → (x : ClientId) → IsClientId x
      → (now : ℕ) (old : SessionKey) → (is_session_active p a x now (some old)).0 ≡ AdaptorStatus.ok
      → (session : SessionKey) × ((is_session_active p a x now (some old)).1 ≡ some session)
        × IsAdmitted table count a x now session
  IsValid-admits table count a v x hx now old h =
      let (good, out) = is_session_active-opens a x now (some old) h in
      let (idx, l) = validate_token-IsLive a.tlm x now (some old) good in
      let (bound, own, _) = found a.tlm (order_of a.tlm) v.manager.table x idx hx l.at_idx in
      let slot = Tlm.slot_at a.tlm idx in
      (
        slot.session_key,
        out
            ∙ ap (λ (r : Validated). r.key_out)
                (IsLive-validate_token a.tlm x now (some old) idx l),
        record {
          idx = idx;
          bound = bound;
          live = l;
          own = own;
          held = refl;
          nonce = slot.session_nonce;
          backed =
              subst (λ (y : ClientId). IsBacked p table count y slot.session_nonce slot.session_key)
                own (v.backed idx bound l.live);
        },
      )

  -- Whatever the SOME/IP stack called before, on an adaptor fresh from its constructor: if
  -- `IsSessionActive` answers kOk for a client, then it hands out the key of a live session of this
  -- client, issued at most 30 seconds ago and not locked out; and that key was derived by the platform
  -- after it accepted, under the public key that the peer table holds for this client, a signature of
  -- the session's nonce with the client's identifier.
  pub run-is_session_active :
      (table : Option (List KnownPeerEntry)) (count : ℕ) (platform : p.State)
      (has_transmit has_callback : Bool) (es : List Event)
      → AllTyped es
      → (x : ClientId) → IsClientId x
      → (now : ℕ) (old : SessionKey)
      → let a = run p (construct p platform table count has_transmit has_callback) es in
        (is_session_active p a x now (some old)).0 ≡ AdaptorStatus.ok
        → (session : SessionKey) × ((is_session_active p a x now (some old)).1 ≡ some session)
          × IsAdmitted table count a x now session
  run-is_session_active table count platform has_transmit has_callback es t x hx now old h =
      let start = construct p platform table count has_transmit has_callback in
      IsValid-admits table count (run p start es)
        (run-IsValid p table count start es t
          (construct-IsValid p table count platform has_transmit has_callback))
        x hx now old h

  revoke_engine-tlm : (a : Adaptor p) (x : ClientId) → (revoke_engine p a x).tlm ≡ a.tlm
  unfolding revoke_engine
  revoke_engine-tlm a x = elim (Option-cases (find_slot p a x)) [
    | inl e ↦ rw (e, revoke_engine) refl
    | inr (i, e) ↦ rw (e, revoke_engine) refl
  ]

  pub revoke_session-tlm :
      (a : Adaptor p) (x : ClientId) (is_anomaly : Bool)
      → (revoke_session p a x is_anomaly).1.tlm ≡ (Tlm.revoke_token a.tlm x is_anomaly).1
  unfolding revoke_session
  revoke_session-tlm a x is_anomaly =
      ap (λ (m : Tlm.TokenLifecycleManager). (Tlm.revoke_token m x is_anomaly).1)
        (revoke_engine-tlm a x)

  -- After `RevokeSession` for a client, on any valid adaptor and whatever the call answered, the gate
  -- is closed to that client at every time.
  pub revoke_session-is_session_active :
      (table : Option (List KnownPeerEntry)) (count : ℕ) (a : Adaptor p)
      → IsValid p table count a
      → (x : ClientId) → IsClientId x
      → (is_anomaly : Bool) (now : ℕ) (out : Option SessionKey)
      → (is_session_active p (revoke_session p a x is_anomaly).1 x now out).0 ≢ AdaptorStatus.ok
  revoke_session-is_session_active table count a v x hx is_anomaly now out h =
      let b = (revoke_session p a x is_anomaly).1 in
      let good =
        subst
          (λ (m : Tlm.TokenLifecycleManager).
            (Tlm.validate_token m x now out).status ≡ TlmStatus.ok)
          (revoke_session-tlm a x is_anomaly) ((is_session_active-opens b x now out h).0) in
      elim (Option-cases (Tlm.find_slot_by_client_id a.tlm x)) [
        | inr (idx, e) ↦ (revoke_token_lem a.tlm v.manager x hx is_anomaly idx e).4 now out good
        | inl e ↦
            let (idx, l) =
              validate_token-IsLive (Tlm.revoke_token a.tlm x is_anomaly).1 x now out good in
            let same : (Tlm.revoke_token a.tlm x is_anomaly).1 ≡ a.tlm =
              ap (λ (r : TlmStatus × Tlm.TokenLifecycleManager). r.1)
                (revoke_token-none a.tlm v.manager x hx is_anomaly e) in
            let at_idx : Tlm.find_slot_by_client_id a.tlm x ≡ some idx =
              subst (λ (m : Tlm.TokenLifecycleManager). Tlm.find_slot_by_client_id m x ≡ some idx)
                same l.at_idx in
            absurd (cc)
      ]
