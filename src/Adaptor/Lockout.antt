-- ===== src/Adaptor/Lockout.antt =====
-- Lockout over histories of hook calls: no hook lifts it.
use zonal_zero_trust_auth.Base.{ℕ, ◌≡◌, refl, List, [], ◌∷◌, Bool, true, Option}
use zonal_zero_trust_auth.Platform.{ClientId, SessionKey, IsClientId, CryptoPlatform}
use zonal_zero_trust_auth.Engine.{KnownPeerEntry}
use zonal_zero_trust_auth.Tlm
use zonal_zero_trust_auth.Tlm.{TokenLifecycleManager}
use zonal_zero_trust_auth.Tlm.Slotwise.{
  Slotwise-refl, register_token-Slotwise, validate_token-Slotwise, revoke_token-Slotwise,
  evaluate_token_expiry-Slotwise,
}
use zonal_zero_trust_auth.Tlm.Lockout.{
  SlotKept, SlotKept-stable, SlotKept-AllowsToken, SlotKept-AllowsCount, Keeps, Keeps-is_locked_out,
}
use zonal_zero_trust_auth.Adaptor.{AdaptorStatus, Adaptor, is_session_active}
use zonal_zero_trust_auth.Adaptor.Valid.{IsValid}
use zonal_zero_trust_auth.Adaptor.Events.{Event, IsTyped, AllTyped, step, run}
use zonal_zero_trust_auth.Adaptor.Hooks.{step-IsValid}
use zonal_zero_trust_auth.Adaptor.Calls.{step_cases}

module _ (p : CryptoPlatform) (table : Option (List KnownPeerEntry)) (count : ℕ) where
  -- A change of the adaptor that keeps the barred slots of its manager.
  abbrev Kept : Adaptor p → Adaptor p → Type 0
  Kept a b = Keeps a.tlm b.tlm

  step-Kept :
      (a : Adaptor p) (e : Event) → IsTyped e → IsValid p table count a → Kept a (step p a e)
  step-Kept a e t v =
      step_cases p table count (Keeps a.tlm) a e t v (Slotwise-refl SlotKept SlotKept-stable a.tlm)
        (λ token now id q housed.
          register_token-Slotwise SlotKept SlotKept-stable token now
            (SlotKept-AllowsToken token now) id a.tlm v.manager)
        (λ x hx q housed. revoked x true hx) (λ x is_anomaly hx q. revoked x is_anomaly hx)
        (λ now q. evaluate_token_expiry-Slotwise SlotKept SlotKept-stable a.tlm v.manager now)
        (λ x now out hx q.
          validate_token-Slotwise SlotKept SlotKept-stable a.tlm v.manager x now out hx)
    where
      revoked :
          (x : ClientId) (is_anomaly : Bool)
          → IsClientId x
          → Keeps a.tlm (Tlm.revoke_token a.tlm x is_anomaly).1
      revoked x is_anomaly hx =
          revoke_token-Slotwise SlotKept SlotKept-stable a.tlm v.manager x is_anomaly
            (SlotKept-AllowsCount x) hx

  -- A client that is locked out of a valid adaptor gets kLockedOut from `IsSessionActive`, and nothing
  -- through `key_out`, after every history of hook calls, new offers and handshakes included.
  pub run-is_locked_out-is_session_active :
      (es : List Event)
      → AllTyped es
      → (a : Adaptor p) → IsValid p table count a
      → (x : ClientId) → IsClientId x
      → Tlm.is_locked_out a.tlm x ≡ true
      → (now : ℕ) (out : Option SessionKey)
      → is_session_active p (run p a es) x now out ≡ (AdaptorStatus.locked_out, out, run p a es)
  unfolding run is_session_active
  run-is_locked_out-is_session_active [] t a v x hx l now out = rw l refl
  run-is_locked_out-is_session_active (e ∷ es) t a v x hx l now out =
      let w = step-IsValid p table count a e t.0 v in
      run-is_locked_out-is_session_active es t.1 (step p a e) w x hx
        (Keeps-is_locked_out a.tlm (step p a e).tlm v.manager w.manager (step-Kept a e t.0 v) x hx
          l)
        now out
