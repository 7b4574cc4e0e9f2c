-- ===== src/Adaptor/Interleaved.antt =====
-- A handshake between the calls of other clients: they do not disturb it.
mod Open
mod Foreign
use mathlib.Core.Path.{subst}
use zonal_zero_trust_auth.Base.{
  ℕ, ◌≤◌, ◌<◌, ◌≡◌, ◌≢◌, ◌⊎◌, refl, sym, ap, ◌∙◌, List, [], ◌∷◌, Bool, true, false, Option, none,
  some, length, ltb, All, arith, Bool-cases, Option-cases, inl, inr,
}
use zonal_zero_trust_auth.Platform.{Bytes, ClientId, IsClientId, CryptoPlatform, client_id_len}
use zonal_zero_trust_auth.Engine.{
  KnownPeerEntry, SpdmSessionToken, SpdmStatus, SpdmAuthResponse, Responded, SpdmProtocolEngine,
  process_auth_response, spdm_auth_request_len, spdm_auth_response_len,
}
use zonal_zero_trust_auth.Tlm
use zonal_zero_trust_auth.Tlm.{
  TokenSlot, TokenLifecycleManager, max_active_sessions, slot_at, is_locked_out, count_anomaly,
  find_slot_by_client_id,
}
use zonal_zero_trust_auth.Tlm.Slots.{ended_slot}
use zonal_zero_trust_auth.Tlm.Invariant
use zonal_zero_trust_auth.Tlm.Invariant.{count_anomaly_frame}
use zonal_zero_trust_auth.Tlm.Invariant.Find.{
  found, find_claimed, is_locked_out-some, is_locked_out-none,
}
use zonal_zero_trust_auth.Tlm.Register.Stages.{order_of}
use zonal_zero_trust_auth.Tlm.Register.Outcome.{Holds}
use zonal_zero_trust_auth.Tlm.Slotwise.{
  IsStable, AllowsToken, AllowsCount, Slotwise, Slotwise-refl, register_token-Slotwise,
  validate_token-Slotwise, revoke_token-Slotwise, evaluate_token_expiry-Slotwise,
}
use zonal_zero_trust_auth.Adaptor.{
  AdaptorStatus, Adaptor, empty_token, decode_response, engine_at, find_slot, on_auth_request,
  on_auth_response,
}
use zonal_zero_trust_auth.Adaptor.Valid.{IsValid}
use zonal_zero_trust_auth.Adaptor.Events.{
  Event, offers, requests, responds, ticks, queries, revokes, IsTyped, AllTyped, step, run,
  head-IsClientId,
}
use zonal_zero_trust_auth.Adaptor.Hooks.{step-IsValid, run-IsValid}
use zonal_zero_trust_auth.Adaptor.Pool.{subject}
use zonal_zero_trust_auth.Adaptor.Pool.Bindings.{step_isolated, step-find_slot, run-find_slot}
use zonal_zero_trust_auth.Adaptor.Calls.{responder, step_cases}
use zonal_zero_trust_auth.Adaptor.Housing.{IsNamed, AllNamed, IsCovered, same_house}
use zonal_zero_trust_auth.Adaptor.Housing.History.{step-IsCovered, run-IsCovered}
use zonal_zero_trust_auth.Adaptor.Response.{handled, Completed, Answered, on_auth_response_lem}
use Open.{
  StaysOpen, StaysOpen-stable, StaysOpen-AllowsToken, StaysOpen-AllowsCount, IsOpen-slots,
  not_barred,
}
use Foreign.{
  IsForeign, AllForeign, some-injective, responder-subject, subject-IsClientId, Answered-ok,
}

module _ (p : CryptoPlatform) (table : Option (List KnownPeerEntry)) (count : ℕ) (y : ClientId)
    (hy : IsClientId y) where
  -- Events about others do not bar a client.
  step-not_barred :
      (a : Adaptor p) (e : Event)
      → IsTyped e
      → IsForeign p y e
      → IsValid p table count a
      → is_locked_out a.tlm y ≡ false
      → is_locked_out (step p a e).tlm y ≡ false
  step-not_barred a e t foreign v o =
      let R = StaysOpen y in
      let stable = StaysOpen-stable y in
      let w = step-IsValid p table count a e t v in
      let kept : Slotwise R stable a.tlm (step p a e).tlm =
        step_cases p table count (Slotwise R stable a.tlm) a e t v (Slotwise-refl R stable a.tlm)
          (λ token now id q home.
            register_token-Slotwise R stable token now
              (StaysOpen-AllowsToken y token now
                (λ same. foreign (responder-subject p e token.client_id q ∙ ap some same)))
              id a.tlm v.manager)
          (λ x hx q home.
            revoke_token-Slotwise R stable a.tlm v.manager x true
              (StaysOpen-AllowsCount y x
                (λ same. foreign (responder-subject p e x q ∙ ap some same)))
              hx)
          (λ x is_anomaly hx q.
            revoke_token-Slotwise R stable a.tlm v.manager x is_anomaly
              (StaysOpen-AllowsCount y x (λ same. foreign (ap (subject p) q ∙ ap some same))) hx)
          (λ now q. evaluate_token_expiry-Slotwise R stable a.tlm v.manager now)
          (λ x now out hx q. validate_token-Slotwise R stable a.tlm v.manager x now out hx) in
      not_barred (step p a e).tlm w.manager y hy
        (λ i h. kept i h (IsOpen-slots a.tlm v.manager y hy o i h))

  -- They do not touch its engine either.
  step-engine_at :
      (a : Adaptor p) (e : Event) (i : ℕ)
      → IsTyped e
      → IsNamed e
      → IsForeign p y e
      → IsValid p table count a
      → IsCovered p a
      → find_slot p a y ≡ some i
      → engine_at p (step p a e) i ≡ engine_at p a i
  step-engine_at a e i t named foreign v c at = elim (Option-cases (subject p e)) [
    | inl q ↦ (step_isolated p a e i (λ (x, r, at_x). cc)).0
    | inr (x, q) ↦ elim (subject-IsClientId p a e x t q) [
      | inr same ↦ ap (λ (b : Adaptor p). engine_at p b i) same
      | inl hx ↦
          (step_isolated p a e i (λ (z, r, at_z). foreign (q ∙ ap some (own x z hx q r at_z)))).0
    ]
  ]
    where
      own :
          (x z : ClientId)
          → IsClientId x
          → subject p e ≡ some x
          → subject p e ≡ some z
          → find_slot p (step p a e) z ≡ some i
          → x ≡ y
      own x z hx q r at_z =
          let same : z ≡ x = some-injective (sym r ∙ q) in
          same_house p (step p a e) x y i (step-IsCovered p table count a e t named v c) hx hy
            (ap (find_slot p (step p a e)) (sym same) ∙ at_z) (step-find_slot p a e y i t hy at)

  run-engine_at :
      (es : List Event)
      → AllTyped es
      → AllNamed es
      → AllForeign p y es
      → (a : Adaptor p) (i : ℕ) → IsValid p table count a
      → IsCovered p a
      → find_slot p a y ≡ some i
      → is_locked_out a.tlm y ≡ false
      → (engine_at p (run p a es) i ≡ engine_at p a i) × (is_locked_out (run p a es).tlm y ≡ false)
  unfolding run
  run-engine_at [] t named foreign a i v c at o = (refl, o)
  run-engine_at (e ∷ es) t named foreign a i v c at o =
      let (engine, free) =
        run-engine_at es t.1 named.1 foreign.1 (step p a e) i (step-IsValid p table count a e t.0 v)
          (step-IsCovered p table count a e t.0 named.0 v c) (step-find_slot p a e y i t.0 hy at)
          (step-not_barred a e t.0 foreign.0 v o) in
      (engine ∙ step-engine_at a e i t.0 named.0 foreign.0 v c at, free)

  -- Logins may be interleaved at will. Take a client with a slot on a valid adaptor whose clients all
  -- have slots in the pool, not locked out, and any history of hook calls about other clients or none
  -- that never revokes the all-zero identifier. After it, a response of the client that its engine
  -- as it was before the history accepts, on the platform as the history leaves it, is answered with
  -- kOk, carries the client's identifier, and its token is held by the manager.
  pub run-on_auth_response :
      (es : List Event)
      → AllTyped es
      → AllNamed es
      → AllForeign p y es
      → (a : Adaptor p) (i : ℕ) → IsValid p table count a
      → IsCovered p a
      → find_slot p a y ≡ some i
      → is_locked_out a.tlm y ≡ false
      → (payload : Bytes) (now : ℕ) → All (λ b. b < 256) payload
      → spdm_auth_response_len ≤ length payload
      → (decode_response payload).client_id ≡ y
      → let b = run p a es in
        let done =
          process_auth_response p
            (engine_at p a i)
            (decode_response payload)
            empty_token
            b.platform in
        done.status ≡ SpdmStatus.ok
        → let out = on_auth_response p b (some payload) now in
          (out.0 ≡ AdaptorStatus.ok) × (done.token.client_id ≡ y) × Holds out.1.tlm done.token now
  run-on_auth_response es t named foreign a i v c at o payload now bytes size own =
      let b = run p a es in
      let (engine, free) = run-engine_at es t named foreign a i v c at o in
      let home = run-find_slot p es t a y i hy at in
      subst
        (λ (e : SpdmProtocolEngine).
          let done = process_auth_response p e (decode_response payload) empty_token b.platform in
          done.status ≡ SpdmStatus.ok
          → let out = on_auth_response p b (some payload) now in
            (out.0 ≡ AdaptorStatus.ok)
            × (done.token.client_id ≡ y)
            × Holds out.1.tlm done.token now)
        engine
        (λ good.
          Answered-ok p b payload now (on_auth_response p b (some payload) now) y i own home size
            free good
            (on_auth_response_lem p table count b (run-IsValid p table count a es t v)
              (run-IsCovered p table count es t named a v c) (some payload) now bytes))
