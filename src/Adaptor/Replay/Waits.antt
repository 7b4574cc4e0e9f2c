-- ===== src/Adaptor/Replay/Waits.antt =====
-- Which engine awaits a response, over the parts of the hooks that store an engine.
use mathlib.Core.Path.{subst}
use zonal_zero_trust_auth.Base.{
  and_false, ℕ, ◌+◌, ◌≤◌, ◌<◌, ◌≡◌, refl, ap, ◌∙◌, Bool, true, false, ◌&&◌, bit, length, length-set,
  get_or-set, ◌==◌, ==_iff, if◌then◌else◌, arith, Bool-cases, inl, inr,
}
use zonal_zero_trust_auth.Platform.{CryptoPlatform}
use zonal_zero_trust_auth.Engine
use zonal_zero_trust_auth.Engine.{
  KnownPeerEntry, SpdmProtocolEngine, SpdmAuthRequest, SpdmAuthResponse, SpdmSessionToken,
  SpdmStatus, is_challenge_sent, process_auth_request, process_auth_response,
  spdm_auth_response_len,
}
use zonal_zero_trust_auth.Tlm
use zonal_zero_trust_auth.Adaptor.{
  AdaptorStatus, Adaptor, max_zone_slots, empty_token, spdm_ok, tlm_ok, is_tlm_locked_out,
  engine_at, put_engine, forward_request, transmit_challenge, complete_handshake, register_session,
}

abbrev pub is_ok : AdaptorStatus → Bool
is_ok AdaptorStatus.ok = true
is_ok _ = false

abbrev pub waits : SpdmProtocolEngine → ℕ
waits e = bit (is_challenge_sent e.state)

is_ok-refusal :
    (b : Bool) → is_ok (if b then AdaptorStatus.locked_out else AdaptorStatus.session_error) ≡ false
is_ok-refusal true = refl
is_ok-refusal false = refl

-- An engine that is revoked or reset awaits nothing.
pub waits-revoke : (e : SpdmProtocolEngine) → waits (Engine.revoke e) ≡ 0
unfolding Engine.revoke
waits-revoke e = refl

pub waits-reset : (e : SpdmProtocolEngine) → waits (Engine.reset e) ≡ 0
unfolding Engine.reset
waits-reset e = refl

module _ (p : CryptoPlatform) where
  -- What the engine makes of a call.
  request-waits :
      (e : SpdmProtocolEngine) (request : SpdmAuthRequest) (s : p.State)
      → let out = process_auth_request p e request s in
        waits out.engine ≤ bit (spdm_ok out.status) + waits e
  unfolding process_auth_request
  request-waits e request s = ground arith

  response-waits :
      (e : SpdmProtocolEngine) (response : SpdmAuthResponse) (token : SpdmSessionToken)
      (s : p.State)
      → let out = process_auth_response p e response token s in
        bit (spdm_ok out.status) + waits out.engine ≤ waits e
  unfolding process_auth_response
  response-waits e response token s = ground arith

  engine_at-put :
      (a : Adaptor p) (k i : ℕ) (e : SpdmProtocolEngine)
      → length a.engines ≡ max_zone_slots
      → k < max_zone_slots
      → engine_at p (put_engine p a k e) i ≡ (if k == i then e else engine_at p a i)
  engine_at-put a k i e size h =
      get_or-set a.engines k i e (Engine.construct a.peer_table a.peer_count) (omega (arith, size))

  -- An engine that is stored at one slot, seen from any slot.
  put-waits :
      (a : Adaptor p) (k i : ℕ) (e : SpdmProtocolEngine) (x y : Bool)
      → length a.engines ≡ max_zone_slots
      → k < max_zone_slots
      → bit x + waits e ≤ bit y + waits (engine_at p a k)
      → bit ((k == i) && x) + waits (engine_at p (put_engine p a k e) i)
        ≤ bit ((k == i) && y) + waits (engine_at p a i)
  put-waits a k i e x y size h kept = elim (Bool-cases (k == i)) [
    | inl own ↦
        rw (engine_at-put a k i e size h, own)
          (subst (λ j. bit x + waits e ≤ bit y + waits (engine_at p a j)) ((==_iff k i).0 own) kept)
    | inr other ↦ rw (engine_at-put a k i e size h, other) (omega arith)
  ]

  pub idle-waits :
      (a : Adaptor p) (k i : ℕ) (e : SpdmProtocolEngine)
      → length a.engines ≡ max_zone_slots
      → k < max_zone_slots
      → waits e ≡ 0
      → waits (engine_at p (put_engine p a k e) i) ≤ waits (engine_at p a i)
  idle-waits a k i e size h idle =
      omega (arith, put-waits a k i e false false size h (omega (arith, idle)))

  -- An admission uses up the challenge of its slot.
  pub handshake-waits :
      (a : Adaptor p) (k i : ℕ) (response : SpdmAuthResponse) (now : ℕ)
      → length a.engines ≡ max_zone_slots
      → k < max_zone_slots
      → let out = complete_handshake p a k response now in
        bit ((k == i) && is_ok out.0) + waits (engine_at p out.1 i) ≤ waits (engine_at p a i)
  unfolding complete_handshake register_session
  handshake-waits a k i response now size h =
      let out = process_auth_response p (engine_at p a k) response empty_token a.platform in
      let a' = record (put_engine p a k out.engine) { platform = out.platform } in
      let kept = response-waits (engine_at p a k) response empty_token a.platform in
      let reg = Tlm.register_token a.tlm out.token now in
      elim (Bool-cases (spdm_ok out.status)) [
        | inr bad ↦ rw bad (
            omega (
              arith,
              ap bit (and_false (k == i)),
              put-waits a k i out.engine false false size h (omega (arith, rw bad at kept)),
            ))
        | inl good ↦ elim (Bool-cases (tlm_ok reg.0)) [
          | inl held ↦
              rw (good, held)
                (omega (
                  arith,
                  put-waits a k i out.engine true false size h (omega (arith, rw good at kept)),
                  ap bit (and_false (k == i)),
                ))
          | inr lost ↦
              let b = put_engine p a k out.engine in
              let length_b = length-set a.engines k out.engine ∙ size in
              rw (good, lost, is_ok-refusal (is_tlm_locked_out reg.0))
                (omega (
                  arith,
                  ap bit (and_false (k == i)),
                  put-waits a k i out.engine false false size h (omega (arith, kept)),
                  put-waits b k i (Engine.revoke (engine_at p b k)) false false length_b h
                      (omega (arith, waits-revoke (engine_at p b k))),
                ))
        ]
      ]

  -- A hook that stores no engine.
  pub same-waits :
      (a b : Adaptor p) (i : ℕ)
      → engine_at p b i ≡ engine_at p a i
      → waits (engine_at p b i) ≤ waits (engine_at p a i)
  same-waits a b i q = rw q (omega arith)

  -- A challenge goes to the slot that asked for it.
  pub forward-waits :
      (a : Adaptor p) (k i : ℕ) (request : SpdmAuthRequest)
      → length a.engines ≡ max_zone_slots
      → k < max_zone_slots
      → let out = forward_request p a k request in
        waits (engine_at p out.1 i) ≤ bit ((k == i) && is_ok out.0) + waits (engine_at p a i)
  unfolding forward_request transmit_challenge
  forward-waits a k i request size h =
      let out = process_auth_request p (engine_at p a k) request a.platform in
      let kept = request-waits (engine_at p a k) request a.platform in
      elim (Bool-cases (spdm_ok out.status)) [
        | inr bad ↦ rw bad (
            omega (
              arith,
              put-waits a k i out.engine false false size h (omega (arith, rw bad at kept)),
            ))
        | inl good ↦
            let stored =
              put-waits a k i out.engine false true size h (omega (arith, rw good at kept)) in
            elim (Bool-cases a.has_transmit) [
              | inl sends ↦ rw (good, sends) (omega (arith, stored))
              | inr silent ↦ rw (good, silent) (omega (arith, stored))
            ]
      ]
