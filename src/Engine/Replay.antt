-- ===== src/Engine/Replay.antt =====
-- Challenges and responses counted: a challenge is good for one response.
use zonal_zero_trust_auth.Base.{
  ℕ, ◌+◌, ◌≤◌, ◌≡◌, ◌≢◌, refl, List, [], ◌∷◌, Bool, true, false, arith, bit,
}
use zonal_zero_trust_auth.Platform.{CryptoPlatform}
use zonal_zero_trust_auth.Engine.{
  SpdmProtocolEngine, SpdmStatus, State, process_auth_request, process_auth_response,
  is_challenge_sent, revoke, reset,
}
use zonal_zero_trust_auth.Engine.Transitions.{Call, requests, responds, revokes, resets, step, run}

abbrev is_ok : SpdmStatus → Bool
is_ok SpdmStatus.ok = true
is_ok _ = false

module _ (p : CryptoPlatform) where
  -- The call issues a challenge; the call is a response that is accepted.
  abbrev pub issues : SpdmProtocolEngine × p.State → Call → Bool
  issues (e, s) (requests request) = is_ok (process_auth_request p e request s).status
  issues (e, s) (responds response token) = false
  issues (e, s) revokes = false
  issues (e, s) resets = false

  abbrev pub accepts : SpdmProtocolEngine × p.State → Call → Bool
  accepts (e, s) (requests request) = false
  accepts (e, s) (responds response token) =
      is_ok (process_auth_response p e response token s).status
  accepts (e, s) revokes = false
  accepts (e, s) resets = false

  -- How many calls of a history do so.
  unfoldable pub issued : SpdmProtocolEngine × p.State → List Call → ℕ
  issued es [] = 0
  issued es (c ∷ cs) = bit (issues es c) + issued (step p es c) cs

  unfoldable pub accepted : SpdmProtocolEngine × p.State → List Call → ℕ
  accepted es [] = 0
  accepted es (c ∷ cs) = bit (accepts es c) + accepted (step p es c) cs

  abbrev waiting : SpdmProtocolEngine × p.State → ℕ
  waiting es = bit (is_challenge_sent es.0.state)

  step-waiting :
      (es : SpdmProtocolEngine × p.State) (c : Call)
      → bit (accepts es c) + waiting (step p es c) ≤ bit (issues es c) + waiting es
  unfolding step process_auth_request process_auth_response revoke reset
  step-waiting (e, s) (requests request) = ground arith
  step-waiting (e, s) (responds response token) = ground arith
  step-waiting (e, s) revokes = ground arith
  step-waiting (e, s) resets = ground arith

  accepted-waiting :
      (es : SpdmProtocolEngine × p.State) (cs : List Call)
      → accepted es cs + waiting (run p es cs) ≤ issued es cs + waiting es
  unfolding issued accepted run
  accepted-waiting es [] = omega arith
  accepted-waiting es (c ∷ cs) = omega (arith, step-waiting es c, accepted-waiting (step p es c) cs)

  -- No challenge is answered twice: over every history of calls on an engine that awaits no response,
  -- no more responses are accepted than challenges were issued in that history; and while a challenge is
  -- still open, one fewer.
  pub accepted-issued :
      (e : SpdmProtocolEngine) (s : p.State) (cs : List Call)
      → e.state ≢ State.challenge_sent
      → accepted (e, s) cs + bit (is_challenge_sent (run p (e, s) cs).0.state) ≤ issued (e, s) cs
  accepted-issued e s cs h =
      let idle : is_challenge_sent e.state ≡ false = ground arith in
      let bound = accepted-waiting (e, s) cs in
      let start : waiting (e, s) ≡ 0 = rw idle refl in omega arith
