-- ===== src/Tests/SpecRuns.antt =====
-- A call on a manager with one live session, seen on the abstract table.
use zonal_zero_trust_auth.Base.{◌≡◌, some}
use zonal_zero_trust_auth.Platform.{zeros, session_key_len}
use zonal_zero_trust_auth.Tlm.{validate_token, is_locked_out}
use zonal_zero_trust_auth.Tlm.History
use zonal_zero_trust_auth.Tlm.History.{registers}
use zonal_zero_trust_auth.Tlm.Spec
use zonal_zero_trust_auth.Tlm.Spec.{answer}
use zonal_zero_trust_auth.Tlm.Spec.View.{sessions}
use zonal_zero_trust_auth.Tlm.Spec.Capacity.{capacity}
use zonal_zero_trust_auth.Tlm.Spec.Refine.{step-sessions, validate_token-Answers, Answers}
use zonal_zero_trust_auth.Tests.Data.{alice, bob, alice-IsClientId, bob-IsClientId, token_of}
use zonal_zero_trust_auth.Tests.TlmRuns.{served, served-IsValid}

step-sessions_example :
    sessions (History.step served (registers (token_of bob) 500))
    ≡ Spec.step
        (capacity served)
        (is_locked_out served)
        (registers (token_of bob) 500)
        (sessions served)
step-sessions_example =
    step-sessions served served-IsValid (registers (token_of bob) 500) bob-IsClientId

validate_token-Answers_example :
    let r = validate_token served alice 400 (some (zeros session_key_len)) in
    (sessions r.manager ≡ Spec.validate alice 400 (sessions served))
    × Answers served served-IsValid alice alice-IsClientId 400 (some (zeros session_key_len)) r
validate_token-Answers_example =
    validate_token-Answers served served-IsValid alice alice-IsClientId 400
      (some (zeros session_key_len))
