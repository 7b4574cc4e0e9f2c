-- ===== src/Adaptor/Spec/Answers.antt =====
-- `IsSessionActive` answers from the sessions of the table.
use mathlib.Core.Path.{subst}
use zonal_zero_trust_auth.Base.{
  ℕ, ◌≡◌, ◌≢◌, ◌⊎◌, refl, sym, ap, List, true, Option, none, some, if◌then◌else◌, arith, Bool-cases,
  inl, inr,
}
use zonal_zero_trust_auth.Platform.{ClientId, SessionKey, IsClientId, CryptoPlatform}
use zonal_zero_trust_auth.Engine.{KnownPeerEntry}
use zonal_zero_trust_auth.Tlm.{TlmStatus, Validated, is_locked_out, validate_token}
use zonal_zero_trust_auth.Tlm.Spec.{Session, answer}
use zonal_zero_trust_auth.Tlm.Spec.View.{sessions}
use zonal_zero_trust_auth.Tlm.Spec.Refine.{validate_token-Answers}
use zonal_zero_trust_auth.Adaptor.{
  AdaptorStatus, Adaptor, tlm_ok, is_tlm_locked_out, is_session_active,
}
use zonal_zero_trust_auth.Adaptor.Valid.{IsValid}

module _ (p : CryptoPlatform) (a : Adaptor p) (x : ClientId) (now : ℕ)
    (out : Option SessionKey) where
  validate_token-barred :
      is_locked_out a.tlm x ≡ true
      → validate_token a.tlm x now out
        ≡ record { status = TlmStatus.locked_out; key_out = out; manager = a.tlm }
  unfolding validate_token
  validate_token-barred l = rw l refl

  -- What the gate makes of the answer of the manager, which looks at the lockout once more.
  abbrev pub gate : Validated → AdaptorStatus × Option SessionKey × Adaptor p
  gate r = (
    if tlm_ok r.status
        then AdaptorStatus.ok
        else if is_tlm_locked_out r.status
        then AdaptorStatus.locked_out
        else AdaptorStatus.not_authenticated,
    r.key_out,
    record a { tlm = r.manager },
  )

  pub is_session_active_lem :
      is_session_active p a x now out ≡ gate (validate_token a.tlm x now out)
  unfolding is_session_active
  is_session_active_lem = elim (Bool-cases (is_locked_out a.tlm x)) [
    | inl l ↦ rw l (ap gate (sym (validate_token-barred l)))
    | inr o ↦ rw o refl
  ]

module _ (p : CryptoPlatform) where
  -- The gate answers from a list of sessions: it hands out the key of a young session, and without one
  -- does not answer kOk and hands out nothing.
  abbrev pub GateAnswers : Adaptor p → ClientId → ℕ → SessionKey → List Session → Type 0
  GateAnswers a x now old l =
      let out = is_session_active p a x now (some old) in
      ((key : SessionKey) × (answer x now l ≡ some key)
        × (out.0 ≡ AdaptorStatus.ok)
        × (out.1 ≡ some key))
      ⊎ (answer x now l ≡ none) × (out.0 ≢ AdaptorStatus.ok) × (out.1 ≡ some old)

  module _ (table : Option (List KnownPeerEntry)) (count : ℕ) where
    pub is_session_active-GateAnswers :
        (a : Adaptor p)
        → IsValid p table count a
        → (x : ClientId) → IsClientId x
        → (now : ℕ) (old : SessionKey) → GateAnswers a x now old (sessions a.tlm)
    is_session_active-GateAnswers a v x hx now old =
        subst
          (λ (out : AdaptorStatus × Option SessionKey × Adaptor p).
            ((key : SessionKey) × (answer x now (sessions a.tlm) ≡ some key)
              × (out.0 ≡ AdaptorStatus.ok)
              × (out.1 ≡ some key))
            ⊎ (answer x now (sessions a.tlm) ≡ none)
              × (out.0 ≢ AdaptorStatus.ok)
              × (out.1 ≡ some old))
          (sym (is_session_active_lem p a x now (some old)))
          (elim (validate_token-Answers a.tlm v.manager x hx now (some old)).1 [
            | inl (key, given, ok, out) ↦ inl (key, given, rw ok refl, out)
            | inr (absent, bad, out) ↦ inr (absent, (λ q. bad (ground arith)), out)
          ])
