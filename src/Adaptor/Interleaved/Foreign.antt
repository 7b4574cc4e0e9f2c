-- ===== src/Adaptor/Interleaved/Foreign.antt =====
-- Events about other clients than one, and what the gate answers to a response that the engine of its
-- client accepts.
use mathlib.Core.Path.{subst}
use zonal_zero_trust_auth.Base.{
  ℕ, ◌≤◌, ◌≡◌, ◌≢◌, ◌⊎◌, refl, sym, ap, ◌∙◌, List, [], ◌∷◌, false, none, some, length, ltb, arith,
  Bool-cases, inl, inr,
}
use zonal_zero_trust_auth.Platform.{Bytes, ClientId, IsClientId, CryptoPlatform, client_id_len}
use zonal_zero_trust_auth.Engine.{SpdmStatus, spdm_auth_request_len, spdm_auth_response_len}
use zonal_zero_trust_auth.Tlm.{is_locked_out}
use zonal_zero_trust_auth.Tlm.Register.Outcome.{Holds}
use zonal_zero_trust_auth.Adaptor.{
  AdaptorStatus, Adaptor, decode_response, find_slot, on_auth_request, on_auth_response,
}
use zonal_zero_trust_auth.Adaptor.Events.{
  Event, offers, requests, responds, ticks, queries, revokes, IsTyped, step, head-IsClientId,
}
use zonal_zero_trust_auth.Adaptor.Pool.{subject}
use zonal_zero_trust_auth.Adaptor.Calls.{responder}
use zonal_zero_trust_auth.Adaptor.Response.{handled, Completed, Answered}

some_index-injective : {i j : ℕ} → some i ≡ some j → i ≡ j
some_index-injective q = cc

pub some-injective : {x y : ClientId} → some x ≡ some y → x ≡ y
some-injective q = cc

module _ (p : CryptoPlatform) where
  -- An event about another client, or about none.
  abbrev pub IsForeign : ClientId → Event → Type 0
  IsForeign y e = subject p e ≢ some y

  abbrev pub AllForeign : ClientId → List Event → Type 0
  AllForeign y [] = Unit
  AllForeign y (e ∷ es) = IsForeign y e × AllForeign y es

  pub responder-subject : (e : Event) (x : ClientId) → responder e ≡ some x → subject p e ≡ some x
  responder-subject (responds (some payload) now) x q = q
  responder-subject (responds none now) x q = cc
  responder-subject (offers z) x q = cc
  responder-subject (requests payload) x q = cc
  responder-subject (ticks now) x q = cc
  responder-subject (queries z now out) x q = cc
  responder-subject (revokes z is_anomaly) x q = cc

  -- The client that an event is about has an identifier of eight bytes, unless the frame is short, and
  -- then nothing happens.
  pub subject-IsClientId :
      (a : Adaptor p) (e : Event) (x : ClientId)
      → IsTyped e
      → subject p e ≡ some x
      → IsClientId x ⊎ (step p a e ≡ a)
  unfolding step on_auth_request on_auth_response
  subject-IsClientId a (offers z) x t q = inl (subst IsClientId (some-injective q) t)
  subject-IsClientId a (requests none) x t q = cc
  subject-IsClientId a (requests (some payload)) x t q =
      elim (Bool-cases (ltb (length payload) spdm_auth_request_len)) [
        | inl short ↦ inr (rw (short, step, on_auth_request) refl)
        | inr long ↦
            let room : client_id_len ≤ length payload = ground arith in
            inl (subst IsClientId (some-injective q) (head-IsClientId payload room t))
      ]
  subject-IsClientId a (responds none now) x t q = cc
  subject-IsClientId a (responds (some payload) now) x t q =
      elim (Bool-cases (ltb (length payload) spdm_auth_response_len)) [
        | inl short ↦ inr (rw (short, step, on_auth_response) refl)
        | inr long ↦
            let room : client_id_len ≤ length payload = ground arith in
            inl (subst IsClientId (some-injective q) (head-IsClientId payload room t))
      ]
  subject-IsClientId a (ticks now) x t q = cc
  subject-IsClientId a (queries z now out) x t q = inl (subst IsClientId (some-injective q) t)
  subject-IsClientId a (revokes z is_anomaly) x t q = inl (subst IsClientId (some-injective q) t)

  -- The answer to a response that the engine of a client that is not locked out accepts.
  pub Answered-ok :
      (a : Adaptor p) (payload : Bytes) (now : ℕ) (out : AdaptorStatus × Adaptor p) (y : ClientId)
      (i : ℕ)
      → (decode_response payload).client_id ≡ y
      → find_slot p a y ≡ some i
      → spdm_auth_response_len ≤ length payload
      → is_locked_out a.tlm y ≡ false
      → (handled p a i (decode_response payload)).status ≡ SpdmStatus.ok
      → Answered p a (some payload) now out
      → (out.0 ≡ AdaptorStatus.ok)
        × ((handled p a i (decode_response payload)).token.client_id ≡ y)
        × Holds out.1.tlm (handled p a i (decode_response payload)).token now
  Answered-ok a payload now out y i own at size free good (inl (short, e)) = absurd (omega arith)
  Answered-ok a payload now out y i own at size free good (inr (inl (long, none_at, e))) =
      let none_y = sym (ap (find_slot p a) own) ∙ none_at in absurd (cc)
  Answered-ok a payload now out y i own at size free good (inr (inr (long, (j, at_j, done)))) =
      let same : j ≡ i = some_index-injective (sym at_j ∙ ap (find_slot p a) own ∙ at) in
      elim (subst (λ (k : ℕ). Completed p a k (decode_response payload) now out) same done) [
        | inl (ok, o, answer, id, holds, engine) ↦ (answer, id ∙ own, holds)
        | inr (inl (ok, l, answer, m, engine)) ↦
            let l_y = sym (ap (is_locked_out a.tlm) own) ∙ l in absurd (cc)
        | inr (inr (bad, answer, m, engine)) ↦ absurd (bad good)
      ]
