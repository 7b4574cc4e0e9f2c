-- ===== src/Adaptor/Availability.antt =====
-- A session is there to stay: what other clients do ends it neither directly nor by eviction.
pub mod Login
use mathlib.Core.Path.{subst}
use zonal_zero_trust_auth.Base.{
  ℕ, ◌≤◌, ◌<◌, ◌≡◌, ◌≢◌, ◌⊎◌, refl, sym, ap, ◌∙◌, List, [], ◌∷◌, ◌++◌, Bool, true, false, Option,
  none, some, length, arith, Bool-cases, inl, inr,
}
use zonal_zero_trust_auth.Platform.{ClientId, SessionKey, IsClientId, CryptoPlatform}
use zonal_zero_trust_auth.ConstantTime.{is_zero}
use zonal_zero_trust_auth.Engine.{KnownPeerEntry, SpdmSessionToken}
use zonal_zero_trust_auth.Tlm
use zonal_zero_trust_auth.Tlm.{TokenLifecycleManager, token_lifetime_ms, age_ms}
use zonal_zero_trust_auth.Tlm.Register.Outcome.{Holds}
use zonal_zero_trust_auth.Tlm.Persistence.{
  register_token-Holds, revoke_token-Holds, validate_token-Holds, evaluate_token_expiry-Holds,
}
use zonal_zero_trust_auth.Adaptor.{Adaptor}
use zonal_zero_trust_auth.Adaptor.Valid.{IsValid}
use zonal_zero_trust_auth.Adaptor.Events.{
  Event, offers, requests, responds, ticks, queries, revokes, IsTyped, AllTyped, step, run,
}
use zonal_zero_trust_auth.Adaptor.Hooks.{step-IsValid}
use zonal_zero_trust_auth.Adaptor.Calls.{responder, step_cases}
use zonal_zero_trust_auth.Adaptor.Housing.{IsNamed, AllNamed, IsCovered}
use zonal_zero_trust_auth.Adaptor.Housing.Room.{find_free_slot-ne-none}
use zonal_zero_trust_auth.Adaptor.Housing.History.{step-IsCovered}
use zonal_zero_trust_auth.Adaptor.Login.Register.{Opens, Holds-Opens}

-- An event that does not end a client's session itself: no response of the client, no revocation of it,
-- and no sweep and no query of it once the session is older than the lifetime of a token.
abbrev pub Spares : ClientId → ℕ → Event → Type 0
Spares y issued (offers x) = Unit
Spares y issued (requests payload) = Unit
Spares y issued (responds payload now) = responder (responds payload now) ≢ some y
Spares y issued (ticks now) = age_ms now issued ≤ token_lifetime_ms
Spares y issued (queries x now out) = (x ≢ y) ⊎ (age_ms now issued ≤ token_lifetime_ms)
Spares y issued (revokes x is_anomaly) = x ≢ y

abbrev pub AllSpare : ClientId → ℕ → List Event → Type 0
AllSpare y issued [] = Unit
AllSpare y issued (e ∷ es) = Spares y issued e × AllSpare y issued es

Spares-responder :
    (y : ClientId) (issued : ℕ) (e : Event) (x : ClientId)
    → Spares y issued e
    → responder e ≡ some x
    → x ≢ y
Spares-responder y issued (responds payload now) x spared q same = spared (q ∙ ap some same)
Spares-responder y issued (offers z) x spared q same = cc
Spares-responder y issued (requests payload) x spared q same = cc
Spares-responder y issued (ticks now) x spared q same = cc
Spares-responder y issued (queries z now out) x spared q same = cc
Spares-responder y issued (revokes z is_anomaly) x spared q same = cc

module _ (p : CryptoPlatform) (table : Option (List KnownPeerEntry)) (count : ℕ)
    (token : SpdmSessionToken) (issued : ℕ) (hy : IsClientId token.client_id) where
  step-Holds :
      (a : Adaptor p) (e : Event)
      → IsTyped e
      → Spares token.client_id issued e
      → IsValid p table count a
      → IsCovered p a
      → Holds a.tlm token issued
      → Holds (step p a e).tlm token issued
  step-Holds a e t spared v c h =
      let y = token.client_id in
      step_cases p table count (λ (m : TokenLifecycleManager). Holds m token issued) a e t v h
        (λ other now id q home.
          register_token-Holds token other issued now hy a.tlm v.manager h id
            (Spares-responder y issued e other.client_id spared q)
            (λ o. find_free_slot-ne-none p table count a v c other.client_id id home o))
        (λ x hx q home.
          revoke_token-Holds token issued hy a.tlm v.manager h x true hx
            (Spares-responder y issued e x spared q))
        (λ x is_anomaly hx q.
          revoke_token-Holds token issued hy a.tlm v.manager h x is_anomaly hx
            (subst (Spares y issued) q spared))
        (λ now q.
          evaluate_token_expiry-Holds token issued hy a.tlm v.manager h now
            (subst (Spares y issued) q spared))
        (λ x now out hx q.
          validate_token-Holds token issued hy a.tlm v.manager h x now out hx
            (subst (Spares y issued) q spared))

  run-Holds :
      (es : List Event)
      → AllTyped es
      → AllNamed es
      → AllSpare token.client_id issued es
      → (a : Adaptor p) → IsValid p table count a
      → IsCovered p a
      → Holds a.tlm token issued
      → Holds (run p a es).tlm token issued
  unfolding run
  run-Holds [] t named spared a v c h = h
  run-Holds (e ∷ es) t named spared a v c h =
      run-Holds es t.1 named.1 spared.1 (step p a e) (step-IsValid p table count a e t.0 v)
        (step-IsCovered p table count a e t.0 named.0 v c) (step-Holds a e t.0 spared.0 v c h)

  -- On a valid adaptor whose clients all have slots in the pool, a session stays open over every
  -- history of hook calls that does not itself end it and never revokes the all-zero identifier:
  -- whatever other clients do, offers, logins and lockouts included, the gate hands out the same key
  -- to its client at every time that is no more than the lifetime of a token after the issue.
  pub run-Opens :
      (es : List Event)
      → AllTyped es
      → AllNamed es
      → AllSpare token.client_id issued es
      → (a : Adaptor p) → IsValid p table count a
      → IsCovered p a
      → Holds a.tlm token issued
      → Opens p (run p a es) token.client_id token.session_key issued
  run-Opens es t named spared a v c h =
      Holds-Opens p (run p a es) token issued (run-Holds es t named spared a v c h)
