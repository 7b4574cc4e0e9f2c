-- ===== src/Adaptor/Availability/Login.antt =====
-- A login lasts: after it the gate stays open to the client, whatever other clients do.
use mathlib.Core.Path.{subst}
use zonal_zero_trust_auth.Base.{
  ℕ, ◌<◌, ◌≡◌, refl, sym, ap, ◌∙◌, List, [], ◌∷◌, ◌++◌, false, Option, some, arith, All-append,
}
use zonal_zero_trust_auth.Platform.{
  ClientId, Nonce, CryptoSignature, EccPublicKey, SessionKey, CryptoPlatform, IsClientId,
  ecc_signature_len, IsArray,
}
use zonal_zero_trust_auth.ConstantTime.{is_zero}
use zonal_zero_trust_auth.Engine.{KnownPeerEntry, supported_version}
use zonal_zero_trust_auth.Tlm
use zonal_zero_trust_auth.Tlm.{max_active_sessions, slot_at}
use zonal_zero_trust_auth.Adaptor.{AdaptorStatus, Adaptor}
use zonal_zero_trust_auth.Adaptor.Valid.{IsValid, peer_key}
use zonal_zero_trust_auth.Adaptor.Events.{Event, offers, requests, responds, AllTyped, step, run}
use zonal_zero_trust_auth.Adaptor.Hooks.{run-IsValid}
use zonal_zero_trust_auth.Adaptor.Housing.{AllNamed, IsCovered}
use zonal_zero_trust_auth.Adaptor.Housing.Room.{open_place}
use zonal_zero_trust_auth.Adaptor.Housing.History.{run-IsCovered}
use zonal_zero_trust_auth.Adaptor.Login.{
  MayLogIn, offered, requested, responded, responded-Holds, agreed,
}
use zonal_zero_trust_auth.Adaptor.Login.Offer.{HasSlot, on_peer_offered-Offered}
use zonal_zero_trust_auth.Adaptor.Login.Exchange.{Serves, challenge_frames}
use zonal_zero_trust_auth.Adaptor.Login.Register.{Opens}
use zonal_zero_trust_auth.Adaptor.Availability.{AllSpare, run-Opens}

module _ (p : CryptoPlatform) (table : Option (List KnownPeerEntry)) (count : ℕ) where
  -- A client that is known, not locked out, and finds a slot in the pool: its own, or a free one.
  pub record MayEnter (a : Adaptor p) (x : ClientId) (key : EccPublicKey) : Type 0 where
    pub not_zero : is_zero x ≡ false
    pub not_barred : Tlm.is_locked_out a.tlm x ≡ false
    pub slot : ℕ
    pub has_slot : HasSlot p a x slot
    pub known : peer_key p table count x ≡ some key

  -- The calls of a login as events.
  abbrev pub login : ClientId → CryptoSignature → ℕ → List Event
  login x signature now =
      offers x
      ∷ requests (some (x ++ supported_version))
      ∷ responds (some (x ++ signature)) now
      ∷ []

  run-login :
      (a : Adaptor p) (x : ClientId) (signature : CryptoSignature) (now : ℕ)
      → run p a (login x signature now) ≡ (responded p table count a x signature now).1
  unfolding run step
  run-login a x signature now = refl

  -- A covered adaptor has a place in its table for a client that may enter.
  MayEnter-MayLogIn :
      (a : Adaptor p)
      → IsValid p table count a
      → IsCovered p a
      → (x : ClientId) → IsClientId x
      → (key : EccPublicKey) → MayEnter a x key
      → MayLogIn p table count a x key
  unfolding run step
  MayEnter-MayLogIn a v c x hx key may =
      let b = (offered p table count a x).1 in
      let (_, o) =
        on_peer_offered-Offered p table count a v x may.not_zero may.not_barred may.slot
          may.has_slot in
      let barred : Tlm.is_locked_out b.tlm x ≡ false =
        ap (λ (m : Tlm.TokenLifecycleManager). Tlm.is_locked_out m x) o.tlm ∙ may.not_barred in
      let (k, hk, open_slot) =
        open_place p table count b (run-IsValid p table count a (offers x ∷ []) (hx, tt) v)
          (run-IsCovered p table count (offers x ∷ []) (hx, tt) (tt, tt) a v c) x hx
          (may.slot, o.bound) barred in
      record {
        not_zero = may.not_zero;
        not_barred = may.not_barred;
        slot = may.slot;
        has_slot = may.has_slot;
        known = may.known;
        place = k;
        place_in = hk;
        place_open =
            ap (λ (m : Tlm.TokenLifecycleManager). (slot_at m k).is_locked_out) (sym o.tlm)
            ∙ open_slot;
      }

  -- On a valid adaptor whose clients all have slots in the pool, and on a platform that serves the
  -- client, a client that is known, is not locked out and has or finds a slot in the pool logs in:
  -- offer, request and response are answered with kOk, the challenge sent is the nonce drawn; and over
  -- every later history of hook calls that does not itself end the session and never revokes the
  -- all-zero identifier, the gate stays open to the client, with the key derived, at every time that is
  -- no more than the lifetime of a token after the response.
  pub login_lasts :
      (a : Adaptor p)
      → IsValid p table count a
      → IsCovered p a
      → (x : ClientId) → IsClientId x
      → (key : EccPublicKey) → MayEnter a x key
      → (signature : CryptoSignature) → IsArray ecc_signature_len signature
      → (nonce : Nonce) (session : SessionKey) → Serves p a.platform x key signature nonce session
      → (now : ℕ) (es : List Event) → AllTyped es
      → AllNamed es
      → AllSpare x now es
      → ((offered p table count a x).0 ≡ AdaptorStatus.ok)
        × ((requested p table count a x).0 ≡ AdaptorStatus.ok)
        × ((requested p table count a x).1.transmitted ≡ challenge_frames p a x nonce)
        × ((responded p table count a x signature now).0 ≡ AdaptorStatus.ok)
        × Opens p (run p (responded p table count a x signature now).1 es) x session now
  login_lasts a v c x hx key may signature hs nonce session serves now es t named spared =
      let (first, second, sent, third, holds) =
        responded-Holds p table count a v x hx key (MayEnter-MayLogIn a v c x hx key may) signature
          (hs.0) nonce session serves now in
      let typed : AllTyped (login x signature now) = (
        hx,
        (
          All-append (λ b. b < 256) x supported_version (hx.1) (omega arith),
          (All-append (λ b. b < 256) x signature (hx.1) (hs.1), tt),
        ),
      ) in
      let same = run-login a x signature now in
      (
        first,
        second,
        sent,
        third,
        run-Opens p table count (agreed p table count x nonce session) now hx es t named spared
            (responded p table count a x signature now).1
            (subst (IsValid p table count) same
              (run-IsValid p table count a (login x signature now) typed v))
            (subst (IsCovered p) same (
              run-IsCovered p table count (login x signature now) typed (tt, (tt, (tt, tt))) a v c))
            holds,
      )
