-- ===== src/Adaptor/Login.antt =====
-- An honest login, from the offer of a known peer to an open gate.
pub mod Offer
pub mod Exchange
pub mod Register
use mathlib.Core.Path.{subst}
use zonal_zero_trust_auth.Base.{
  ℕ, ◌≤◌, ◌<◌, ◌≡◌, refl, sym, ap, ◌∙◌, List, ◌++◌, true, false, Option, some, length, arith,
}
use zonal_zero_trust_auth.Platform.{
  ClientId, Nonce, CryptoSignature, EccPublicKey, SessionKey, CryptoPlatform, IsClientId,
  ecc_signature_len, nonce_len, zeros, CryptoStatus,
}
use zonal_zero_trust_auth.ConstantTime.{is_zero}
use zonal_zero_trust_auth.Engine.{
  KnownPeerEntry, SpdmSessionToken, supported_version, find_peer_public_key,
}
use zonal_zero_trust_auth.Tlm
use zonal_zero_trust_auth.Tlm.{max_active_sessions, token_lifetime_ms, age_ms, slot_at}
use zonal_zero_trust_auth.Tlm.Register.Outcome.{Holds}
use zonal_zero_trust_auth.Adaptor.{
  AdaptorStatus, Adaptor, engine_at, on_peer_offered, on_auth_request, on_auth_response,
  is_session_active,
}
use zonal_zero_trust_auth.Adaptor.Valid.{IsValid, LooksUp-peer_key, peer_key}
use Offer.{HasSlot, Offered, on_peer_offered-Offered}
use Exchange.{Serves, Challenged, challenge_frames, on_auth_request-Challenged}
use Register.{Holds-Opens, on_auth_response-Admits, IsOpen}

module _ (p : CryptoPlatform) (table : Option (List KnownPeerEntry)) (count : ℕ) where
  -- A client that is known, not locked out, and finds a slot in the pool and in the session table.
  pub record MayLogIn (a : Adaptor p) (x : ClientId) (key : EccPublicKey) : Type 0 where
    pub not_zero : is_zero x ≡ false
    pub not_barred : Tlm.is_locked_out a.tlm x ≡ false
    pub slot : ℕ
    pub has_slot : HasSlot p a x slot
    pub known : peer_key p table count x ≡ some key
    pub place : ℕ
    pub place_in : place < max_active_sessions
    pub place_open : (slot_at a.tlm place).is_locked_out ≡ false

  -- The three calls of a login: the offer, the request frame and the response frame.
  abbrev pub offered : Adaptor p → ClientId → AdaptorStatus × Adaptor p
  offered a x = on_peer_offered p a x

  abbrev pub requested : Adaptor p → ClientId → AdaptorStatus × Adaptor p
  requested a x = on_auth_request p (offered a x).1 (some (x ++ supported_version))

  abbrev pub responded : Adaptor p → ClientId → CryptoSignature → ℕ → AdaptorStatus × Adaptor p
  responded a x signature now = on_auth_response p (requested a x).1 (some (x ++ signature)) now

  -- All three calls are answered with kOk, the challenge sent is the nonce, and the gate is then open to
  -- the client at a time, with the session key.
  abbrev pub LogsIn :
      Adaptor p → ClientId → CryptoSignature → Nonce → SessionKey → ℕ → ℕ → SessionKey → Type 0
  LogsIn a x signature nonce session now later old =
      ((offered a x).0 ≡ AdaptorStatus.ok)
      × ((requested a x).0 ≡ AdaptorStatus.ok)
      × ((requested a x).1.transmitted ≡ challenge_frames p a x nonce)
      × ((responded a x signature now).0 ≡ AdaptorStatus.ok)
      × IsOpen p (responded a x signature now).1 x session later old

  -- The session agreed upon in a login.
  abbrev pub agreed : ClientId → Nonce → SessionKey → SpdmSessionToken
  agreed x nonce session = record { client_id = x; session_nonce = nonce; session_key = session }

  module _ (a : Adaptor p) (v : IsValid p table count a) (x : ClientId) (hx : IsClientId x)
      (key : EccPublicKey) (may : MayLogIn a x key) (signature : CryptoSignature)
      (hs : length signature ≡ ecc_signature_len) (nonce : Nonce) (session : SessionKey)
      (serves : Serves p a.platform x key signature nonce session) (now : ℕ) where
    -- What the three calls answer, and that the manager holds the session.
    pub responded-Holds :
        ((offered a x).0 ≡ AdaptorStatus.ok)
        × ((requested a x).0 ≡ AdaptorStatus.ok)
        × ((requested a x).1.transmitted ≡ challenge_frames p a x nonce)
        × ((responded a x signature now).0 ≡ AdaptorStatus.ok)
        × Holds (responded a x signature now).1.tlm (agreed x nonce session) now
    responded-Holds =
        let i = may.slot in
        let (first, o) =
          on_peer_offered-Offered p table count a v x may.not_zero may.not_barred i may.has_slot in
        let e = engine_at p a i in
        let known : find_peer_public_key e x ≡ some key =
          LooksUp-peer_key p table count e (v.lookups i o.inside) x ∙ may.known in
        let (second, c) =
          on_auth_request-Challenged p (offered a x).1 o.size x hx i o.inside o.bound e key nonce
            serves.s1 o.engine known
            (ap (λ (s : p.State). p.generate_random_nonce s (zeros nonce_len)) o.platform
              ∙ serves.drawn) in
        let same : (requested a x).1.tlm ≡ a.tlm = c.tlm ∙ o.tlm in
        let (third, holds) =
          on_auth_response-Admits p (requested a x).1 c.size x hx i o.inside c.bound e key signature
            hs nonce session a.platform serves c.engine known c.platform
            (subst Tlm.Invariant.IsValid (sym same) v.manager) may.not_zero
            (ap (λ (m : Tlm.TokenLifecycleManager). Tlm.is_locked_out m x) same ∙ may.not_barred)
            may.place may.place_in
            (ap (λ (m : Tlm.TokenLifecycleManager). (slot_at m may.place).is_locked_out) same
              ∙ may.place_open)
            now in
        (first, second, c.transmitted ∙ rw (o.has_transmit, o.transmitted) refl, third, holds)

  -- A client that may log in, on a platform that serves it, does: on every valid adaptor the offer, the
  -- request and the response are answered with kOk, the challenge sent is the nonce drawn, and right
  -- after that the gate is open to the client, with the session key derived, at every time that is no
  -- more than the lifetime of a token after the response.
  pub responded-LogsIn :
      (a : Adaptor p)
      → IsValid p table count a
      → (x : ClientId) → IsClientId x
      → (key : EccPublicKey) → MayLogIn a x key
      → (signature : CryptoSignature) → length signature ≡ ecc_signature_len
      → (nonce : Nonce) (session : SessionKey) → Serves p a.platform x key signature nonce session
      → (now later : ℕ) (old : SessionKey) → age_ms later now ≤ token_lifetime_ms
      → LogsIn a x signature nonce session now later old
  responded-LogsIn a v x hx key may signature hs nonce session serves now later old young =
      let (first, second, sent, third, holds) =
        responded-Holds a v x hx key may signature hs nonce session serves now in
      (
        first,
        second,
        sent,
        third,
        Holds-Opens p (responded a x signature now).1 (agreed x nonce session) now holds later old
            young,
      )
