-- ===== src/Tlm/Spec.antt =====
-- What the session manager promises, with slots, indices and the ring forgotten: a list of sessions,
-- the oldest registration first, that holds at most one session for each client and gives up its head
-- when it has no room.
pub mod View
pub mod Sweep
pub mod Capacity
pub mod Admit
pub mod Refine
use zonal_zero_trust_auth.Base.{
  ℕ, ◌+◌, List, [], ◌∷◌, ◌++◌, Bool, true, false, not, Option, none, some, length, drop, ltb, ◌==◌,
  if◌then◌else◌, keep_if, map,
}
use zonal_zero_trust_auth.Platform.{ClientId, Nonce, SessionKey}
use zonal_zero_trust_auth.ConstantTime.{same_bytes, is_zero}
use zonal_zero_trust_auth.Engine.{SpdmSessionToken}
use zonal_zero_trust_auth.Tlm.{TlmStatus, token_lifetime_ms, age_ms, copy_out}
use zonal_zero_trust_auth.Tlm.History.{Call, registers, validates, revokes, sweeps}

pub record Session : Type 0 where
  pub client_id : ClientId
  pub session_key : SessionKey
  pub session_nonce : Nonce
  pub issued_at_ms : ℕ
  pub last_seen_ms : ℕ

abbrev pub belongs_to : ClientId → Session → Bool
belongs_to x s = same_bytes x s.client_id

abbrev pub is_old : ℕ → Session → Bool
is_old now s = ltb token_lifetime_ms (age_ms now s.issued_at_ms)

-- The session of a token that is registered at a time.
abbrev pub issued : SpdmSessionToken → ℕ → Session
issued token now = record {
  client_id = token.client_id;
  session_key = token.session_key;
  session_nonce = token.session_nonce;
  issued_at_ms = now;
  last_seen_ms = now;
}

abbrev pub touched : ℕ → Session → Session
touched now s = record s { last_seen_ms = now }

unfoldable pub lookup : ClientId → List Session → Option Session
lookup x [] = none
lookup x (s ∷ l) = if belongs_to x s then some s else lookup x l

abbrev pub drop_client : ClientId → List Session → List Session
drop_client x = keep_if (λ s. not (belongs_to x s))

unfoldable pub touch : ClientId → ℕ → List Session → List Session
touch x now = map (λ s. if belongs_to x s then touched now s else s)

-- The client's earlier session ends; if there is still no room, so does the oldest one.
unfoldable pub admit : ℕ → SpdmSessionToken → ℕ → List Session → List Session
admit capacity token now l =
    if capacity == 0
    then l
    else (let rest = drop_client token.client_id l in
        (if length rest == capacity then drop 1 rest else rest) ++ issued token now ∷ [])

unfoldable pub register : Bool → ℕ → SpdmSessionToken → ℕ → List Session → List Session
register barred capacity token now l =
    if is_zero token.client_id then l else if barred then l else admit capacity token now l

unfoldable pub validate : ClientId → ℕ → List Session → List Session
validate x now l = elim (lookup x l) [
  | none ↦ l
  | some s ↦ if is_old now s then drop_client x l else touch x now l
]

-- The key with which a query is answered.
unfoldable pub answer : ClientId → ℕ → List Session → Option SessionKey
answer x now l = elim (lookup x l) [
  | none ↦ none
  | some s ↦ if is_old now s then none else some s.session_key
]

-- What a call makes of the sessions, when `capacity` slots are not locked out and the clients for which
-- `barred` holds are.
unfoldable pub step : ℕ → (ClientId → Bool) → Call → List Session → List Session
step capacity barred (registers token now) l =
    register (barred token.client_id) capacity token now l
step capacity barred (validates x now out) l = validate x now l
step capacity barred (revokes x is_anomaly) l = drop_client x l
step capacity barred (sweeps now) l = keep_if (λ s. not (is_old now s)) l
