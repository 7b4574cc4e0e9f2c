-- ===== src/Tlm/Sessions.antt =====
-- `ValidateToken` and `RevokeToken`: who gets a key, and what ends a session.
pub mod Valid
use mathlib.Core.Path.{subst}
use zonal_zero_trust_auth.Base.{
  ℕ, ◌≤◌, ◌<◌, ◌≡◌, ◌≢◌, ◌⊎◌, refl, sym, ap, ◌∙◌, List, Bool, true, false, Option, none, some, set,
  get_or-set_self, get_or-set, set-set, length-set, ◌==◌, if◌then◌else◌, arith, Bool-cases,
  Option-cases, inl, inr,
}
use zonal_zero_trust_auth.Platform.{ClientId, SessionKey, IsClientId}
use zonal_zero_trust_auth.Engine.{SpdmSessionToken}
use zonal_zero_trust_auth.Ring
use zonal_zero_trust_auth.Ring.Fifo.{remove}
use zonal_zero_trust_auth.Ring.Refine.{remove-IsValid, contents-remove}
use zonal_zero_trust_auth.Tlm.{
  TlmStatus, TokenSlot, TokenLifecycleManager, Validated, max_active_sessions, token_lifetime_ms,
  empty_slot, slot_at, put_slot, age_ms, is_expired, copy_out, end_session, validate_slot,
  validate_token, count_anomaly, revoke_token, find_slot_by_client_id, is_locked_out,
}
use zonal_zero_trust_auth.Tlm.Slots.{ended_slot, end_session_lem, notified_after}
use zonal_zero_trust_auth.Tlm.Invariant.{IsValid, WellFormed, amend-WellFormed, revoked-WellFormed}
use zonal_zero_trust_auth.Tlm.Invariant.Find.{found, is_locked_out-some}
use zonal_zero_trust_auth.Tlm.Register.Stages.{order_of, in_table, byte_index, end_session-IsValid}
use zonal_zero_trust_auth.Tlm.Register.Outcome.{Holds}

-- The client has a live session at the slot, issued at most a lifetime ago, and is not locked out.
pub record IsLive (m : TokenLifecycleManager) (client_id : ClientId) (now idx : ℕ) : Type 0 where
  pub at_idx : find_slot_by_client_id m client_id ≡ some idx
  pub live : (slot_at m idx).is_active ≡ true
  pub unlocked : (slot_at m idx).is_locked_out ≡ false
  pub young : age_ms now (slot_at m idx).issued_at_ms ≤ token_lifetime_ms

module _ (m : TokenLifecycleManager) (x : ClientId) (now : ℕ) (out : Option SessionKey) where
  -- A live session is confirmed: its key goes out, and only the slot's time stamp is written.
  pub IsLive-validate_token :
      (idx : ℕ)
      → IsLive m x now idx
      → validate_token m x now out ≡ record {
        status = TlmStatus.ok;
        key_out = copy_out out (slot_at m idx).session_key;
        manager = put_slot m idx (record (slot_at m idx) { last_seen_ms = now });
      }
  unfolding validate_token validate_slot
  IsLive-validate_token idx l =
      let free = is_locked_out-some m x idx l.at_idx ∙ l.unlocked in
      let young : age_ms now (slot_at m idx).issued_at_ms ≤ token_lifetime_ms = l.young in
      let fresh : is_expired now (slot_at m idx) ≡ false = ground arith in
      rw (free, l.at_idx, validate_token) (rw (l.live, fresh) refl)

  slot-IsLive :
      (idx : ℕ)
      → find_slot_by_client_id m x ≡ some idx
      → is_locked_out m x ≡ false
      → (validate_slot m idx x now out).status ≡ TlmStatus.ok
      → IsLive m x now idx
  unfolding validate_slot
  slot-IsLive idx e open_id h = record {
    at_idx = e;
    live = ground arith;
    unlocked = sym (is_locked_out-some m x idx e) ∙ open_id;
    young = ground arith;
  }

  -- No other call succeeds.
  pub validate_token-IsLive :
      (validate_token m x now out).status ≡ TlmStatus.ok → (idx : ℕ) × IsLive m x now idx
  unfolding validate_token
  validate_token-IsLive h = elim (Bool-cases (is_locked_out m x)) [
    | inl l ↦ absurd (ground arith)
    | inr o ↦ elim (Option-cases (find_slot_by_client_id m x)) [
      | inl e ↦ absurd (ground arith)
      | inr (idx, e) ↦ (idx, slot-IsLive idx e o (ground arith))
    ]
  ]

  -- A call that does not succeed writes nothing through `key_out`.
  pub validate_token-refused :
      (validate_token m x now out).status ≢ TlmStatus.ok
      → (validate_token m x now out).key_out ≡ out
  unfolding validate_token validate_slot
  validate_token-refused h = ground arith

-- What `ValidateToken` does to the manager, by cases.
pub validate_token_cases {ℓ} :
    (m : TokenLifecycleManager) (x : ClientId) (now : ℕ) (out : Option SessionKey)
    (P : TokenLifecycleManager → Type ℓ)
    → P m
    → ((idx : ℕ)
        → find_slot_by_client_id m x ≡ some idx
        → (slot_at m idx).is_active ≡ true
        → P (end_session m idx x))
    → ((idx : ℕ)
        → find_slot_by_client_id m x ≡ some idx
        → (slot_at m idx).is_active ≡ true
        → P (put_slot m idx (record (slot_at m idx) { last_seen_ms = now })))
    → P (validate_token m x now out).manager
unfolding validate_token validate_slot
validate_token_cases m x now out P same ended touched = elim (Bool-cases (is_locked_out m x)) [
  | inl l ↦ rw l same
  | inr o ↦ elim (Option-cases (find_slot_by_client_id m x)) [
    | inl e ↦ rw (o, e, validate_token) same
    | inr (idx, e) ↦ elim (Bool-cases (slot_at m idx).is_active) [
      | inr n ↦ rw (o, e, validate_token) (rw n same)
      | inl a ↦ elim (Bool-cases (is_expired now (slot_at m idx))) [
        | inl old ↦ rw (o, e, validate_token) (rw (a, old) (ended idx e a))
        | inr fresh ↦
            let l : IsLive m x now idx = record {
              at_idx = e;
              live = a;
              unlocked = sym (is_locked_out-some m x idx e) ∙ o;
              young = ground arith;
            } in
            subst (λ (r : Validated). P r.manager) (sym (IsLive-validate_token m x now out idx l))
              (touched idx e a)
      ]
    ]
  ]
]

is_ok : (st : TlmStatus) → (st ≡ TlmStatus.ok) ⊎ (st ≢ TlmStatus.ok)
is_ok st = ground arith

-- `ValidateToken` succeeds exactly when the client has a live session that was issued at most a
-- lifetime ago and is not locked out. It then hands out that session's key through a `key_out` that is
-- not null, and writes only the slot's time stamp; a call that does not succeed writes nothing through
-- `key_out`.
pub validate_token_lem :
    (m : TokenLifecycleManager) (x : ClientId) (now : ℕ) (out : Option SessionKey)
    → let r = validate_token m x now out in
      ((idx : ℕ) × IsLive m x now idx
        × (r.status ≡ TlmStatus.ok)
        × (r.key_out ≡ copy_out out (slot_at m idx).session_key)
        × (r.manager ≡ put_slot m idx (record (slot_at m idx) { last_seen_ms = now })))
      ⊎ (¬ ((idx : ℕ) × IsLive m x now idx)) × (r.status ≢ TlmStatus.ok) × (r.key_out ≡ out)
validate_token_lem m x now out = elim (is_ok (validate_token m x now out).status) [
  | inl good ↦
      let (idx, l) = validate_token-IsLive m x now out good in
      let e = IsLive-validate_token m x now out idx l in
      inl (idx, l, good, ap (λ (r : Validated). r.key_out) e, ap (λ (r : Validated). r.manager) e)
  | inr bad ↦ inr (
    λ (idx, l). bad (ap (λ (r : Validated). r.status) (IsLive-validate_token m x now out idx l)),
    bad,
    validate_token-refused m x now out bad,
  )
]

-- A token just registered at time `issued` is confirmed, with its own key, at every later time up to
-- the lifetime.
pub Holds-validate_token :
    (m : TokenLifecycleManager) (token : SpdmSessionToken) (issued now : ℕ) (old : SessionKey)
    → Holds m token issued
    → age_ms now issued ≤ token_lifetime_ms
    → let r = validate_token m token.client_id now (some old) in
      (r.status ≡ TlmStatus.ok) × (r.key_out ≡ some token.session_key)
Holds-validate_token m token issued now old holds young =
    let l : IsLive m token.client_id now holds.idx = record {
      at_idx = holds.at_idx;
      live = holds.live;
      unlocked = holds.unlocked;
      young = rw holds.issued young;
    } in
    let e = IsLive-validate_token m token.client_id now (some old) holds.idx l in
    (ap (λ (r : Validated). r.status) e, ap (λ (r : Validated). r.key_out) e ∙ ap some holds.key)
