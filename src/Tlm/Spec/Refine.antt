-- ===== src/Tlm/Spec/Refine.antt =====
-- Every call of the session manager does to the sessions what the abstract table does.
use mathlib.Core.Path.{subst}
use zonal_zero_trust_auth.Base.{
  ℕ, ◌≡◌, ◌≢◌, ◌⊎◌, refl, sym, ap, ◌∙◌, List, Bool, true, false, Option, none, some, ◌==◌,
  if◌then◌else◌, get_or-set, arith, Bool-cases, Option-cases, inl, inr,
}
use zonal_zero_trust_auth.Platform.{ClientId, SessionKey, IsClientId}
use zonal_zero_trust_auth.Ring.Fifo.{remove}
use zonal_zero_trust_auth.Ring.Refine.{contents-remove}
use zonal_zero_trust_auth.Tlm.{
  TlmStatus, TokenLifecycleManager, Validated, max_active_sessions, empty_slot, slot_at, put_slot,
  is_expired, copy_out, end_session, validate_slot, validate_token, revoke_token,
  find_slot_by_client_id, is_locked_out,
}
use zonal_zero_trust_auth.Tlm.Invariant.{IsValid, active}
use zonal_zero_trust_auth.Tlm.Invariant.Find.{found, is_locked_out-some, is_locked_out-none}
use zonal_zero_trust_auth.Tlm.Register.Stages.{
  order_of, in_table, byte_index, order-end_session, slot_at-end_session,
}
use zonal_zero_trust_auth.Tlm.Sessions.Valid.{
  slot_at-revoke_token, revoke_token-some, revoke_token-none,
}
use zonal_zero_trust_auth.Tlm.History
use zonal_zero_trust_auth.Tlm.History.{registers, validates, revokes, sweeps, Call, IsTyped}
use zonal_zero_trust_auth.Tlm.Spec
use zonal_zero_trust_auth.Tlm.Spec.{Session, drop_client, touch, lookup, answer, is_old}
use zonal_zero_trust_auth.Tlm.Spec.View.{
  session_at, sessions, view-drop-none, view-touch, lookup-view-none, lookup-view, found-Agree,
  missing-Agree, sessions-drop,
}
use zonal_zero_trust_auth.Tlm.Spec.Sweep.{sessions-evaluate_token_expiry}
use zonal_zero_trust_auth.Tlm.Spec.Admit.{sessions-register_token}
use zonal_zero_trust_auth.Tlm.Spec.Capacity.{capacity}

-- A query of the abstract table, by what is looked up.
module _ (x : ClientId) (now : ℕ) (l : List Session) where
  abbrev Outcome : List Session → Option SessionKey → Type 0
  Outcome rest key = (Spec.validate x now l ≡ rest) × (answer x now l ≡ key)

  missing-Outcome : lookup x l ≡ none → Outcome l none
  unfolding Spec.validate answer
  missing-Outcome e = rw (e, Spec.validate, answer) (refl, refl)

  old-Outcome :
      (s : Session) → lookup x l ≡ some s → is_old now s ≡ true → Outcome (drop_client x l) none
  unfolding Spec.validate answer
  old-Outcome s e old = rw (e, Spec.validate, answer) (rw old (refl, refl))

  young-Outcome :
      (s : Session)
      → lookup x l ≡ some s
      → is_old now s ≡ false
      → Outcome (touch x now l) (some s.session_key)
  unfolding Spec.validate answer
  young-Outcome s e young = rw (e, Spec.validate, answer) (rw young (refl, refl))

module _ (m : TokenLifecycleManager) (v : IsValid m) (x : ClientId) (hx : IsClientId x) where
  drop_missing : find_slot_by_client_id m x ≡ none → drop_client x (sessions m) ≡ sessions m
  drop_missing e = view-drop-none m x (order_of m) (missing-Agree m v x hx e)

  -- A revocation drops the client.
  pub sessions-revoke_token :
      (is_anomaly : Bool) → sessions (revoke_token m x is_anomaly).1 ≡ drop_client x (sessions m)
  sessions-revoke_token is_anomaly = elim (Option-cases (find_slot_by_client_id m x)) [
    | inl e ↦ rw (revoke_token-none m v x hx is_anomaly e) (sym (drop_missing e))
    | inr (i, e) ↦
        let h = (found m (order_of m) v.table x i hx e).0 in
        sessions-drop m v x hx i (revoke_token m x is_anomaly).1 e
          (ap (λ (r : TlmStatus × TokenLifecycleManager). order_of r.1)
              (revoke_token-some m v x hx is_anomaly i e)
            ∙ contents-remove max_active_sessions m.insertion_order i v.ring
            ∙ ap (remove (order_of m)) (byte_index i h))
          (λ j ij.
            (let other : (i == j) ≡ false = ground arith in
              slot_at-revoke_token m v x hx is_anomaly i e j ∙ rw other))
  ]

  lookup-missing : find_slot_by_client_id m x ≡ none → lookup x (sessions m) ≡ none
  lookup-missing e = lookup-view-none m x (order_of m) (missing-Agree m v x hx e)

  lookup-found :
      (i : ℕ)
      → find_slot_by_client_id m x ≡ some i
      → lookup x (sessions m) ≡ (if active (slot_at m i) then some (session_at m i) else none)
  lookup-found i e =
      let listed = v.table.listed i in
      lookup-view m x i (order_of m) (found-Agree m v x hx i e) ∙ rw listed refl

  sessions-end_session :
      (i : ℕ)
      → find_slot_by_client_id m x ≡ some i
      → sessions (end_session m i x) ≡ drop_client x (sessions m)
  sessions-end_session i e =
      let h = (found m (order_of m) v.table x i hx e).0 in
      sessions-drop m v x hx i (end_session m i x) e (order-end_session m v i x h) (λ j ij.
        (let other : (i == j) ≡ false = ground arith in
          slot_at-end_session m i x j (in_table m v i h) ∙ rw other))

  module _ (now : ℕ) (out : Option SessionKey) where
    -- The status and the key of a query are those that the abstract table gives.
    abbrev pub Answers : Validated → Type 0
    Answers r =
        ((key : SessionKey) × (answer x now (sessions m) ≡ some key)
          × (r.status ≡ TlmStatus.ok)
          × (r.key_out ≡ copy_out out key))
        ⊎ (answer x now (sessions m) ≡ none) × (r.status ≢ TlmStatus.ok) × (r.key_out ≡ out)

    abbrev Refines : Validated → Type 0
    Refines r = (sessions r.manager ≡ Spec.validate x now (sessions m)) × Answers r

    -- Without a session to be found, a query that changes nothing is right.
    refused :
        (st : TlmStatus)
        → st ≢ TlmStatus.ok
        → lookup x (sessions m) ≡ none
        → Refines (record { status = st; key_out = out; manager = m })
    refused st bad e =
        let (rest, none_given) = missing-Outcome x now (sessions m) e in
        (sym rest, inr (none_given, bad, refl))

    fresh_slot :
        (i : ℕ)
        → active (slot_at m i) ≡ true
        → is_expired now (slot_at m i) ≡ false
        → validate_slot m i x now out ≡ record {
          status = TlmStatus.ok;
          key_out = copy_out out (slot_at m i).session_key;
          manager = put_slot m i (record (slot_at m i) { last_seen_ms = now });
        }
    unfolding validate_slot
    fresh_slot i a fresh = rw (a, fresh) refl

    slot-Refines :
        (i : ℕ) → find_slot_by_client_id m x ≡ some i → Refines (validate_slot m i x now out)
    unfolding validate_slot
    slot-Refines i e = elim (Bool-cases (active (slot_at m i))) [
      | inr n ↦
          let none_found : lookup x (sessions m) ≡ none = lookup-found i e ∙ rw n refl in
          rw n (refused TlmStatus.not_found (λ q. ground arith) none_found)
      | inl a ↦
          let one : lookup x (sessions m) ≡ some (session_at m i) = lookup-found i e ∙ rw a refl in
          elim (Bool-cases (is_expired now (slot_at m i))) [
            | inl old ↦
                let (rest, none_given) = old-Outcome x now (sessions m) (session_at m i) one old in
                rw (a, old)
                  (sessions-end_session i e ∙ sym rest, inr (none_given, (λ q. ground arith), refl))
            | inr fresh ↦
                let (rest, given) = young-Outcome x now (sessions m) (session_at m i) one fresh in
                let h = (found m (order_of m) v.table x i hx e).0 in
                let new = record (slot_at m i) { last_seen_ms = now } in
                subst Refines (sym (fresh_slot i a fresh)) (
                  view-touch m x i now (order_of m) (put_slot m i new) (found-Agree m v x hx i e)
                        (λ j. get_or-set m.session_table i j new empty_slot (in_table m v i h))
                      ∙ sym rest,
                  inl ((slot_at m i).session_key, given, refl, refl),
                )
          ]
    ]

    -- `ValidateToken` answers from the sessions and changes them as the abstract table does: a client
    -- without a session and an expired session, which ends, get no key; a young session is touched.
    pub validate_token-Answers : Refines (validate_token m x now out)
    unfolding validate_token
    validate_token-Answers = elim (Option-cases (find_slot_by_client_id m x)) [
      | inl e ↦
          let o = is_locked_out-none m x e in
          rw o (
            rw (e, validate_token)
              (refused TlmStatus.not_found (λ q. ground arith) (lookup-missing e)))
      | inr (i, e) ↦ elim (Bool-cases (is_locked_out m x)) [
        | inr o ↦ rw (o, e, validate_token) (slot-Refines i e)
        | inl barred ↦
            let idle : active (slot_at m i) ≡ false =
              (v.table.slots i).idle (sym (is_locked_out-some m x i e) ∙ barred) in
            let none_found : lookup x (sessions m) ≡ none = lookup-found i e ∙ rw idle refl in
            rw barred (refused TlmStatus.locked_out (λ q. ground arith) none_found)
      ]
    ]

-- A call on a valid manager does to its sessions, in the order of eviction, what the abstract table
-- does with the capacity and the lockouts of the manager before the call.
pub step-sessions :
    (m : TokenLifecycleManager)
    → IsValid m
    → (c : Call) → IsTyped c
    → sessions (History.step m c) ≡ Spec.step (capacity m) (is_locked_out m) c (sessions m)
unfolding History.step Spec.step
step-sessions m v (registers token now) t = sessions-register_token token now t m v
step-sessions m v (validates x now out) t = (validate_token-Answers m v x t now out).0
step-sessions m v (revokes x is_anomaly) t = sessions-revoke_token m v x t is_anomaly
step-sessions m v (sweeps now) t = sessions-evaluate_token_expiry now m v
