-- ===== src/Tlm/History.antt =====
-- Histories of calls on the session manager: the invariant after any of them, and lockout for good.
use mathlib.Core.Path.{subst}
use zonal_zero_trust_auth.Base.{
  ℕ, ◌≡◌, refl, sym, ap, ◌∙◌, List, [], ◌∷◌, Bool, true, false, Option, replicate, get_or-replicate,
  count_if, arith,
}
use zonal_zero_trust_auth.Platform.{ClientId, SessionKey, IsClientId}
use zonal_zero_trust_auth.Engine.{SpdmSessionToken}
use zonal_zero_trust_auth.Ring
use zonal_zero_trust_auth.Ring.Refine.{empty-IsValid}
use zonal_zero_trust_auth.Tlm.{
  TokenLifecycleManager, max_active_sessions, empty_slot, construct, register_token, validate_token,
  revoke_token, evaluate_token_expiry, get_active_session_count, is_locked_out,
}
use zonal_zero_trust_auth.Tlm.Invariant.{IsValid, IsSound, at, active, is_claimed}
use zonal_zero_trust_auth.Tlm.Register.Outcome.{register_token-IsValid}
use zonal_zero_trust_auth.Tlm.Sessions.Valid.{validate_token-IsValid, revoke_token-IsValid}
use zonal_zero_trust_auth.Tlm.Expiry.{evaluate_token_expiry_lem}
use zonal_zero_trust_auth.Tlm.Slotwise.{
  register_token-Slotwise, validate_token-Slotwise, revoke_token-Slotwise,
  evaluate_token_expiry-Slotwise,
}
use zonal_zero_trust_auth.Tlm.Lockout.{
  SlotKept, SlotKept-stable, SlotKept-AllowsToken, SlotKept-AllowsCount, Keeps, Keeps-is_locked_out,
}
use zonal_zero_trust_auth.Ring.Refine.{length-contents}

empty_slot-IsSound : IsSound empty_slot
empty_slot-IsSound = record {
  id = omega arith;
  erased = λ e. record { key = refl; nonce = refl; issued = refl; seen = refl };
  idle = λ e. refl;
  threshold = refl;
  byte = omega arith;
}

empty_at : (i : ℕ) → at (replicate max_active_sessions empty_slot) i ≡ empty_slot
empty_at i = get_or-replicate max_active_sessions i empty_slot

-- A manager starts valid.
pub construct-IsValid : (has_callback : Bool) → IsValid (construct has_callback)
unfolding construct count_if Ring.empty
construct-IsValid has_callback = record {
  ring = empty-IsValid max_active_sessions (omega arith) (omega arith);
  table = record {
    size = refl;
    slots = λ i. subst IsSound (sym (empty_at i)) empty_slot-IsSound;
    first =
        λ i j ji c. let never : false ≡ true = ap is_claimed (sym (empty_at i)) ∙ c in absurd (cc);
    listed = λ i. sym (ap active (empty_at i));
    counted = refl;
    distinct = tt;
  };
}

-- The calls on a manager, with their arguments.
pub data Call : Type 0 where
  registers : SpdmSessionToken → ℕ → Call
  validates : ClientId → ℕ → Option SessionKey → Call
  revokes : ClientId → Bool → Call
  sweeps : ℕ → Call

-- The identifiers of a call are arrays of eight bytes.
abbrev pub IsTyped : Call → Type 0
IsTyped (registers token now) = IsClientId token.client_id
IsTyped (validates x now out) = IsClientId x
IsTyped (revokes x is_anomaly) = IsClientId x
IsTyped (sweeps now) = Unit

abbrev pub AllTyped : List Call → Type 0
AllTyped [] = Unit
AllTyped (c ∷ cs) = IsTyped c × AllTyped cs

unfoldable pub step : TokenLifecycleManager → Call → TokenLifecycleManager
step m (registers token now) = (register_token m token now).1
step m (validates x now out) = (validate_token m x now out).manager
step m (revokes x is_anomaly) = (revoke_token m x is_anomaly).1
step m (sweeps now) = evaluate_token_expiry m now

unfoldable pub run : TokenLifecycleManager → List Call → TokenLifecycleManager
run m [] = m
run m (c ∷ cs) = run (step m c) cs

pub step-IsValid :
    (m : TokenLifecycleManager) (c : Call) → IsTyped c → IsValid m → IsValid (step m c)
unfolding step
step-IsValid m (registers token now) t v = register_token-IsValid token now t m v
step-IsValid m (validates x now out) t v = validate_token-IsValid m v x t now out
step-IsValid m (revokes x is_anomaly) t v = revoke_token-IsValid m v x t is_anomaly
step-IsValid m (sweeps now) t v = (evaluate_token_expiry_lem now m v).0

pub step-Keeps : (m : TokenLifecycleManager) (c : Call) → IsTyped c → IsValid m → Keeps m (step m c)
unfolding step
step-Keeps m (registers token now) t v =
    register_token-Slotwise SlotKept SlotKept-stable token now (SlotKept-AllowsToken token now) t m
      v
step-Keeps m (validates x now out) t v =
    validate_token-Slotwise SlotKept SlotKept-stable m v x now out t
step-Keeps m (revokes x is_anomaly) t v =
    revoke_token-Slotwise SlotKept SlotKept-stable m v x is_anomaly (SlotKept-AllowsCount x) t
step-Keeps m (sweeps now) t v = evaluate_token_expiry-Slotwise SlotKept SlotKept-stable m v now

pub run-IsValid :
    (m : TokenLifecycleManager) (cs : List Call) → AllTyped cs → IsValid m → IsValid (run m cs)
unfolding run
run-IsValid m [] t v = v
run-IsValid m (c ∷ cs) t v = run-IsValid (step m c) cs t.1 (step-IsValid m c t.0 v)

-- After any history of calls on a fresh manager the invariant holds: the order lists exactly the live
-- sessions, each once; a live or locked slot is the first one with its identifier; a slot without a
-- session holds no secret; a slot is locked out exactly if its counter has reached the threshold, and
-- then has no session.
pub run-construct-IsValid :
    (has_callback : Bool) (cs : List Call) → AllTyped cs → IsValid (run (construct has_callback) cs)
run-construct-IsValid has_callback cs t =
    run-IsValid (construct has_callback) cs t (construct-IsValid has_callback)

-- Lockout is for good: a client that is locked out of a valid manager is so after every history of
-- calls, its own attempts to register included.
pub run-is_locked_out :
    (m : TokenLifecycleManager) (cs : List Call)
    → AllTyped cs
    → IsValid m
    → (x : ClientId) → IsClientId x
    → is_locked_out m x ≡ true
    → is_locked_out (run m cs) x ≡ true
unfolding run
run-is_locked_out m [] t v x hx l = l
run-is_locked_out m (c ∷ cs) t v x hx l =
    let w = step-IsValid m c t.0 v in
    run-is_locked_out (step m c) cs t.1 w x hx
      (Keeps-is_locked_out m (step m c) v w (step-Keeps m c t.0 v) x hx l)

-- The number of live sessions is the number of indices in the eviction order.
pub get_active_session_count_lem :
    (m : TokenLifecycleManager) → IsValid m → get_active_session_count m ≡ m.insertion_order.count
unfolding get_active_session_count
get_active_session_count_lem m v =
    sym v.table.counted ∙ length-contents max_active_sessions m.insertion_order
