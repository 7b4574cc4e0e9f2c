-- ===== src/Tlm/Counter.antt =====
-- The anomaly counter of a slot: what raises it, and that nothing lowers it, a new client in the slot
-- included.
use zonal_zero_trust_auth.Base.{
  at_index, and_false, ℕ, suc, ◌+◌, ◌≤◌, ◌<◌, ◌≡◌, refl, sym, ap, ◌∙◌, List, [], ◌∷◌, Bool, true,
  false, ◌&&◌, bit, ltb, ◌==◌, ==_iff, if◌then◌else◌, arith, Bool-cases, Option-cases, inl, inr,
}
use zonal_zero_trust_auth.Platform.{ClientId, IsClientId}
use zonal_zero_trust_auth.Engine.{SpdmSessionToken}
use zonal_zero_trust_auth.Tlm.{
  TokenSlot, TokenLifecycleManager, max_active_sessions, max_anomaly_count, slot_at, count_anomaly,
  register_token, revoke_token, find_slot_by_client_id, is_locked_out,
}
use zonal_zero_trust_auth.Tlm.Invariant.{IsValid}
use zonal_zero_trust_auth.Tlm.Invariant.Find.{found, is_locked_out-some}
use zonal_zero_trust_auth.Tlm.Register.Stages.{order_of}
use zonal_zero_trust_auth.Tlm.Register.Outcome.{Holds, register_token-IsValid}
use zonal_zero_trust_auth.Tlm.Slotwise.{
  IsStable, AllowsToken, register_token-Slotwise, validate_token-Slotwise,
  evaluate_token_expiry-Slotwise,
}
use zonal_zero_trust_auth.Tlm.Sessions.Valid.{
  revoke_token-none, revoke_token-IsValid, slot_at-revoke_token,
}
use zonal_zero_trust_auth.Tlm.Revoke.{find-revoke_token}
use zonal_zero_trust_auth.Tlm.History.{
  Call, registers, validates, revokes, sweeps, IsTyped, AllTyped, step, run, step-IsValid,
}

abbrev SameCount : TokenSlot → TokenSlot → Type 0
SameCount old new = new.anomaly_count ≡ old.anomaly_count

SameCount-stable : IsStable SameCount
SameCount-stable = record {
  same = λ s. refl;
  ended = λ s. refl;
  touched = λ s now live. refl;
  joined = λ s t u f g. g ∙ f;
}

SameCount-AllowsToken : (token : SpdmSessionToken) (now : ℕ) → AllowsToken SameCount token now
SameCount-AllowsToken token now s open_slot = refl

-- A counter of one byte that stops at 255.
abbrev pub saturate : ℕ → ℕ
saturate n = if ltb n 256 then n else 255

-- Is the call an anomaly of the client that is found at the slot?
abbrev pub is_hit : ℕ → TokenLifecycleManager → Call → Bool
is_hit i m (revokes x is_anomaly) = is_anomaly && at_index (find_slot_by_client_id m x) i
is_hit i m _ = false

-- The number of such calls in a history.
unfoldable pub hits : ℕ → TokenLifecycleManager → List Call → ℕ
hits i m [] = 0
hits i m (c ∷ cs) = bit (is_hit i m c) + hits i (step m c) cs

count-count_anomaly :
    (s : TokenSlot) (is_anomaly : Bool)
    → s.anomaly_count ≤ 255
    → (count_anomaly s is_anomaly).anomaly_count ≡ saturate (s.anomaly_count + bit is_anomaly)
unfolding count_anomaly
count-count_anomaly s true h = ground arith
count-count_anomaly s false h = ground arith

saturate_twice : (a b c : ℕ) → saturate (saturate (a + b) + c) ≡ saturate (a + (b + c))
saturate_twice a b c = ground arith

and_true : (b : Bool) → (b && true) ≡ b
and_true true = refl
and_true false = refl

module _ (m : TokenLifecycleManager) (v : IsValid m) (i : ℕ) (h : i < max_active_sessions) where
  unhit : saturate ((slot_at m i).anomaly_count + 0) ≡ (slot_at m i).anomaly_count
  unhit = let byte = (v.table.slots i).byte in ground arith

  revoke-count :
      (x : ClientId) (is_anomaly : Bool)
      → IsClientId x
      → (slot_at (revoke_token m x is_anomaly).1 i).anomaly_count
        ≡ saturate ((slot_at m i).anomaly_count + bit (is_hit i m (revokes x is_anomaly)))
  revoke-count x is_anomaly hx = elim (Option-cases (find_slot_by_client_id m x)) [
    | inl e ↦ rw (revoke_token-none m v x hx is_anomaly e, e, and_false is_anomaly) (sym unhit)
    | inr (k, e) ↦ elim (Bool-cases (k == i)) [
      | inl same ↦
          let at_k : k ≡ i = (==_iff k i).0 same in
          rw (slot_at-revoke_token m v x hx is_anomaly k e i, e, same, and_true is_anomaly)
            (ap (λ (j : ℕ). (count_anomaly (slot_at m j) is_anomaly).anomaly_count) at_k
              ∙ count-count_anomaly (slot_at m i) is_anomaly (v.table.slots i).byte)
      | inr other ↦
          rw (slot_at-revoke_token m v x hx is_anomaly k e i, e, other, and_false is_anomaly)
            (sym unhit)
    ]
  ]

  -- One call.
  step-count :
      (c : Call)
      → IsTyped c
      → (slot_at (step m c) i).anomaly_count
        ≡ saturate ((slot_at m i).anomaly_count + bit (is_hit i m c))
  unfolding step
  step-count (registers token now) t =
      register_token-Slotwise SameCount SameCount-stable token now (SameCount-AllowsToken token now)
        t m v i h
      ∙ sym unhit
  step-count (validates x now out) t =
      validate_token-Slotwise SameCount SameCount-stable m v x now out t i h ∙ sym unhit
  step-count (revokes x is_anomaly) t = revoke-count x is_anomaly t
  step-count (sweeps now) t =
      evaluate_token_expiry-Slotwise SameCount SameCount-stable m v now i h ∙ sym unhit

-- Over every history of calls on a valid manager, the anomaly counter of a slot rises by one with each
-- anomaly of the client that is found at it, up to 255, and no call ever lowers it: neither a successful
-- query nor a new client in the slot.
pub run-anomaly_count :
    (cs : List Call)
    → AllTyped cs
    → (m : TokenLifecycleManager) → IsValid m
    → (i : ℕ) → i < max_active_sessions
    → (slot_at (run m cs) i).anomaly_count ≡ saturate ((slot_at m i).anomaly_count + hits i m cs)
unfolding run hits
run-anomaly_count [] t m v i h = sym (unhit m v i h)
run-anomaly_count (c ∷ cs) t m v i h =
    run-anomaly_count cs t.1 (step m c) (step-IsValid m c t.0 v) i h
    ∙ ap (λ (n : ℕ). saturate (n + hits i (step m c) cs)) (step-count m v i h c t.0)
    ∙ saturate_twice (slot_at m i).anomaly_count (bit (is_hit i m c)) (hits i (step m c) cs)

-- A new client in a slot inherits the anomalies counted for the slot: after a registration that put its
-- token into a slot that had counted two or more, one anomaly locks the client out.
pub register_token-inherits :
    (m : TokenLifecycleManager)
    → IsValid m
    → (token : SpdmSessionToken) (now : ℕ) → IsClientId token.client_id
    → let n = (register_token m token now).1 in
      (h : Holds n token now)
      → max_anomaly_count ≤ suc (slot_at m h.idx).anomaly_count
      → is_locked_out (revoke_token n token.client_id true).1 token.client_id ≡ true
register_token-inherits m v token now id h enough =
    let n = (register_token m token now).1 in
    let w = register_token-IsValid token now id m v in
    let r = (revoke_token n token.client_id true).1 in
    let x = token.client_id in
    let (inside, _, _) = found n (order_of n) w.table x h.idx id h.at_idx in
    let kept =
      register_token-Slotwise SameCount SameCount-stable token now (SameCount-AllowsToken token now)
        id m v h.idx inside in
    let hit : is_hit h.idx n (revokes x true) ≡ true = rw h.at_idx (ground arith) in
    let counted =
      revoke-count n w h.idx inside x true id
      ∙ ap (λ (b : Bool). saturate ((slot_at n h.idx).anomaly_count + bit b)) hit in
    is_locked_out-some r x h.idx (find-revoke_token n w x id true h.idx h.at_idx)
    ∙ ((revoke_token-IsValid n w x id true).table.slots h.idx).threshold
    ∙ ground (arith, kept, counted, (w.table.slots h.idx).byte)
