-- ===== src/Tlm/Lockout.antt =====
-- Lockout: no operation lifts it, for whichever client it bars.
use mathlib.Core.Path.{subst}
use zonal_zero_trust_auth.Base.{ℕ, ◌≡◌, refl, sym, ◌∙◌, true, some, arith, Option-cases, inl, inr}
use zonal_zero_trust_auth.Platform.{ClientId, IsClientId}
use zonal_zero_trust_auth.Engine.{SpdmSessionToken}
use zonal_zero_trust_auth.Tlm.{
  TokenSlot, TokenLifecycleManager, count_anomaly, find_slot_by_client_id, is_locked_out,
}
use zonal_zero_trust_auth.Tlm.Invariant.{IsValid}
use zonal_zero_trust_auth.Tlm.Invariant.Find.{
  found, find_claimed, is_locked_out-some, is_locked_out-none,
}
use zonal_zero_trust_auth.Tlm.Register.Stages.{order_of}
use zonal_zero_trust_auth.Tlm.Slotwise.{IsStable, AllowsToken, AllowsCount, Slotwise}

-- A slot that is barred stays so, for the same client.
abbrev pub SlotKept : TokenSlot → TokenSlot → Type 0
SlotKept old new =
    old.is_locked_out ≡ true → (new.is_locked_out ≡ true) × (new.client_id ≡ old.client_id)

pub SlotKept-AllowsCount : (x : ClientId) → AllowsCount SlotKept x
unfolding count_anomaly
SlotKept-AllowsCount x slot is_anomaly own l = ground arith

pub SlotKept-stable : IsStable SlotKept
SlotKept-stable = record {
  same = λ s l. (l, refl);
  ended = λ s l. (l, refl);
  touched = λ s now a l. (l, refl);
  joined = λ s t u f g l. let (l1, e1) = f l in let (l2, e2) = g l1 in (l2, e2 ∙ e1);
}

pub SlotKept-AllowsToken : (token : SpdmSessionToken) (now : ℕ) → AllowsToken SlotKept token now
SlotKept-AllowsToken token now s f l = absurd (cc)

abbrev pub Keeps : TokenLifecycleManager → TokenLifecycleManager → Type 0
Keeps = Slotwise SlotKept SlotKept-stable

-- Between valid managers, keeping the barred slots keeps every client barred.
pub Keeps-is_locked_out :
    (m n : TokenLifecycleManager)
    → IsValid m
    → IsValid n
    → Keeps m n
    → (x : ClientId) → IsClientId x
    → is_locked_out m x ≡ true
    → is_locked_out n x ≡ true
Keeps-is_locked_out m n v w keeps x hx l = elim (Option-cases (find_slot_by_client_id m x)) [
  | inl e ↦ absurd (ground (arith, is_locked_out-none m x e))
  | inr (i, e) ↦
      let (h, id, _) = found m (order_of m) v.table x i hx e in
      let (l', id') = keeps i h (sym (is_locked_out-some m x i e) ∙ l) in
      let at_i : find_slot_by_client_id n x ≡ some i =
        subst (λ (y : ClientId). find_slot_by_client_id n y ≡ some i) (id' ∙ id)
          (find_claimed n (order_of n) w.table i h (ground arith)) in
      is_locked_out-some n x i at_i ∙ l'
]
