-- ===== src/Adaptor/Interleaved/Open.antt =====
-- A client is barred exactly if one of the slots that hold its identifier is.
use mathlib.Core.Path.{subst}
use zonal_zero_trust_auth.Base.{
  ℕ, ◌<◌, ◌≡◌, ◌≢◌, sym, ◌∙◌, false, some, arith, Bool-cases, Option-cases, inl, inr,
}
use zonal_zero_trust_auth.Platform.{ClientId, IsClientId}
use zonal_zero_trust_auth.Engine.{SpdmSessionToken}
use zonal_zero_trust_auth.Tlm
use zonal_zero_trust_auth.Tlm.{
  TokenSlot, TokenLifecycleManager, max_active_sessions, slot_at, is_locked_out, count_anomaly,
  find_slot_by_client_id,
}
use zonal_zero_trust_auth.Tlm.Invariant
use zonal_zero_trust_auth.Tlm.Invariant.{count_anomaly_frame}
use zonal_zero_trust_auth.Tlm.Invariant.Find.{
  found, find_claimed, is_locked_out-some, is_locked_out-none,
}
use zonal_zero_trust_auth.Tlm.Register.Stages.{order_of}
use zonal_zero_trust_auth.Tlm.Slotwise.{IsStable, AllowsToken, AllowsCount}

-- The slots that hold the identifier are not barred.
abbrev pub IsOpen : ClientId → TokenSlot → Type 0
IsOpen y s = s.client_id ≡ y → s.is_locked_out ≡ false

abbrev pub StaysOpen : ClientId → TokenSlot → TokenSlot → Type 0
StaysOpen y old new = IsOpen y old → IsOpen y new

pub StaysOpen-stable : (y : ClientId) → IsStable (StaysOpen y)
StaysOpen-stable y = record {
  same = λ s f. f;
  ended = λ s f. f;
  touched = λ s now live f. f;
  joined = λ s t u f g h. g (f h);
}

pub StaysOpen-AllowsToken :
    (y : ClientId) (token : SpdmSessionToken) (now : ℕ)
    → token.client_id ≢ y
    → AllowsToken (StaysOpen y) token now
StaysOpen-AllowsToken y token now ne s open_slot f q = absurd (ne q)

pub StaysOpen-AllowsCount : (y x : ClientId) → x ≢ y → AllowsCount (StaysOpen y) x
StaysOpen-AllowsCount y x ne s is_anomaly own f q =
    absurd (ne (sym own ∙ sym ((count_anomaly_frame s is_anomaly).0) ∙ q))

-- A client that is not locked out has no barred slot, and the other way round.
module _ (m : TokenLifecycleManager) (v : Tlm.Invariant.IsValid m) (y : ClientId)
    (hy : IsClientId y) where
  pub IsOpen-slots :
      is_locked_out m y ≡ false → (i : ℕ) → i < max_active_sessions → IsOpen y (slot_at m i)
  IsOpen-slots o i h q = elim (Bool-cases (slot_at m i).is_locked_out) [
    | inr f ↦ f
    | inl l ↦
        let at : find_slot_by_client_id m y ≡ some i =
          subst (λ (x : ClientId). find_slot_by_client_id m x ≡ some i) q
            (find_claimed m (order_of m) v.table i h (ground arith)) in
        absurd (ground (arith, is_locked_out-some m y i at))
  ]

  pub not_barred :
      ((i : ℕ) → i < max_active_sessions → IsOpen y (slot_at m i)) → is_locked_out m y ≡ false
  not_barred all = elim (Option-cases (find_slot_by_client_id m y)) [
    | inl e ↦ is_locked_out-none m y e
    | inr (i, e) ↦
        let (h, own, _) = found m (order_of m) v.table y i hy e in
        is_locked_out-some m y i e ∙ all i h own
  ]
