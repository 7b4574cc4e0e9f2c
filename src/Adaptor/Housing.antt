-- ===== src/Adaptor/Housing.antt =====
-- Every client of the session table has a slot in the pool of engines.
pub mod History
pub mod Room
use mathlib.Core.Path.{subst}
use zonal_zero_trust_auth.Base.{
  ℕ, zero, suc, ◌<◌, ◌≡◌, ◌≢◌, ◌⊎◌, refl, sym, ap, ◌∙◌, List, [], ◌∷◌, Bool, true, false, Option,
  none, some, get_or, set, get_or-set_self, get_or-set_ne, ◌==◌, ==_iff, if◌then◌else◌, arith,
  Bool-cases, Option-cases, inl, inr, find_index-some, pigeonhole, get_or-replicate,
}
use zonal_zero_trust_auth.Platform.{ClientId, IsClientId, CryptoPlatform, zeros, client_id_len}
use zonal_zero_trust_auth.ConstantTime.{is_zero, is_zero_iff, same_bytes, same_bytes_iff}
use zonal_zero_trust_auth.Engine.{KnownPeerEntry, SpdmSessionToken}
use zonal_zero_trust_auth.Tlm
use zonal_zero_trust_auth.Tlm.{
  TokenSlot, TokenLifecycleManager, max_active_sessions, slot_at, expire_existing, is_locked_out,
  find_free_slot, count_anomaly,
}
use zonal_zero_trust_auth.Tlm.Slots.{ended_slot}
use zonal_zero_trust_auth.Tlm.Invariant
use zonal_zero_trust_auth.Tlm.Invariant.{is_claimed, count_anomaly_frame}
use zonal_zero_trust_auth.Tlm.Invariant.Find.{free_missing, free_found}
use zonal_zero_trust_auth.Tlm.Register.Stages.{
  order_of, expire_existing-IsValid, expire_existing-Unclaimed,
}
use zonal_zero_trust_auth.Tlm.Register.Outcome.{locked-expire_existing}
use zonal_zero_trust_auth.Tlm.Slotwise.{
  IsStable, AllowsToken, AllowsCount, Slotwise, Slotwise-refl, expire_existing-Slotwise,
  register_token-Slotwise, validate_token-Slotwise, revoke_token-Slotwise,
  evaluate_token_expiry-Slotwise,
}
use zonal_zero_trust_auth.Adaptor.{
  Adaptor, max_zone_slots, empty_record, is_bound, find_slot, construct,
}
use zonal_zero_trust_auth.Adaptor.Valid.{IsValid}
use zonal_zero_trust_auth.Adaptor.Events.{Event, revokes, IsTyped, AllTyped, step, run}
use zonal_zero_trust_auth.Adaptor.Hooks.{step-IsValid, slot_bound}
use zonal_zero_trust_auth.Adaptor.Pool.{record_at, Reaches, Binds}
use zonal_zero_trust_auth.Adaptor.Pool.Bindings.{step-Reaches, step-find_slot}
use zonal_zero_trust_auth.Adaptor.Calls.{IsHoused, step_cases}

-- No revocation names the all-zero identifier, which is that of a slot never used.
abbrev pub IsNamed : Event → Type 0
IsNamed (revokes x is_anomaly) = is_zero x ≡ false
IsNamed _ = Unit

abbrev pub AllNamed : List Event → Type 0
AllNamed [] = Unit
AllNamed (e ∷ es) = IsNamed e × AllNamed es

module _ (p : CryptoPlatform) where
  -- A slot of the session table that was never used, or whose client has a slot in the pool.
  abbrev pub Housed : Adaptor p → TokenSlot → Type 0
  Housed a s = (is_claimed s ≡ false) × (is_zero s.client_id ≡ true) ⊎ IsHoused p a s.client_id

  abbrev pub StaysHoused : Adaptor p → TokenSlot → TokenSlot → Type 0
  StaysHoused a old new = Housed a old → Housed a new

  ended-Housed : (a : Adaptor p) (s : TokenSlot) → StaysHoused a s (ended_slot s)
  ended-Housed a s (inl (free, z)) = inl (ground arith, z)
  ended-Housed a s (inr h) = inr h

  touched-Housed :
      (a : Adaptor p) (s : TokenSlot) (now : ℕ) → StaysHoused a s (record s { last_seen_ms = now })
  touched-Housed a s now (inl (free, z)) = inl (free, z)
  touched-Housed a s now (inr h) = inr h

  pub StaysHoused-stable : (a : Adaptor p) → IsStable (StaysHoused a)
  StaysHoused-stable a = record {
    same = λ s h. h;
    ended = ended-Housed a;
    touched = λ s now live. touched-Housed a s now;
    joined = λ s t u f g h. g (f h);
  }

  pub StaysHoused-AllowsToken :
      (a : Adaptor p) (token : SpdmSessionToken) (now : ℕ)
      → IsHoused p a token.client_id
      → AllowsToken (StaysHoused a) token now
  StaysHoused-AllowsToken a token now h s open_slot old = inr h

  counted-Housed :
      (a : Adaptor p) (s : TokenSlot) (is_anomaly : Bool)
      → is_zero s.client_id ≡ false
      → StaysHoused a s (ended_slot (count_anomaly s is_anomaly))
  counted-Housed a s is_anomaly nz (inl (free, z)) = absurd (cc)
  counted-Housed a s is_anomaly nz (inr h) =
      inr (subst (IsHoused p a) (sym ((count_anomaly_frame s is_anomaly).0)) h)

  pub StaysHoused-AllowsCount :
      (a : Adaptor p) (x : ClientId) → is_zero x ≡ false → AllowsCount (StaysHoused a) x
  StaysHoused-AllowsCount a x nz s is_anomaly own =
      counted-Housed a s is_anomaly (ap is_zero own ∙ nz)

  pub StaysHoused-AllowsCount_home :
      (a : Adaptor p) (x : ClientId) → IsHoused p a x → AllowsCount (StaysHoused a) x
  StaysHoused-AllowsCount_home a x home s is_anomaly own old =
      inr (subst (IsHoused p a) (sym ((count_anomaly_frame s is_anomaly).0 ∙ own)) home)

  -- The clients of the session table have slots in the pool, whose records hold identifiers, and none
  -- is bound to the all-zero one.
  pub record IsCovered (a : Adaptor p) : Type 0 where
    pub names : (k : ℕ) → IsClientId (record_at p a k).client_id
    pub nonzero :
        (k : ℕ) → (record_at p a k).is_occupied ≡ true → is_zero (record_at p a k).client_id ≡ false
    pub housed : (i : ℕ) → i < max_active_sessions → Housed a (slot_at a.tlm i)

  -- Two clients at one slot of the pool are one.
  pub same_house :
      (a : Adaptor p) (x y : ClientId) (k : ℕ)
      → IsCovered a
      → IsClientId x
      → IsClientId y
      → find_slot p a x ≡ some k
      → find_slot p a y ≡ some k
      → x ≡ y
  unfolding find_slot
  same_house a x y k c hx hy ex ey =
      let (_, bx) = find_index-some (is_bound x) empty_record a.slot_records k ex in
      let (_, by) = find_index-some (is_bound y) empty_record a.slot_records k ey in
      let name = (record_at p a k).client_id in
      (same_bytes_iff client_id_len x name hx (c.names k)).0 (ground arith)
      ∙ sym ((same_bytes_iff client_id_len y name hy (c.names k)).0 (ground arith))

  -- A client with a slot in the pool does not have the all-zero identifier.
  pub IsHoused-nonzero :
      (a : Adaptor p) (x : ClientId)
      → IsCovered a
      → IsClientId x
      → IsHoused p a x
      → is_zero x ≡ false
  unfolding find_slot
  IsHoused-nonzero a x c hx (k, e) =
      let (_, b) = find_index-some (is_bound x) empty_record a.slot_records k e in
      let name = (record_at p a k).client_id in
      let same : x ≡ name = (same_bytes_iff client_id_len x name hx (c.names k)).0 (ground arith) in
      ap is_zero same ∙ c.nonzero k (ground arith)

  -- The slot of a client in the pool.
  pub house : Adaptor p → ClientId → ℕ
  house a x = elim (find_slot p a x) [ none ↦ 0 | some i ↦ i ]

  pub house_lem :
      (a : Adaptor p) (x : ClientId) → IsHoused p a x → find_slot p a x ≡ some (house a x)
  unfolding house
  house_lem a x (i, e) = rw (e, house) refl
