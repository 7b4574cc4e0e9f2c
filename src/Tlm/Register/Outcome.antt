-- ===== src/Tlm/Register/Outcome.antt =====
-- What a call of `RegisterToken` does: the invariant, the token held, and when the table is full.
use mathlib.Core.Path.{subst}
use zonal_zero_trust_auth.Base.{
  ℕ, ◌<◌, ◌≡◌, ◌⊎◌, refl, sym, ap, ◌∙◌, true, false, ◌==◌, if◌then◌else◌, arith, Bool-cases, inl,
  inr, ==_iff,
}
use zonal_zero_trust_auth.Platform.{IsClientId}
use zonal_zero_trust_auth.ConstantTime.{is_zero}
use zonal_zero_trust_auth.Engine.{SpdmSessionToken}
use zonal_zero_trust_auth.Tlm.{
  TlmStatus, TokenSlot, TokenLifecycleManager, max_active_sessions, slot_at, place, register_token,
  expire_existing, is_locked_out,
}
use zonal_zero_trust_auth.Tlm.Slots.{ended_slot}
use zonal_zero_trust_auth.Tlm.Invariant.{IsValid}
use zonal_zero_trust_auth.Tlm.Invariant.Find.{found}
use zonal_zero_trust_auth.Tlm.Register.Stages.{
  order_of, in_table, expire_existing_cases, expire_existing-IsValid, expire_existing-Unclaimed,
  slot_at-end_session,
}
pub use zonal_zero_trust_auth.Tlm.Register.Place.{Holds, Admission, place_cases}
use zonal_zero_trust_auth.Tlm.Register.Place.{AllLocked, Placed, place-Placed}

module _ (token : SpdmSessionToken) (now : ℕ) (id : IsClientId token.client_id) where
  -- The four results of `RegisterToken`, each with its condition on the state before the call.
  abbrev pub Registered : TokenLifecycleManager → TlmStatus × TokenLifecycleManager → Type 0
  Registered m out =
      (is_zero token.client_id ≡ true) × (out ≡ (TlmStatus.invalid_param, m))
      ⊎ (is_zero token.client_id ≡ false)
        × (is_locked_out m token.client_id ≡ true)
        × (out ≡ (TlmStatus.locked_out, m))
      ⊎ (is_zero token.client_id ≡ false)
        × (is_locked_out m token.client_id ≡ false)
        × AllLocked token now id m
        × (out ≡ (TlmStatus.table_full, m))
      ⊎ (is_zero token.client_id ≡ false)
        × (is_locked_out m token.client_id ≡ false)
        × ((i : ℕ) × (i < max_active_sessions) × ((slot_at m i).is_locked_out ≡ false))
        × (out.0 ≡ TlmStatus.ok)
        × Admission out.1 token now

  module _ (m : TokenLifecycleManager) (v : IsValid m)
      (open_id : is_locked_out m token.client_id ≡ false) where
    -- The refresh path changes no lockout flag, and changes nothing if every slot is barred.
    pub locked-expire_existing :
        (j : ℕ)
        → (slot_at (expire_existing m token.client_id) j).is_locked_out
          ≡ (slot_at m j).is_locked_out
    locked-expire_existing j =
        expire_existing_cases m v token.client_id id open_id
          (λ c. (slot_at c j).is_locked_out ≡ (slot_at m j).is_locked_out) (λ e. refl)
          (λ i e a. refl)
          (λ i e a.
            let (h, _, _) = found m (order_of m) v.table token.client_id i id e in
            ap (λ (s : TokenSlot). s.is_locked_out)
              (slot_at-end_session m i token.client_id j (in_table m v i h))
            ∙ kept i)
      where
        kept :
            (i : ℕ)
            → (if i == j then ended_slot (slot_at m i) else slot_at m j).is_locked_out
              ≡ (slot_at m j).is_locked_out
        kept i = elim (Bool-cases (i == j)) [
          | inl e ↦ rw e (ap (λ (n : ℕ). (slot_at m n).is_locked_out) ((==_iff i j).0 e))
          | inr n ↦ rw n
        ]

    expire_existing-eq : AllLocked token now id m → expire_existing m token.client_id ≡ m
    expire_existing-eq all =
        expire_existing_cases m v token.client_id id open_id (λ c. c ≡ m) (λ e. refl)
          (λ i e a. refl)
          (λ i e a.
            let (h, _, _) = found m (order_of m) v.table token.client_id i id e in
            let idle = (v.table.slots i).idle (all i h) in absurd (ground arith))

    Placed-Registered :
        is_zero token.client_id ≡ false
        → Placed token now id
            (expire_existing m token.client_id)
            (place (expire_existing m token.client_id) token now)
        → Registered m (place (expire_existing m token.client_id) token now)
    Placed-Registered nz (inl (ok, admission, (i, h, open_slot))) =
        inr (
          inr
            (inr (nz, open_id, (i, h, sym (locked-expire_existing i) ∙ open_slot), ok, admission)))
    Placed-Registered nz (inr (full, all)) =
        let barred : AllLocked token now id m = λ j h. sym (locked-expire_existing j) ∙ all j h in
        inr (
          inr (
            inl (
              nz,
              open_id,
              barred,
              full
                  ∙ ap (λ (c : TokenLifecycleManager). (TlmStatus.table_full, c))
                      (expire_existing-eq barred),
            )))

  module _ (m : TokenLifecycleManager) where
    pub register_zero :
        is_zero token.client_id ≡ true → register_token m token now ≡ (TlmStatus.invalid_param, m)
    unfolding register_token
    register_zero z = rw z

    pub register_barred :
        is_zero token.client_id ≡ false
        → is_locked_out m token.client_id ≡ true
        → register_token m token now ≡ (TlmStatus.locked_out, m)
    unfolding register_token
    register_barred z l = rw (z, l)

    pub register_placed :
        is_zero token.client_id ≡ false
        → is_locked_out m token.client_id ≡ false
        → register_token m token now ≡ place (expire_existing m token.client_id) token now
    unfolding register_token
    register_placed z l = rw (z, l)

  -- A call of `RegisterToken` on a valid manager ends in exactly one of four ways, by the state before
  -- it: an all-zero identifier is rejected and a client that is locked out is barred, both with nothing
  -- changed; otherwise the table is full, with nothing changed, if every slot is locked out; and
  -- otherwise the call succeeds, the manager stays valid and holds the token as a live session.
  pub register_token_lem :
      (m : TokenLifecycleManager) → IsValid m → Registered m (register_token m token now)
  register_token_lem m v = elim (Bool-cases (is_zero token.client_id)) [
    | inl z ↦ inl (z, register_zero m z)
    | inr nz ↦ elim (Bool-cases (is_locked_out m token.client_id)) [
      | inl l ↦ inr (inl (nz, l, register_barred m nz l))
      | inr o ↦ subst (Registered m) (sym (register_placed m nz o)) (
          Placed-Registered m v o nz (
            place-Placed token now id (expire_existing m token.client_id)
              (expire_existing-IsValid m v token.client_id id o)
              (expire_existing-Unclaimed m v token.client_id id o)))
    ]
  ]

  -- A call keeps the invariant.
  pub register_token-IsValid :
      (m : TokenLifecycleManager) → IsValid m → IsValid (register_token m token now).1
  register_token-IsValid m v = elim (register_token_lem m v) [
    | inl (z, e) ↦ rw e v
    | inr (inl (z, l, e)) ↦ rw e v
    | inr (inr (inl (z, l, all, e))) ↦ rw e v
    | inr (inr (inr (z, l, i, ok, a))) ↦ a.valid
  ]
