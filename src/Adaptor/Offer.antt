-- ===== src/Adaptor/Offer.antt =====
-- `OnPeerOffered`: its four answers, each with its condition and what it leaves behind.
pub mod Full
use zonal_zero_trust_auth.Base.{
  ℕ, ◌≡◌, ◌≢◌, ◌⊎◌, refl, sym, ap, ◌∙◌, true, false, List, Option, none, some, arith, Bool-cases,
  Option-cases, inl, inr,
}
use mathlib.Core.Path.{subst}
use zonal_zero_trust_auth.Platform.{ClientId, CryptoPlatform}
use zonal_zero_trust_auth.ConstantTime.{is_zero}
use zonal_zero_trust_auth.Engine.{KnownPeerEntry}
use zonal_zero_trust_auth.Tlm
use zonal_zero_trust_auth.Adaptor.{
  AdaptorStatus, Adaptor, engine_at, find_slot, find_free_engine_slot, on_peer_offered,
}
use zonal_zero_trust_auth.Adaptor.Valid.{IsValid}
use zonal_zero_trust_auth.Adaptor.Events.{offers, step}
use zonal_zero_trust_auth.Adaptor.Pool.{record_at}
use zonal_zero_trust_auth.Adaptor.Pool.Bindings.{step_isolated, IsOwn}
use zonal_zero_trust_auth.Adaptor.Login.Offer.{HasSlot, Offered, on_peer_offered-Offered}

module _ (p : CryptoPlatform) where
  -- The client is bound to the slot, whose engine is reset, and no other engine or binding is touched.
  abbrev pub Placed : Adaptor p → ClientId → ℕ → Adaptor p → Type 0
  Placed a x i b =
      Offered p a b x i
      × ((j : ℕ)
          → i ≢ j
          → (engine_at p b j ≡ engine_at p a j) × (record_at p b j ≡ record_at p a j))

  -- The four answers to an offer.
  abbrev pub Answered : Adaptor p → ClientId → AdaptorStatus × Adaptor p → Type 0
  Answered a x out =
      (is_zero x ≡ true) × (out ≡ (AdaptorStatus.invalid_param, a))
      ⊎ (is_zero x ≡ false)
        × (Tlm.is_locked_out a.tlm x ≡ true)
        × (out ≡ (AdaptorStatus.locked_out, a))
      ⊎ (is_zero x ≡ false)
        × (Tlm.is_locked_out a.tlm x ≡ false)
        × (find_slot p a x ≡ none)
        × (find_free_engine_slot p a ≡ none)
        × (out ≡ (AdaptorStatus.slot_exhausted, a))
      ⊎ (is_zero x ≡ false)
        × (Tlm.is_locked_out a.tlm x ≡ false)
        × (out.0 ≡ AdaptorStatus.ok)
        × ((i : ℕ) × HasSlot p a x i × Placed a x i out.1)

module _ (p : CryptoPlatform) (table : Option (List KnownPeerEntry)) (count : ℕ) (a : Adaptor p)
    (v : IsValid p table count a) (x : ClientId) where
  offer_isolated :
      (i j : ℕ)
      → find_slot p (on_peer_offered p a x).1 x ≡ some i
      → i ≢ j
      → let b = (on_peer_offered p a x).1 in
        (engine_at p b j ≡ engine_at p a j) × (record_at p b j ≡ record_at p a j)
  unfolding step
  offer_isolated i j at ij = step_isolated p a (offers x) j foreign
    where
      foreign : ¬ IsOwn p a (offers x) j
      foreign (z, q, at_z) =
          let same : x ≡ z = cc in
          let home : find_slot p (on_peer_offered p a x).1 x ≡ some j =
            ap (find_slot p (on_peer_offered p a x).1) same ∙ at_z in
          ij (cc)

  offer-Placed :
      is_zero x ≡ false
      → Tlm.is_locked_out a.tlm x ≡ false
      → (i : ℕ) → HasSlot p a x i
      → Answered p a x (on_peer_offered p a x)
  offer-Placed nz o i has =
      let (answer, done) = on_peer_offered-Offered p table count a v x nz o i has in
      inr (inr (inr (nz, o, answer, (i, has, (done, λ j. offer_isolated i j done.bound)))))

  -- On a valid adaptor `OnPeerOffered` gives exactly these answers: kInvalidParam to the all-zero
  -- identifier, kLockedOut to a client that is locked out, and kSlotExhausted to one without a slot
  -- when no slot is free, all three with nothing changed; and otherwise kOk, with the client bound to
  -- its slot, its own or the first free one, the engine there reset, and the other engines, the other
  -- bindings, the sessions, the platform and the frames sent untouched.
  pub on_peer_offered_lem : Answered p a x (on_peer_offered p a x)
  unfolding on_peer_offered
  on_peer_offered_lem = elim (Bool-cases (is_zero x)) [
    | inl z ↦ rw z (inl (refl, refl))
    | inr nz ↦ elim (Bool-cases (Tlm.is_locked_out a.tlm x)) [
      | inl l ↦ rw (nz, l) (inr (inl (refl, refl, refl)))
      | inr o ↦ elim (Option-cases (find_slot p a x)) [
        | inr (i, e) ↦ offer-Placed nz o i (inl e)
        | inl e ↦ elim (Option-cases (find_free_engine_slot p a)) [
          | inr (i, f) ↦ offer-Placed nz o i (inr (e, f))
          | inl f ↦ inr (inr (inl (nz, o, e, f, rw (nz, o, e, f, on_peer_offered) refl)))
        ]
      ]
    ]
  ]
