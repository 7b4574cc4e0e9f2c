-- ===== src/Adaptor/Housing/History.antt =====
-- Every hook call keeps the clients of the session table housed.
use mathlib.Core.Path.{subst}
use zonal_zero_trust_auth.Base.{
  ℕ, ◌≡◌, refl, sym, ap, ◌∙◌, List, [], ◌∷◌, Bool, true, false, Option, get_or, set,
  get_or-set_self, get_or-set_ne, ◌==◌, ==_iff, arith, Bool-cases, inl, inr, find_index-some,
  get_or-replicate,
}
use zonal_zero_trust_auth.Platform.{ClientId, IsClientId, CryptoPlatform}
use zonal_zero_trust_auth.ConstantTime.{is_zero, or_bytes}
use zonal_zero_trust_auth.Engine.{KnownPeerEntry}
use zonal_zero_trust_auth.Tlm
use zonal_zero_trust_auth.Tlm.{TokenLifecycleManager, empty_slot, max_active_sessions, slot_at}
use zonal_zero_trust_auth.Tlm.Slotwise.{
  Slotwise, Slotwise-refl, register_token-Slotwise, validate_token-Slotwise, revoke_token-Slotwise,
  evaluate_token_expiry-Slotwise,
}
use zonal_zero_trust_auth.Adaptor.{
  ZoneSlotRecord, Adaptor, max_zone_slots, empty_record, is_unoccupied, on_peer_offered,
  find_free_engine_slot, construct,
}
use zonal_zero_trust_auth.Adaptor.Valid.{IsValid}
use zonal_zero_trust_auth.Adaptor.Events.{Event, offers, IsTyped, AllTyped, step, run}
use zonal_zero_trust_auth.Adaptor.Hooks.{step-IsValid}
use zonal_zero_trust_auth.Adaptor.Pool.{record_at, Binds}
use zonal_zero_trust_auth.Adaptor.Pool.Bindings.{step-Reaches, step-find_slot}
use zonal_zero_trust_auth.Adaptor.Calls.{IsHoused, step_cases}
use zonal_zero_trust_auth.Adaptor.Housing.{
  IsNamed, AllNamed, Housed, StaysHoused, StaysHoused-stable, StaysHoused-AllowsToken,
  StaysHoused-AllowsCount, StaysHoused-AllowsCount_home, IsCovered,
}

module _ (p : CryptoPlatform) where
  -- What every record of the pool has, and what every new binding to a client brings, they have after
  -- each event.
  module _ (Q : ZoneSlotRecord → Type 0) where
    Binds-records :
        (a b : Adaptor p) (x : ClientId)
        → Q (record { client_id = x; is_occupied = true })
        → ((k : ℕ) → Q (record_at p a k))
        → Binds p a b x
        → (k : ℕ) → Q (record_at p b k)
    unfolding find_free_engine_slot
    Binds-records a b x qx old (i, absent, free, records, others) k =
        let new : ZoneSlotRecord = record { client_id = x; is_occupied = true } in
        let room = (find_index-some is_unoccupied empty_record a.slot_records i free).0 in
        subst (λ (l : List ZoneSlotRecord). Q (get_or l k empty_record)) (sym records)
          (elim (Bool-cases (i == k)) [
            | inl same ↦
                subst (λ (j : ℕ). Q (get_or (set a.slot_records i new) j empty_record))
                  ((==_iff i k).0 same)
                  (subst Q (sym (get_or-set_self a.slot_records i new empty_record room)) qx)
            | inr other ↦
                subst Q
                  (sym (
                    get_or-set_ne a.slot_records i k new empty_record
                      (λ q. ground (arith, ==_iff i k))))
                  (old k)
          ])

    offer-zero : (a : Adaptor p) (x : ClientId) → is_zero x ≡ true → step p a (offers x) ≡ a
    unfolding step on_peer_offered
    offer-zero a x z = rw (z, step, on_peer_offered) refl

    step-records :
        ((x : ClientId)
          → IsClientId x
          → is_zero x ≡ false
          → Q (record { client_id = x; is_occupied = true }))
        → (a : Adaptor p) (e : Event) → IsTyped e
        → ((k : ℕ) → Q (record_at p a k))
        → (k : ℕ) → Q (record_at p (step p a e) k)
    step-records new a e t old k = elim (step-Reaches p a e) [
      | inl r ↦ subst (λ (l : List ZoneSlotRecord). Q (get_or l k empty_record)) (sym (r.0)) (old k)
      | inr (x, q, b) ↦ elim (Bool-cases (is_zero x)) [
        | inl z ↦
            subst (λ (c : Adaptor p). Q (record_at p c k))
              (sym (ap (step p a) q ∙ offer-zero a x z)) (old k)
        | inr nz ↦ Binds-records a (step p a e) x (new x (subst IsTyped q t) nz) old b k
      ]
    ]

  -- A record that is not bound to the all-zero identifier.
  abbrev NonZero : ZoneSlotRecord → Type 0
  NonZero slot = slot.is_occupied ≡ true → is_zero slot.client_id ≡ false

  -- Bindings are for ever, so a client that is housed stays so.
  step-IsHoused :
      (a : Adaptor p) (e : Event) (x : ClientId)
      → IsTyped e
      → IsClientId x
      → IsHoused p a x
      → IsHoused p (step p a e) x
  step-IsHoused a e x t hx (i, at) = (i, step-find_slot p a e x i t hx at)

module _ (p : CryptoPlatform) (table : Option (List KnownPeerEntry)) (count : ℕ) where
  -- Every call of the manager keeps housed slots housed, if it names a client.
  step-Slotwise :
      (a : Adaptor p) (e : Event)
      → IsTyped e
      → IsNamed e
      → IsValid p table count a
      → IsCovered p a
      → Slotwise (StaysHoused p a) (StaysHoused-stable p a) a.tlm (step p a e).tlm
  step-Slotwise a e t named v c =
      let R = StaysHoused p a in
      let stable = StaysHoused-stable p a in
      step_cases p table count (Slotwise R stable a.tlm) a e t v (Slotwise-refl R stable a.tlm)
        (λ token now id q home.
          register_token-Slotwise R stable token now (StaysHoused-AllowsToken p a token now home) id
            a.tlm v.manager)
        (λ x hx q home.
          revoke_token-Slotwise R stable a.tlm v.manager x true
            (StaysHoused-AllowsCount_home p a x home) hx)
        (λ x is_anomaly hx q.
          revoke_token-Slotwise R stable a.tlm v.manager x is_anomaly
            (StaysHoused-AllowsCount p a x (subst IsNamed q named)) hx)
        (λ now q. evaluate_token_expiry-Slotwise R stable a.tlm v.manager now)
        (λ x now out hx q. validate_token-Slotwise R stable a.tlm v.manager x now out hx)

  pub step-IsCovered :
      (a : Adaptor p) (e : Event)
      → IsTyped e
      → IsNamed e
      → IsValid p table count a
      → IsCovered p a
      → IsCovered p (step p a e)
  step-IsCovered a e t named v c =
      let w = step-IsValid p table count a e t v in
      record {
        names = step-records p (λ slot. IsClientId slot.client_id) (λ x hx nz. hx) a e t c.names;
        nonzero = step-records p (NonZero p) (λ x hx nz bound. nz) a e t c.nonzero;
        housed = λ i h. elim (step-Slotwise a e t named v c i h (c.housed i h)) [
          | inl new ↦ inl new
          | inr home ↦ inr (
              step-IsHoused p a e (slot_at (step p a e).tlm i).client_id t
                (w.manager.table.slots i).id home)
        ];
      }

  pub run-IsCovered :
      (es : List Event)
      → AllTyped es
      → AllNamed es
      → (a : Adaptor p) → IsValid p table count a
      → IsCovered p a
      → IsCovered p (run p a es)
  unfolding run
  run-IsCovered [] t named a v c = c
  run-IsCovered (e ∷ es) t named a v c =
      run-IsCovered es t.1 named.1 (step p a e) (step-IsValid p table count a e t.0 v)
        (step-IsCovered a e t.0 named.0 v c)

  empty_table :
      (a : Adaptor p) (has_callback : Bool) (i : ℕ)
      → Housed p a (slot_at (Tlm.construct has_callback) i)
  unfolding Tlm.construct is_zero or_bytes
  empty_table a has_callback i =
      subst (Housed p a) (sym (get_or-replicate max_active_sessions i empty_slot))
        (inl (refl, refl))

  -- An adaptor starts with no client in its table.
  pub construct-IsCovered :
      (platform : p.State) (has_transmit has_callback : Bool)
      → IsCovered p (construct p platform table count has_transmit has_callback)
  unfolding construct
  construct-IsCovered platform has_transmit has_callback = record {
    names = λ k. rw (get_or-replicate max_zone_slots k empty_record) (omega arith);
    nonzero = λ k. rw (get_or-replicate max_zone_slots k empty_record) (λ bound. cc);
    housed = λ i h.
        empty_table (construct p platform table count has_transmit has_callback) has_callback i;
  }
