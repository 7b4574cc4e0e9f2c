-- ===== src/Adaptor/Spec/Table.antt =====
-- A registration on an adaptor whose clients all have slots in the pool: the table is never full, so
-- nothing is evicted.
use zonal_zero_trust_auth.Base.{
  ℕ, ◌<◌, ◌≡◌, refl, ap, ◌∙◌, List, [], ◌∷◌, ◌++◌, true, false, Option, length, ◌==◌, arith,
  Option-cases, inl, inr,
}
use zonal_zero_trust_auth.Platform.{IsClientId, CryptoPlatform}
use zonal_zero_trust_auth.Engine.{KnownPeerEntry, SpdmSessionToken}
use zonal_zero_trust_auth.Tlm.{expire_existing, find_free_slot, is_locked_out, register_token}
use zonal_zero_trust_auth.Tlm.Register.Stages.{expire_existing-IsValid}
use zonal_zero_trust_auth.Tlm.Spec
use zonal_zero_trust_auth.Tlm.Spec.{drop_client, issued}
use zonal_zero_trust_auth.Tlm.Spec.View.{sessions}
use zonal_zero_trust_auth.Tlm.Spec.Capacity.{capacity, expire_existing-sessions, sessions-lt}
use zonal_zero_trust_auth.Tlm.Spec.Admit.{sessions-register_token}
use zonal_zero_trust_auth.Adaptor.{Adaptor}
use zonal_zero_trust_auth.Adaptor.Valid.{IsValid}
use zonal_zero_trust_auth.Adaptor.Calls.{IsHoused}
use zonal_zero_trust_auth.Adaptor.Housing.{IsCovered, IsHoused-nonzero}
use zonal_zero_trust_auth.Adaptor.Housing.Room.{find_free_slot-ne-none}

module _ (p : CryptoPlatform) (table : Option (List KnownPeerEntry)) (count : ℕ) (a : Adaptor p)
    (v : IsValid p table count a) (c : IsCovered p a) (token : SpdmSessionToken) (now : ℕ)
    (id : IsClientId token.client_id) (home : IsHoused p a token.client_id) where
  pub sessions-barred :
      is_locked_out a.tlm token.client_id ≡ true
      → sessions (register_token a.tlm token now).1 ≡ sessions a.tlm
  unfolding Spec.register
  sessions-barred l =
      let nz = IsHoused-nonzero p a token.client_id c id home in
      sessions-register_token token now id a.tlm v.manager ∙ rw (nz, l, Spec.register) refl

  module _ (o : is_locked_out a.tlm token.client_id ≡ false) where
    below_capacity : length (drop_client token.client_id (sessions a.tlm)) < capacity a.tlm
    below_capacity =
        let x = token.client_id in
        let w = expire_existing-IsValid a.tlm v.manager x id o in
        let (dropped, same) = expire_existing-sessions a.tlm v.manager x id o in
        elim (Option-cases (find_free_slot (expire_existing a.tlm x))) [
          | inl full ↦ absurd (find_free_slot-ne-none p table count a v c x id home o full)
          | inr (i, e) ↦
              let less = sessions-lt (expire_existing a.tlm x) w i e in
              omega (arith, less, same, ap length dropped)
        ]

    pub sessions-opened :
        sessions (register_token a.tlm token now).1
        ≡ drop_client token.client_id (sessions a.tlm) ++ issued token now ∷ []
    unfolding Spec.register Spec.admit
    sessions-opened =
        let nz = IsHoused-nonzero p a token.client_id c id home in
        let less = below_capacity in
        let some_room : (capacity a.tlm == 0) ≡ false = ground arith in
        let below : (length (drop_client token.client_id (sessions a.tlm)) == capacity a.tlm)
            ≡ false =
          ground arith in
        sessions-register_token token now id a.tlm v.manager
        ∙ rw (nz, o, some_room, below, Spec.register) refl
