-- ===== src/Adaptor/Login/Offer.antt =====
-- `OnPeerOffered` for a peer that may log in: a slot is bound to it and the slot's engine starts anew.
use zonal_zero_trust_auth.Base.{
  ℕ, ◌<◌, ◌≡◌, ◌⊎◌, refl, ◌∙◌, List, false, Option, none, some, length, length-set, get_or-set_self,
  arith, inl, inr,
}
use zonal_zero_trust_auth.Platform.{ClientId, CryptoPlatform}
use zonal_zero_trust_auth.ConstantTime.{is_zero}
use zonal_zero_trust_auth.Engine
use zonal_zero_trust_auth.Engine.{KnownPeerEntry, SpdmProtocolEngine}
use zonal_zero_trust_auth.Tlm
use zonal_zero_trust_auth.Tlm.{TokenLifecycleManager}
use zonal_zero_trust_auth.Adaptor.{
  AdaptorStatus, Adaptor, max_zone_slots, engine_at, put_engine, find_slot, find_free_engine_slot,
  on_peer_offered,
}
use zonal_zero_trust_auth.Adaptor.Valid.{IsValid}
use zonal_zero_trust_auth.Adaptor.Pool.Bindings.{bound_new}
use zonal_zero_trust_auth.Adaptor.Hooks.{slot_bound, free_bound}

module _ (p : CryptoPlatform) where
  -- A slot that the peer has or can get.
  abbrev pub HasSlot : Adaptor p → ClientId → ℕ → Type 0
  HasSlot a x i =
      (find_slot p a x ≡ some i) ⊎ (find_slot p a x ≡ none) × (find_free_engine_slot p a ≡ some i)

  -- The slot is bound to the peer, its engine is reset, and nothing else that a login needs changed.
  pub record Offered (a b : Adaptor p) (x : ClientId) (i : ℕ) : Type 0 where
    pub inside : i < max_zone_slots
    pub size : length b.engines ≡ max_zone_slots
    pub bound : find_slot p b x ≡ some i
    pub engine : engine_at p b i ≡ Engine.reset (engine_at p a i)
    pub tlm : b.tlm ≡ a.tlm
    pub platform : b.platform ≡ a.platform
    pub has_transmit : b.has_transmit ≡ a.has_transmit
    pub transmitted : b.transmitted ≡ a.transmitted

  pub engine-put_engine :
      (a : Adaptor p) (i : ℕ) (e : SpdmProtocolEngine)
      → length a.engines ≡ max_zone_slots
      → i < max_zone_slots
      → engine_at p (put_engine p a i e) i ≡ e
  engine-put_engine a i e size h =
      get_or-set_self a.engines i e (Engine.construct a.peer_table a.peer_count)
        (omega (arith, size))

  module _ (table : Option (List KnownPeerEntry)) (count : ℕ) (a : Adaptor p)
      (v : IsValid p table count a) (x : ClientId) where
    pub on_peer_offered-Offered :
        is_zero x ≡ false
        → Tlm.is_locked_out a.tlm x ≡ false
        → (i : ℕ) → HasSlot a x i
        → ((on_peer_offered p a x).0 ≡ AdaptorStatus.ok) × Offered a (on_peer_offered p a x).1 x i
    unfolding on_peer_offered find_slot find_free_engine_slot
    on_peer_offered-Offered nz o i (inl e) =
        rw (nz, o, e, on_peer_offered)
          (
            refl,
            record {
              inside = slot_bound p table count a x i v e;
              size = length-set a.engines i (Engine.reset (engine_at p a i)) ∙ v.engines_size;
              bound = e;
              engine =
                  engine-put_engine a i (Engine.reset (engine_at p a i)) v.engines_size
                    (slot_bound p table count a x i v e);
              tlm = refl;
              platform = refl;
              has_transmit = refl;
              transmitted = refl;
            },
          )
    on_peer_offered-Offered nz o i (inr (e, f)) =
        let h = free_bound p table count a i v f in
        rw (nz, o, e, f, on_peer_offered)
          (
            refl,
            record {
              inside = h;
              size = length-set a.engines i (Engine.reset (engine_at p a i)) ∙ v.engines_size;
              bound = bound_new a.slot_records x i e f;
              engine = engine-put_engine a i (Engine.reset (engine_at p a i)) v.engines_size h;
              tlm = refl;
              platform = refl;
              has_transmit = refl;
              transmitted = refl;
            },
          )
