-- ===== src/Adaptor/Offer/Full.antt =====
-- A pool without a free slot: it stays so, and a client that has no slot then never gets one.
use zonal_zero_trust_auth.Base.{
  ℕ, ◌≡◌, refl, sym, ap, ◌∙◌, List, [], ◌∷◌, ◌≤◌, false, Option, none, some, length, ltb,
  find_index, arith, Option-cases, inl, inr,
}
use zonal_zero_trust_auth.Platform.{Bytes, ClientId, SessionKey, IsClientId, CryptoPlatform}
use zonal_zero_trust_auth.ConstantTime.{is_zero}
use zonal_zero_trust_auth.Engine.{KnownPeerEntry, spdm_auth_request_len, spdm_auth_response_len}
use zonal_zero_trust_auth.Tlm
use zonal_zero_trust_auth.Adaptor.{
  AdaptorStatus, Adaptor, is_bound, is_unoccupied, decode_request, decode_response, find_slot,
  find_free_engine_slot, on_peer_offered, on_auth_request, on_auth_response, is_session_active,
}
use zonal_zero_trust_auth.Tlm.{find_slot_by_client_id}
use zonal_zero_trust_auth.Tlm.Invariant.Find.{found, is_locked_out-none}
use zonal_zero_trust_auth.Tlm.Register.Stages.{order_of}
use zonal_zero_trust_auth.Adaptor.Valid.{IsValid}
use zonal_zero_trust_auth.Adaptor.Hooks.{run-IsValid}
use zonal_zero_trust_auth.Adaptor.Housing.{IsCovered, AllNamed}
use zonal_zero_trust_auth.Adaptor.Housing.History.{run-IsCovered}
use zonal_zero_trust_auth.Adaptor.Events.{Event, AllTyped, step, run}
use zonal_zero_trust_auth.Adaptor.Pool.Bindings.{step-Reaches}

module _ (p : CryptoPlatform) where
  -- Without a free slot no record ever changes.
  step-slot_records :
      (a : Adaptor p) (e : Event)
      → find_free_engine_slot p a ≡ none
      → (step p a e).slot_records ≡ a.slot_records
  step-slot_records a e full = elim (step-Reaches p a e) [
    | inl r ↦ r.0
    | inr (x, q, (i, absent, free, records, others)) ↦ absurd (cc)
  ]

  pub run-slot_records :
      (es : List Event) (a : Adaptor p)
      → find_free_engine_slot p a ≡ none
      → (run p a es).slot_records ≡ a.slot_records
  unfolding run find_free_engine_slot
  run-slot_records [] a full = refl
  run-slot_records (e ∷ es) a full =
      let same = step-slot_records a e full in
      run-slot_records es (step p a e) (ap (find_index is_unoccupied) same ∙ full) ∙ same

  refused_request :
      (a : Adaptor p) (payload : Bytes)
      → spdm_auth_request_len ≤ length payload
      → find_slot p a (decode_request payload).client_id ≡ none
      → on_auth_request p a (some payload) ≡ (AdaptorStatus.unknown_peer, a)
  unfolding on_auth_request
  refused_request a payload size e =
      let long : ltb (length payload) spdm_auth_request_len ≡ false = ground arith in
      rw (long, e, on_auth_request) refl

  refused_response :
      (a : Adaptor p) (payload : Bytes) (now : ℕ)
      → spdm_auth_response_len ≤ length payload
      → find_slot p a (decode_response payload).client_id ≡ none
      → on_auth_response p a (some payload) now ≡ (AdaptorStatus.unknown_peer, a)
  unfolding on_auth_response
  refused_response a payload now size e =
      let long : ltb (length payload) spdm_auth_response_len ≡ false = ground arith in
      rw (long, e, on_auth_response) refl

  -- A client without a slot in the pool has none in the session table either.
  absent_session :
      (table : Option (List KnownPeerEntry)) (count : ℕ) (b : Adaptor p)
      → IsValid p table count b
      → IsCovered p b
      → (x : ClientId) → IsClientId x
      → is_zero x ≡ false
      → find_slot p b x ≡ none
      → find_slot_by_client_id b.tlm x ≡ none
  absent_session table count b v c x hx nz away =
      elim (Option-cases (find_slot_by_client_id b.tlm x)) [
        | inl e ↦ e
        | inr (idx, e) ↦
            let (bound, own, _) = found b.tlm (order_of b.tlm) v.manager.table x idx hx e in
            elim (c.housed idx bound) [
              | inl (free, z) ↦ absurd (ground (arith, ap is_zero own))
              | inr (i, at) ↦ let home = ap (find_slot p b) (sym own) ∙ at in absurd (cc)
            ]
      ]

  refused_query :
      (b : Adaptor p) (x : ClientId) (now : ℕ) (out : Option SessionKey)
      → find_slot_by_client_id b.tlm x ≡ none
      → is_session_active p b x now out ≡ (AdaptorStatus.not_authenticated, out, b)
  unfolding is_session_active Tlm.validate_token
  refused_query b x now out e =
      let free = is_locked_out-none b.tlm x e in rw (free, e, Tlm.validate_token) refl

module _ (p : CryptoPlatform) (table : Option (List KnownPeerEntry)) (count : ℕ) (a : Adaptor p)
    (v : IsValid p table count a) (c : IsCovered p a) where
  -- A pool that is full is so for ever. Take a valid adaptor without a free slot whose clients all have
  -- slots in the pool, a client that has none and whose identifier is not all-zero, and any history of
  -- hook calls that never revokes the all-zero identifier. After it, the client's offer is answered
  -- with kSlotExhausted, its request and its response, if long enough, with kUnknownPeer, and a query
  -- with kNotAuthenticated, all with nothing changed: no silent peer is evicted in its favour.
  pub run-on_peer_offered :
      (x : ClientId)
      → IsClientId x
      → is_zero x ≡ false
      → find_free_engine_slot p a ≡ none
      → find_slot p a x ≡ none
      → (es : List Event) → AllTyped es
      → AllNamed es
      → (request response : Bytes) (now : ℕ) (out : Option SessionKey)
      → spdm_auth_request_len ≤ length request
      → (decode_request request).client_id ≡ x
      → spdm_auth_response_len ≤ length response
      → (decode_response response).client_id ≡ x
      → let b = run p a es in
        (on_peer_offered p b x ≡ (AdaptorStatus.slot_exhausted, b))
        × (on_auth_request p b (some request) ≡ (AdaptorStatus.unknown_peer, b))
        × (on_auth_response p b (some response) now ≡ (AdaptorStatus.unknown_peer, b))
        × (is_session_active p b x now out ≡ (AdaptorStatus.not_authenticated, out, b))
  unfolding on_peer_offered find_slot find_free_engine_slot
  run-on_peer_offered x hx nz full absent es t named request response now out size own size' own' =
      let b = run p a es in
      let same = run-slot_records p es a full in
      let away : find_slot p b x ≡ none = ap (find_index (is_bound x)) same ∙ absent in
      let taken : find_free_engine_slot p b ≡ none = ap (find_index is_unoccupied) same ∙ full in
      let none_held =
        absent_session p table count b (run-IsValid p table count a es t v)
          (run-IsCovered p table count es t named a v c) x hx nz away in
      let free = is_locked_out-none b.tlm x none_held in
      (
        rw (nz, free, away, taken, on_peer_offered) refl,
        refused_request p b request size (ap (find_slot p b) own ∙ away),
        refused_response p b response now size' (ap (find_slot p b) own' ∙ away),
        refused_query p b x now out none_held,
      )
