-- ===== src/Adaptor/Pool.antt =====
-- The pool of engines: a slot once bound to a peer stays bound to it, and an event reaches no engine
-- but that of the client that it is about.
pub mod Bindings
use zonal_zero_trust_auth.Base.{
  ℕ, ◌<◌, ◌≡◌, ◌≢◌, ◌⊎◌, refl, sym, ap, ◌∙◌, List, [], ◌∷◌, Bool, true, false, Option, none, some,
  length, get_or, set, length-set, get_or-set_self, get_or-set_ne, ◌==◌, ==_iff, ltb, find_index,
  find_index-some, find_index-none, find_index-first, find_index-before, arith, Bool-cases,
  Option-cases, inl, inr,
}
use zonal_zero_trust_auth.Platform.{
  Bytes, ClientId, SessionKey, IsClientId, CryptoPlatform, client_id_len,
}
use zonal_zero_trust_auth.ConstantTime.{is_zero, same_bytes, same_bytes_iff}
use zonal_zero_trust_auth.Engine
use zonal_zero_trust_auth.Engine.{
  SpdmProtocolEngine, SpdmAuthRequest, SpdmAuthResponse, SpdmSessionToken, Requested, Responded,
  spdm_auth_request_len, spdm_auth_response_len, process_auth_request, process_auth_response,
}
use zonal_zero_trust_auth.Tlm
use zonal_zero_trust_auth.Adaptor.{
  ZoneSlotRecord, Adaptor, empty_record, empty_token, is_bound, is_unoccupied, decode_request,
  decode_response, spdm_ok, tlm_ok, engine_at, put_engine, find_slot, find_free_engine_slot,
  on_peer_offered, transmit_challenge, forward_request, on_auth_request, register_session,
  complete_handshake, on_auth_response, on_session_tick, is_session_active, revoke_engine,
  revoke_session,
}
use zonal_zero_trust_auth.Adaptor.Events.{
  Event, offers, requests, responds, ticks, queries, revokes, IsTyped, AllTyped, step, run,
}

module _ (p : CryptoPlatform) where
  abbrev pub record_at : Adaptor p → ℕ → ZoneSlotRecord
  record_at a j = get_or a.slot_records j empty_record

  -- Only the engine at one index may differ.
  pub record OnlyEngine (a b : Adaptor p) (i : ℕ) : Type 0 where
    pub records : b.slot_records ≡ a.slot_records
    pub others : (j : ℕ) → i ≢ j → engine_at p b j ≡ engine_at p a j

  put_engine-OnlyEngine :
      (a : Adaptor p) (i : ℕ) (e : SpdmProtocolEngine) → OnlyEngine a (put_engine p a i e) i
  put_engine-OnlyEngine a i e = record {
    records = refl;
    others = λ j ij. get_or-set_ne a.engines i j e (Engine.construct a.peer_table a.peer_count) ij;
  }

  same-OnlyEngine : (a : Adaptor p) (i : ℕ) → OnlyEngine a a i
  same-OnlyEngine a i = record { records = refl; others = λ j ij. refl }

  forward_request-OnlyEngine :
      (a : Adaptor p) (i : ℕ) (request : SpdmAuthRequest)
      → OnlyEngine a (forward_request p a i request).1 i
  unfolding forward_request transmit_challenge
  forward_request-OnlyEngine a i request =
      let out = process_auth_request p (engine_at p a i) request a.platform in
      let new = put_engine-OnlyEngine a i out.engine in
      elim (Bool-cases (spdm_ok out.status)) [
        | inl t ↦ elim (Bool-cases a.has_transmit) [
          | inl c ↦ rw (t, c) (record { records = refl; others = new.others })
          | inr c ↦ rw (t, c) (record { records = refl; others = new.others })
        ]
        | inr f ↦ rw f (record { records = refl; others = new.others })
      ]

  register_session-OnlyEngine :
      (a : Adaptor p) (i : ℕ) (token : SpdmSessionToken) (now : ℕ)
      → OnlyEngine a (register_session p a i token now).1 i
  unfolding register_session
  register_session-OnlyEngine a i token now =
      let out = Tlm.register_token a.tlm token now in
      elim (Bool-cases (tlm_ok out.0)) [
        | inl t ↦ rw t (record { records = refl; others = λ j ij. refl })
        | inr f ↦ rw f (record {
          records = refl;
          others = (put_engine-OnlyEngine a i (Engine.revoke (engine_at p a i))).others;
        })
      ]

  complete_handshake-OnlyEngine :
      (a : Adaptor p) (i : ℕ) (response : SpdmAuthResponse) (now : ℕ)
      → OnlyEngine a (complete_handshake p a i response now).1 i
  unfolding complete_handshake
  complete_handshake-OnlyEngine a i response now =
      let out = process_auth_response p (engine_at p a i) response empty_token a.platform in
      let new = put_engine-OnlyEngine a i out.engine in
      let b = record (put_engine p a i out.engine) { platform = out.platform } in
      let last = register_session-OnlyEngine b i out.token now in
      elim (Bool-cases (spdm_ok out.status)) [
        | inl t ↦
            rw t (record {
              records = last.records;
              others = λ j ij. last.others j ij ∙ new.others j ij;
            })
        | inr f ↦ rw f (record { records = refl; others = new.others })
      ]

  -- The client that an event is about.
  abbrev pub subject : Event → Option ClientId
  subject (offers x) = some x
  subject (requests none) = none
  subject (requests (some payload)) = some (decode_request payload).client_id
  subject (responds none now) = none
  subject (responds (some payload) now) = some (decode_response payload).client_id
  subject (ticks now) = none
  subject (queries x now out) = some x
  subject (revokes x is_anomaly) = some x

  -- An event changes nothing in the pool but the engine of its subject.
  abbrev pub Reaches : Adaptor p → Adaptor p → Option ClientId → Type 0
  Reaches a b who =
      (b.slot_records ≡ a.slot_records)
      × ((j : ℕ)
          → ((x : ClientId) → who ≡ some x → find_slot p a x ≢ some j)
          → engine_at p b j ≡ engine_at p a j)

  OnlyEngine-Reaches :
      (a b : Adaptor p) (x : ClientId) (i : ℕ)
      → find_slot p a x ≡ some i
      → OnlyEngine a b i
      → Reaches a b (some x)
  OnlyEngine-Reaches a b x i e o =
      (o.records, λ j avoids. o.others j (λ ij. avoids x refl (e ∙ ap some ij)))

  pub request-Reaches :
      (a : Adaptor p) (payload : Option Bytes)
      → Reaches a (on_auth_request p a payload).1 (subject (requests payload))
  unfolding on_auth_request
  request-Reaches a none = (refl, λ j avoids. refl)
  request-Reaches a (some payload) =
      let x = (decode_request payload).client_id in
      elim (Bool-cases (ltb (length payload) spdm_auth_request_len)) [
        | inl short ↦ rw short (refl, λ j avoids. refl)
        | inr long ↦ elim (Option-cases (find_slot p a x)) [
          | inl e ↦ rw (long, e, on_auth_request) (refl, λ j avoids. refl)
          | inr (i, e) ↦ rw long (
              rw (e, on_auth_request)
                (OnlyEngine-Reaches a (forward_request p a i (decode_request payload)).1 x i e
                  (forward_request-OnlyEngine a i (decode_request payload))))
        ]
      ]

  pub response-Reaches :
      (a : Adaptor p) (payload : Option Bytes) (now : ℕ)
      → Reaches a (on_auth_response p a payload now).1 (subject (responds payload now))
  unfolding on_auth_response
  response-Reaches a none now = (refl, λ j avoids. refl)
  response-Reaches a (some payload) now =
      let x = (decode_response payload).client_id in
      elim (Bool-cases (ltb (length payload) spdm_auth_response_len)) [
        | inl short ↦ rw short (refl, λ j avoids. refl)
        | inr long ↦ elim (Option-cases (find_slot p a x)) [
          | inl e ↦ rw (long, e, on_auth_response) (refl, λ j avoids. refl)
          | inr (i, e) ↦ rw long (
              rw (e, on_auth_response)
                (OnlyEngine-Reaches a (complete_handshake p a i (decode_response payload) now).1 x i
                  e (complete_handshake-OnlyEngine a i (decode_response payload) now)))
        ]
      ]

  pub query-Reaches :
      (a : Adaptor p) (x : ClientId) (now : ℕ) (out : Option SessionKey)
      → Reaches a (is_session_active p a x now out).2 (some x)
  unfolding is_session_active
  query-Reaches a x now out = elim (Bool-cases (Tlm.is_locked_out a.tlm x)) [
    | inl l ↦ rw l (refl, λ j avoids. refl)
    | inr o ↦ rw o (refl, λ j avoids. refl)
  ]

  pub revoke-Reaches :
      (a : Adaptor p) (x : ClientId) (is_anomaly : Bool)
      → Reaches a (revoke_session p a x is_anomaly).1 (some x)
  unfolding revoke_session revoke_engine
  revoke-Reaches a x is_anomaly = elim (Option-cases (find_slot p a x)) [
    | inl e ↦ rw (e, revoke_engine) (refl, λ j avoids. refl)
    | inr (i, e) ↦
        let new = put_engine-OnlyEngine a i (Engine.revoke (engine_at p a i)) in
        rw (e, revoke_engine)
          (refl, λ j avoids. new.others j (λ ij. avoids x refl (e ∙ ap some ij)))
  ]

  -- The first free slot is bound to a client that had none, and no other engine changes.
  abbrev pub Binds : Adaptor p → Adaptor p → ClientId → Type 0
  Binds a b x =
      (i : ℕ) × (find_slot p a x ≡ none)
      × (find_free_engine_slot p a ≡ some i)
      × (b.slot_records ≡ set a.slot_records i (record { client_id = x; is_occupied = true }))
      × ((j : ℕ) → i ≢ j → engine_at p b j ≡ engine_at p a j)

  -- What `OnPeerOffered` does to the pool: nothing, a reset of the client's engine, or a binding.
  abbrev pub Offers : Adaptor p → Adaptor p → ClientId → Type 0
  Offers a b x = Reaches a b (some x) ⊎ Binds a b x

  pub offer-Offers : (a : Adaptor p) (x : ClientId) → Offers a (on_peer_offered p a x).1 x
  unfolding on_peer_offered
  offer-Offers a x = elim (Bool-cases (is_zero x)) [
    | inl z ↦ rw z (inl (refl, λ j avoids. refl))
    | inr nz ↦ elim (Bool-cases (Tlm.is_locked_out a.tlm x)) [
      | inl l ↦ rw (nz, l) (inl (refl, λ j avoids. refl))
      | inr o ↦ elim (Option-cases (find_slot p a x)) [
        | inr (i, e) ↦
            rw (nz, o)
              (rw (e, on_peer_offered)
                (inl (
                  OnlyEngine-Reaches a (put_engine p a i (Engine.reset (engine_at p a i))) x i e
                    (put_engine-OnlyEngine a i (Engine.reset (engine_at p a i))))))
        | inl e ↦ elim (Option-cases (find_free_engine_slot p a)) [
          | inl f ↦ rw (nz, o, e, f, on_peer_offered) (inl (refl, λ j avoids. refl))
          | inr (i, f) ↦
              rw (nz, o, e, f, on_peer_offered)
                (inr (
                  i,
                  refl,
                  refl,
                  refl,
                  (put_engine-OnlyEngine a i (Engine.reset (engine_at p a i))).others,
                ))
        ]
      ]
    ]
  ]
