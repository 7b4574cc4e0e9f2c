-- ===== src/Adaptor/Pool/Bindings.antt =====
-- Bindings of slots to peers over histories of events, and the isolation of the engines.
use mathlib.Core.Path.{subst}
use zonal_zero_trust_auth.Base.{
  ℕ, ◌≡◌, ◌≢◌, ◌⊎◌, refl, sym, ap, ◌∙◌, List, [], ◌∷◌, true, false, Option, none, some, get_or, set,
  length-set, get_or-set_self, get_or-set_ne, ◌==◌, ==_iff, find_index, find_index-some,
  find_index-none, find_index-first, find_index-before, arith, Bool-cases, inl, inr,
}
use zonal_zero_trust_auth.Platform.{ClientId, IsClientId, CryptoPlatform, client_id_len}
use zonal_zero_trust_auth.ConstantTime.{same_bytes, same_bytes_iff, same_bytes_self}
use zonal_zero_trust_auth.Adaptor.{
  ZoneSlotRecord, Adaptor, empty_record, is_bound, is_unoccupied, engine_at, find_slot,
  find_free_engine_slot, on_session_tick,
}
use zonal_zero_trust_auth.Adaptor.Events.{
  Event, offers, requests, responds, ticks, queries, revokes, IsTyped, AllTyped, step, run,
}
use zonal_zero_trust_auth.Adaptor.Pool.{
  record_at, subject, Reaches, Binds, request-Reaches, response-Reaches, query-Reaches,
  revoke-Reaches, offer-Offers,
}

-- A client that is bound to a free slot is found there.
pub bound_new :
    (records : List ZoneSlotRecord) (x : ClientId) (k : ℕ)
    → find_index (is_bound x) records ≡ none
    → find_index is_unoccupied records ≡ some k
    → find_index (is_bound x) (set records k (record { client_id = x; is_occupied = true }))
      ≡ some k
bound_new records x k absent free =
    let new : ZoneSlotRecord = record { client_id = x; is_occupied = true } in
    let room = (find_index-some is_unoccupied empty_record records k free).0 in
    let own = same_bytes_self x in
    find_index-first (is_bound x) empty_record (set records k new) k
      (omega (arith, length-set records k new))
      (rw (get_or-set_self records k new empty_record room, own) refl)
      (λ j jk.
        (let kept = get_or-set_ne records k j new empty_record (λ q. omega arith) in
          rw kept (find_index-none (is_bound x) empty_record records j absent (omega arith))))

-- A binding of a free slot to a client without one leaves the other clients' slots where they are.
bound_kept :
    (records : List ZoneSlotRecord) (x y : ClientId) (i k : ℕ)
    → IsClientId x
    → IsClientId y
    → find_index (is_bound x) records ≡ none
    → find_index is_unoccupied records ≡ some k
    → find_index (is_bound y) records ≡ some i
    → find_index (is_bound y) (set records k (record { client_id = x; is_occupied = true }))
      ≡ some i
bound_kept records x y i k hx hy absent free e =
    let new : ZoneSlotRecord = record { client_id = x; is_occupied = true } in
    let (inside, hit) = find_index-some (is_bound y) empty_record records i e in
    let (room, open_slot) = find_index-some is_unoccupied empty_record records k free in
    let apart : k ≢ i = λ q.
      (let same : is_unoccupied (get_or records i empty_record) ≡ true =
          ap (λ j. is_unoccupied (get_or records j empty_record)) (sym q) ∙ open_slot in
        ground arith) in
    find_index-first (is_bound y) empty_record (set records k new) i
      (omega (arith, length-set records k new))
      (ap (is_bound y) (get_or-set_ne records k i new empty_record apart) ∙ hit)
      (λ j ji. elim (Bool-cases (k == j)) [
        | inr other ↦
            ap (is_bound y) (get_or-set_ne records k j new empty_record (λ q. ground arith))
            ∙ find_index-before (is_bound y) empty_record records i j e ji
        | inl same ↦
            ap (λ m. is_bound y (get_or (set records k new) m empty_record))
              (sym ((==_iff k j).0 same))
            ∙ ap (is_bound y) (get_or-set_self records k new empty_record room)
            ∙ not_own
      ])
  where
    not_own : same_bytes y x ≡ false
    not_own = elim (Bool-cases (same_bytes y x)) [
      | inr f ↦ f
      | inl t ↦
          let q : y ≡ x = (same_bytes_iff client_id_len y x hy hx).0 t in
          let own : find_index (is_bound y) records ≡ none =
            ap (λ z. find_index (is_bound z) records) q ∙ absent in
          absurd (cc)
    ]

module _ (p : CryptoPlatform) where
  -- What an event does to the pool.
  pub step-Reaches :
      (a : Adaptor p) (e : Event)
      → Reaches p a (step p a e) (subject p e)
        ⊎ ((x : ClientId) × (e ≡ offers x) × Binds p a (step p a e) x)
  unfolding step on_session_tick
  step-Reaches a (offers x) = elim (offer-Offers p a x) [ inl r ↦ inl r | inr b ↦ inr (x, refl, b) ]
  step-Reaches a (requests payload) = inl (request-Reaches p a payload)
  step-Reaches a (responds payload now) = inl (response-Reaches p a payload now)
  step-Reaches a (ticks now) = inl (refl, λ j avoids. refl)
  step-Reaches a (queries x now out) = inl (query-Reaches p a x now out)
  step-Reaches a (revokes x is_anomaly) = inl (revoke-Reaches p a x is_anomaly)

  Reaches-find_slot :
      (a b : Adaptor p) (who : Option ClientId) (y : ClientId)
      → Reaches p a b who
      → find_slot p b y ≡ find_slot p a y
  unfolding find_slot
  Reaches-find_slot a b who y r = ap (find_index (is_bound y)) r.0

  Binds-find_slot_self :
      (a b : Adaptor p) (x : ClientId) (c : Binds p a b x) → find_slot p b x ≡ some c.0
  unfolding find_slot find_free_engine_slot
  Binds-find_slot_self a b x (k, absent, free, records, others) =
      ap (find_index (is_bound x)) records ∙ bound_new a.slot_records x k absent free

  Binds-find_slot :
      (a b : Adaptor p) (x y : ClientId) (i : ℕ)
      → Binds p a b x
      → IsClientId x
      → IsClientId y
      → find_slot p a y ≡ some i
      → find_slot p b y ≡ some i
  unfolding find_slot find_free_engine_slot
  Binds-find_slot a b x y i (k, absent, free, records, others) hx hy e =
      ap (find_index (is_bound y)) records ∙ bound_kept a.slot_records x y i k hx hy absent free e

  pub step-find_slot :
      (a : Adaptor p) (e : Event) (y : ClientId) (i : ℕ)
      → IsTyped e
      → IsClientId y
      → find_slot p a y ≡ some i
      → find_slot p (step p a e) y ≡ some i
  step-find_slot a e y i t hy s = elim (step-Reaches a e) [
    | inl r ↦ Reaches-find_slot a (step p a e) (subject p e) y r ∙ s
    | inr (x, q, b) ↦ Binds-find_slot a (step p a e) x y i b (subst IsTyped q t) hy s
  ]

  -- A slot that is bound to a client stays bound to it: after every history of hook calls, revocations
  -- and lockouts included, the client is found at the same slot.
  pub run-find_slot :
      (es : List Event)
      → AllTyped es
      → (a : Adaptor p) (y : ClientId) (i : ℕ) → IsClientId y
      → find_slot p a y ≡ some i
      → find_slot p (run p a es) y ≡ some i
  unfolding run
  run-find_slot [] t a y i hy e = e
  run-find_slot (c ∷ es) t a y i hy e =
      run-find_slot es t.1 (step p a c) y i hy (step-find_slot a c y i t.0 hy e)

  -- The client that the event is about is found at the index, once the event is over.
  abbrev pub IsOwn : Adaptor p → Event → ℕ → Type 0
  IsOwn a e j = (x : ClientId) × (subject p e ≡ some x) × (find_slot p (step p a e) x ≡ some j)

  -- An event reaches no engine and no slot record but those at the index at which the client that it is
  -- about is found afterwards: an event without a client, one whose frame is too short and one for a
  -- client without a slot change nothing in the pool.
  pub step_isolated :
      (a : Adaptor p) (e : Event) (j : ℕ)
      → ¬ IsOwn a e j
      → (engine_at p (step p a e) j ≡ engine_at p a j)
        × (record_at p (step p a e) j ≡ record_at p a j)
  step_isolated a e j foreign = elim (step-Reaches a e) [
    | inl r ↦ (
      r.1 j (λ x q s. foreign (x, q, Reaches-find_slot a (step p a e) (subject p e) x r ∙ s)),
      ap (λ l. get_or l j empty_record) r.0,
    )
    | inr (x, q, b) ↦
        let (k, absent, free, records, others) = b in
        let apart : k ≢ j = λ kj.
          foreign (x, ap (subject p) q, Binds-find_slot_self a (step p a e) x b ∙ ap some kj) in
        (
          others j apart,
          ap (λ l. get_or l j empty_record) records
              ∙ get_or-set_ne a.slot_records k j (record { client_id = x; is_occupied = true })
                  empty_record apart,
        )
  ]
