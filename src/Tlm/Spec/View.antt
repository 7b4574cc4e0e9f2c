-- ===== src/Tlm/Spec/View.antt =====
-- The sessions of a manager, in the order of eviction, and what a change of one slot does to them.
use mathlib.Core.Path.{subst}
use zonal_zero_trust_auth.Base.{
  ℕ, ◌<◌, ◌≡◌, ◌≢◌, refl, sym, ap, ◌∙◌, List, [], ◌∷◌, Bool, true, false, none, some, ◌==◌,
  if◌then◌else◌, keep_if, map, arith, Bool-cases, inl, inr, ==_iff,
}
use zonal_zero_trust_auth.Platform.{ClientId, IsClientId, client_id_len}
use zonal_zero_trust_auth.ConstantTime.{same_bytes_iff}
use zonal_zero_trust_auth.Ring.Fifo.{Fifo, remove}
use zonal_zero_trust_auth.Tlm.{
  TokenSlot, TokenLifecycleManager, max_active_sessions, slot_at, has_id, find_slot_by_client_id,
}
use zonal_zero_trust_auth.Tlm.Order.{occurs, occurs-remove}
use zonal_zero_trust_auth.Tlm.Invariant.{IsValid, active}
use zonal_zero_trust_auth.Tlm.Invariant.Find.{found, missing, find_claimed}
use zonal_zero_trust_auth.Tlm.Register.Stages.{order_of, claimed_bound}
use zonal_zero_trust_auth.Tlm.Spec.{Session, drop_client, touch, touched, lookup}

abbrev pub session_of : TokenSlot → Session
session_of slot = record {
  client_id = slot.client_id;
  session_key = slot.session_key;
  session_nonce = slot.session_nonce;
  issued_at_ms = slot.issued_at_ms;
  last_seen_ms = slot.last_seen_ms;
}

abbrev pub session_at : TokenLifecycleManager → ℕ → Session
session_at m i = session_of (slot_at m i)

abbrev pub view : TokenLifecycleManager → Fifo → List Session
view m q = map (session_at m) q

abbrev pub sessions : TokenLifecycleManager → List Session
sessions m = view m (order_of m)

-- Only the slots that the order lists are seen.
pub view_ext :
    (m n : TokenLifecycleManager) (q : Fifo)
    → ((j : ℕ) → occurs j q ≡ true → slot_at n j ≡ slot_at m j)
    → view n q ≡ view m q
view_ext m n [] h = refl
view_ext m n (i ∷ q) h =
    let head : slot_at n i ≡ slot_at m i = h i (ground arith) in
    let tail = view_ext m n q (λ j o. h j (ground arith)) in rw (head, tail)

-- Among the indices that the order lists, two tests agree.
abbrev pub Agree : Fifo → (ℕ → Bool) → (ℕ → Bool) → Type 0
Agree q p r = (j : ℕ) → occurs j q ≡ true → p j ≡ r j

tail-Agree : (i : ℕ) (q : Fifo) (p r : ℕ → Bool) → Agree (i ∷ q) p r → Agree q p r
tail-Agree i q p r h j o = h j (ground arith)

module _ (m : TokenLifecycleManager) (x : ClientId) where
  abbrev pub owns : ℕ → Bool
  owns j = has_id x (slot_at m j)

  -- Removing the one index whose slot belongs to a client is dropping the client.
  pub view-remove :
      (i : ℕ) (q : Fifo)
      → Agree q owns (λ j. j == i)
      → view m (remove q i) ≡ drop_client x (view m q)
  unfolding remove keep_if
  view-remove i [] h = refl
  view-remove i (j ∷ q) h =
      let head : owns j ≡ (j == i) = h j (ground arith) in
      let tail = view-remove i q (tail-Agree j q owns (λ k. k == i) h) in
      elim (Bool-cases (j == i)) [ inl e ↦ rw (head, e) tail | inr n ↦ rw (head, n, tail) ]

  pub view-drop-none : (q : Fifo) → Agree q owns (λ j. false) → drop_client x (view m q) ≡ view m q
  unfolding keep_if
  view-drop-none [] h = refl
  view-drop-none (j ∷ q) h =
      let head : owns j ≡ false = h j (ground arith) in
      rw (head, view-drop-none q (tail-Agree j q owns (λ k. false) h))

  pub view-touch :
      (i now : ℕ) (q : Fifo) (n : TokenLifecycleManager)
      → Agree q owns (λ j. j == i)
      → ((j : ℕ)
          → slot_at n j
            ≡ (if i == j then record (slot_at m i) { last_seen_ms = now } else slot_at m j))
      → view n q ≡ touch x now (view m q)
  unfolding touch
  view-touch i now [] n h s = refl
  view-touch i now (j ∷ q) n h s =
      let head : owns j ≡ (j == i) = h j (ground arith) in
      let tail = view-touch i now q n (tail-Agree j q owns (λ k. k == i) h) s in
      elim (Bool-cases (j == i)) [
        | inl e ↦
            let same : j ≡ i = (==_iff j i).0 e in
            let flip : (i == j) ≡ true = ground arith in
            let new : slot_at n j ≡ record (slot_at m i) { last_seen_ms = now } = s j ∙ rw flip in
            rw (head, e, tail)
              (ap (λ t. t ∷ touch x now (view m q))
                (ap session_of new ∙ ap (λ k. touched now (session_at m k)) (sym same)))
        | inr e ↦
            let flip : (i == j) ≡ false = ground arith in
            let old : slot_at n j ≡ slot_at m j = s j ∙ rw flip in
            rw (head, e, tail) (ap (λ t. t ∷ touch x now (view m q)) (ap session_of old))
      ]

  pub lookup-view-none : (q : Fifo) → Agree q owns (λ j. false) → lookup x (view m q) ≡ none
  unfolding lookup
  lookup-view-none [] h = refl
  lookup-view-none (j ∷ q) h =
      let head : owns j ≡ false = h j (ground arith) in
      rw (head, lookup-view-none q (tail-Agree j q owns (λ k. false) h))

  pub lookup-view :
      (i : ℕ) (q : Fifo)
      → Agree q owns (λ j. j == i)
      → lookup x (view m q) ≡ (if occurs i q then some (session_at m i) else none)
  unfolding lookup
  lookup-view i [] h = refl
  lookup-view i (j ∷ q) h =
      let head : owns j ≡ (j == i) = h j (ground arith) in
      let tail = lookup-view i q (tail-Agree j q owns (λ k. k == i) h) in
      elim (Bool-cases (j == i)) [
        | inl e ↦ rw (head, e) (ap (λ k. some (session_at m k)) ((==_iff j i).0 e))
        | inr n ↦ rw (head, n, tail)
      ]

module _ (m : TokenLifecycleManager) (v : IsValid m) where
  pub listed-active : (j : ℕ) → occurs j (order_of m) ≡ true → active (slot_at m j) ≡ true
  listed-active j o = sym (v.table.listed j) ∙ o

  pub listed_lt : (j : ℕ) → occurs j (order_of m) ≡ true → j < max_active_sessions
  listed_lt j o = let a = listed-active j o in claimed_bound m v j (ground arith)

  module _ (x : ClientId) (hx : IsClientId x) where
    has_id-eq : (j : ℕ) → has_id x (slot_at m j) ≡ true → (slot_at m j).client_id ≡ x
    has_id-eq j t =
        sym ((same_bytes_iff client_id_len x (slot_at m j).client_id hx (v.table.slots j).id).0 t)

    -- The slot found for a client is the only listed one that can belong to it.
    pub found-Agree :
        (i : ℕ) → find_slot_by_client_id m x ≡ some i → Agree (order_of m) (owns m x) (λ j. j == i)
    found-Agree i e j o =
        let (_, id, _) = found m (order_of m) v.table x i hx e in
        let a = listed-active j o in
        elim (Bool-cases (has_id x (slot_at m j))) [
          | inl t ↦
              let at_j : find_slot_by_client_id m x ≡ some j =
                subst (λ (y : ClientId). find_slot_by_client_id m y ≡ some j) (has_id-eq j t)
                  (find_claimed m (order_of m) v.table j (listed_lt j o) (ground arith)) in
              let same : j ≡ i = ground arith in rw t (ground arith)
          | inr f ↦ rw f (elim (Bool-cases (j == i)) [
            | inr n ↦ sym n
            | inl s ↦
                let own : (slot_at m j).client_id ≡ x =
                  ap (λ k. (slot_at m k).client_id) ((==_iff j i).0 s) ∙ id in
                let t : has_id x (slot_at m j) ≡ true =
                  (same_bytes_iff client_id_len x (slot_at m j).client_id hx (v.table.slots j).id).1
                    (sym own) in
                absurd (cc)
          ])
        ]

    pub missing-Agree :
        find_slot_by_client_id m x ≡ none → Agree (order_of m) (owns m x) (λ j. false)
    missing-Agree e j o = elim (Bool-cases (has_id x (slot_at m j))) [
      | inr f ↦ f
      | inl t ↦ absurd (missing m (order_of m) v.table x e j (listed_lt j o) (has_id-eq j t))
    ]

    -- The index found for a client goes from the order, and no other slot changes.
    pub sessions-drop :
        (i : ℕ) (n : TokenLifecycleManager)
        → find_slot_by_client_id m x ≡ some i
        → order_of n ≡ remove (order_of m) i
        → ((j : ℕ) → i ≢ j → slot_at n j ≡ slot_at m j)
        → sessions n ≡ drop_client x (sessions m)
    sessions-drop i n e order same =
        ap (view n) order
        ∙ view_ext m n (remove (order_of m) i)
            (λ j o. same j (λ ij. ground (arith, occurs-remove i j (order_of m))))
        ∙ view-remove m x i (order_of m) (found-Agree i e)
