-- ===== src/Tlm/Spec/Admit.antt =====
-- Registration on the abstract table: the client's earlier session and, without room, the oldest one
-- give way to the new session.
use mathlib.Core.Path.{subst}
use mathlib.Core.List.{map-append}
use zonal_zero_trust_auth.Base.{
  ℕ, suc, ◌<◌, ◌≡◌, refl, sym, ap, ◌∙◌, List, [], ◌∷◌, ◌++◌, true, false, none, length, drop, ◌==◌,
  if◌then◌else◌, arith, Bool-cases, inl, inr, ==_iff, keep_if,
}
use zonal_zero_trust_auth.Platform.{ClientId, IsClientId}
use zonal_zero_trust_auth.ConstantTime.{is_zero}
use zonal_zero_trust_auth.Engine.{SpdmSessionToken}
use zonal_zero_trust_auth.Ring.Refine.{length-contents}
use zonal_zero_trust_auth.Tlm.{
  TokenLifecycleManager, max_active_sessions, slot_at, admitted_slot, admit, evict, place,
  expire_existing, register_token, find_free_slot, is_locked_out,
}
use zonal_zero_trust_auth.Tlm.Order.{occurs, Distinct}
use zonal_zero_trust_auth.Tlm.Slots.{ended_slot}
use zonal_zero_trust_auth.Tlm.Invariant.{IsValid, active}
use zonal_zero_trust_auth.Tlm.Invariant.Find.{free_found}
use zonal_zero_trust_auth.Tlm.Register.Stages.{
  order_of, in_table, order-admit, slot_at-admit, expire_existing-IsValid,
}
use zonal_zero_trust_auth.Tlm.Register.Evict.{
  popped, oldest, order-popped, oldest-lt, slot_at-evict, evict-IsValid, order-evict,
}
use zonal_zero_trust_auth.Tlm.Register.Outcome.{
  place_cases, register_zero, register_barred, register_placed,
}
use zonal_zero_trust_auth.Tlm.Spec
use zonal_zero_trust_auth.Tlm.Spec.{Session, drop_client, issued}
use zonal_zero_trust_auth.Tlm.Spec.View.{
  session_of, session_at, view, sessions, view_ext, listed-active,
}
use zonal_zero_trust_auth.Tlm.Spec.Capacity.{
  capacity, length-view, expire_existing-sessions, length-sessions-le, sessions-lt, sessions-full,
}

drop_client_nil : (x : ClientId) (l : List Session) → length l ≡ 0 → drop_client x l ≡ l
unfolding keep_if
drop_client_nil x [] h = refl
drop_client_nil x (s ∷ l) h = absurd (omega (arith, h))

-- The session of an admitted token comes last, and no other session changes.
module _ (m : TokenLifecycleManager) (v : IsValid m) (i : ℕ) (h : i < max_active_sessions)
    (idle : active (slot_at m i) ≡ false) (token : SpdmSessionToken) (now : ℕ) where
  sessions-admit : sessions (admit m i token now) ≡ sessions m ++ issued token now ∷ []
  sessions-admit =
      let n = admit m i token now in
      let self : (i == i) ≡ true = ground arith in
      let new : slot_at n i ≡ admitted_slot (slot_at m i) token now =
        slot_at-admit m i token now i (in_table m v i h) ∙ rw self in
      ap (view n) (order-admit m v i token now h idle)
      ∙ map-append (session_at n) (order_of m) (i ∷ [])
      ∙ ap (λ l. l ++ session_at n i ∷ []) (view_ext m n (order_of m) kept)
      ∙ ap (λ s. sessions m ++ session_of s ∷ []) new
    where
      kept : (j : ℕ) → occurs j (order_of m) ≡ true → slot_at (admit m i token now) j ≡ slot_at m j
      kept j o =
          let a = listed-active m v j o in
          let other : (i == j) ≡ false = elim (Bool-cases (i == j)) [
            | inl e ↦
                let aj : active (slot_at m i) ≡ true =
                  ap (λ k. active (slot_at m k)) ((==_iff i j).0 e) ∙ a in
                absurd (cc)
            | inr n ↦ n
          ] in
          slot_at-admit m i token now j (in_table m v i h) ∙ rw other

module _ (token : SpdmSessionToken) (now : ℕ) (id : IsClientId token.client_id) where
  -- The end of `Spec.admit`, once the client has no session.
  abbrev placed : ℕ → List Session → List Session
  placed cap l =
      if cap == 0 then l else (if length l == cap then drop 1 l else l) ++ issued token now ∷ []

  sessions-evicted :
      (m : TokenLifecycleManager) (v : IsValid m) (k : ℕ)
      → find_free_slot m ≡ none
      → m.insertion_order.count ≡ suc k
      → sessions (admit (evict (popped m k) (oldest m)) (oldest m) token now)
        ≡ placed (capacity m) (sessions m)
  sessions-evicted m v k e c =
      let o = oldest m in
      let m2 = evict (popped m k) o in
      let w = evict-IsValid m v k c in
      let h = oldest-lt m v k c in
      let self : (o == o) ≡ true = ground arith in
      let ended : slot_at m2 o ≡ ended_slot (slot_at m o) = slot_at-evict m v k c o ∙ rw self in
      let full = sessions-full m v e in
      let some_room : (capacity m == 0) ≡ false = ground (
        arith,
        length-view m (order_of m),
        length-contents max_active_sessions m.insertion_order,
      ) in
      let at_cap : (length (sessions m) == capacity m) ≡ true = ground arith in
      sessions-admit m2 w o h (ap active ended) token now
      ∙ ap (λ l. l ++ issued token now ∷ [])
          (ap (view m2) (order-evict m v k c)
            ∙ view_ext m m2 (order_of (popped m k)) (kept m v k c)
            ∙ sym (ap (λ q. drop 1 (view m q)) (order-popped m v k c)))
      ∙ rw (some_room, at_cap) refl
    where
      kept :
          (m : TokenLifecycleManager) (v : IsValid m) (k : ℕ) (c : m.insertion_order.count ≡ suc k)
          (j : ℕ)
          → occurs j (order_of (popped m k)) ≡ true
          → slot_at (evict (popped m k) (oldest m)) j ≡ slot_at m j
      kept m v k c j o =
          let distinct : Distinct (oldest m ∷ order_of (popped m k)) =
            subst Distinct (order-popped m v k c) v.table.distinct in
          let other : (oldest m == j) ≡ false = elim (Bool-cases (oldest m == j)) [
            | inl e ↦
                let again : occurs (oldest m) (order_of (popped m k)) ≡ true =
                  ap (λ i. occurs i (order_of (popped m k))) ((==_iff (oldest m) j).0 e) ∙ o in
                absurd (cc distinct.0)
            | inr n ↦ n
          ] in
          slot_at-evict m v k c j ∙ rw other

  sessions-place :
      (m : TokenLifecycleManager)
      → IsValid m
      → sessions (place m token now).1 ≡ placed (capacity m) (sessions m)
  sessions-place m v =
      place_cases token now id m v (λ out. sessions out.1 ≡ placed (capacity m) (sessions m))
        (λ i e.
          let (h, free, _) = free_found m (order_of m) v.table i e in
          let lt = sessions-lt m v i e in
          let some_room : (capacity m == 0) ≡ false = ground arith in
          let below : (length (sessions m) == capacity m) ≡ false = ground arith in
          sessions-admit m v i h (ground arith) token now ∙ rw (some_room, below) refl)
        (λ e c.
          let full = sessions-full m v e in
          let no_room : (capacity m == 0) ≡ true = ground (
            arith,
            length-view m (order_of m),
            length-contents max_active_sessions m.insertion_order,
          ) in
          rw no_room refl)
        (λ k e c. sessions-evicted m v k e c)

  placed-admit :
      (m : TokenLifecycleManager) (v : IsValid m)
      → placed (capacity m) (drop_client token.client_id (sessions m))
        ≡ Spec.admit (capacity m) token now (sessions m)
  unfolding Spec.admit
  placed-admit m v = elim (Bool-cases (capacity m == 0)) [
    | inr n ↦ rw n refl
    | inl z ↦
        let nothing =
          drop_client_nil token.client_id (sessions m)
            (omega (arith, length-sessions-le m v, (==_iff (capacity m) 0).0 z)) in
        rw z nothing
  ]

  -- `RegisterToken` does to the sessions what the abstract table does.
  pub sessions-register_token :
      (m : TokenLifecycleManager)
      → IsValid m
      → sessions (register_token m token now).1
        ≡ Spec.register (is_locked_out m token.client_id) (capacity m) token now (sessions m)
  unfolding Spec.register Spec.admit
  sessions-register_token m v = elim (Bool-cases (is_zero token.client_id)) [
    | inl z ↦ rw (register_zero token now id m z, z) refl
    | inr nz ↦ elim (Bool-cases (is_locked_out m token.client_id)) [
      | inl b ↦ rw (register_barred token now id m nz b, nz, b) refl
      | inr o ↦
          let (dropped, same) = expire_existing-sessions m v token.client_id id o in
          let w = expire_existing-IsValid m v token.client_id id o in
          let last : sessions (place (expire_existing m token.client_id) token now).1
              ≡ Spec.admit (capacity m) token now (sessions m) =
            sessions-place (expire_existing m token.client_id) w
            ∙ ap (λ c. placed c (sessions (expire_existing m token.client_id))) same
            ∙ ap (placed (capacity m)) dropped
            ∙ placed-admit m v in
          rw (register_placed token now id m nz o, nz, o) last
    ]
  ]
