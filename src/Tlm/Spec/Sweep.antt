-- ===== src/Tlm/Spec/Sweep.antt =====
-- The sweep on the abstract table: the order keeps exactly the sessions that are young enough.
use zonal_zero_trust_auth.Base.{
  ℕ, zero, suc, ◌≤◌, ◌≡◌, refl, sym, ap, ◌∙◌, List, [], ◌∷◌, Bool, true, false, not, ◌&&◌, ◌==◌,
  keep_if, arith, Bool-cases, inl, inr, ltb, ==_iff,
}
use zonal_zero_trust_auth.Ring.Fifo.{Fifo, remove}
use zonal_zero_trust_auth.Tlm.{
  TokenLifecycleManager, max_active_sessions, slot_at, expiry_rounds, evaluate_token_expiry,
}
use zonal_zero_trust_auth.Tlm.Order.{occurs}
use zonal_zero_trust_auth.Tlm.Invariant.{IsValid}
use zonal_zero_trust_auth.Tlm.Register.Stages.{order_of, order-end_session}
use zonal_zero_trust_auth.Tlm.Expiry.{is_stale, round_cases, rounds-Sweeping, same_slot}
use zonal_zero_trust_auth.Tlm.Spec.{Session, is_old}
use zonal_zero_trust_auth.Tlm.Spec.View.{
  session_at, view, sessions, view_ext, Agree, listed-active, listed_lt,
}

-- Removing an index keeps the others.
remove-keep_if : (i : ℕ) (q : Fifo) → remove q i ≡ keep_if (λ j. not (j == i)) q
unfolding remove keep_if
remove-keep_if i [] = refl
remove-keep_if i (j ∷ q) = ground (arith, remove-keep_if i q)

module _ {ℓ} {A : Type ℓ} where
  keep_if-keep_if :
      (p r : A → Bool) (q : List A) → keep_if p (keep_if r q) ≡ keep_if (λ j. r j && p j) q
  unfolding keep_if
  keep_if-keep_if p r [] = refl
  keep_if-keep_if p r (j ∷ q) = elim (Bool-cases (r j)) [
    | inr n ↦ rw (n, keep_if-keep_if p r q)
    | inl y ↦ elim (Bool-cases (p j)) [
      | inl z ↦ rw (y, z, keep_if-keep_if p r q)
      | inr z ↦ rw (y, z, keep_if-keep_if p r q)
    ]
  ]

  keep_if_all : (q : List A) → keep_if (λ j. true) q ≡ q
  unfolding keep_if
  keep_if_all [] = refl
  keep_if_all (j ∷ q) = rw (keep_if_all q)

keep_if_congr : (p r : ℕ → Bool) (q : Fifo) → Agree q p r → keep_if p q ≡ keep_if r q
unfolding keep_if
keep_if_congr p r [] h = refl
keep_if_congr p r (j ∷ q) h =
    let head : p j ≡ r j = h j (ground arith) in
    let tail = keep_if_congr p r q (λ k o. h k (ground arith)) in rw (head, tail)

keep_if_ext : (p r : ℕ → Bool) (q : Fifo) → ((j : ℕ) → p j ≡ r j) → keep_if p q ≡ keep_if r q
keep_if_ext p r q h = keep_if_congr p r q (λ j o. h j)

view-keep_if :
    (m : TokenLifecycleManager) (p : Session → Bool) (q : Fifo)
    → view m (keep_if (λ j. p (session_at m j)) q) ≡ keep_if p (view m q)
unfolding keep_if
view-keep_if m p [] = refl
view-keep_if m p (j ∷ q) = elim (Bool-cases (p (session_at m j))) [
  | inl y ↦ rw (y, view-keep_if m p q)
  | inr n ↦ rw (n, view-keep_if m p q)
]

occurs-keep_if :
    (p : ℕ → Bool) (j : ℕ) (q : Fifo)
    → occurs j (keep_if p q) ≡ true
    → (p j ≡ true) × (occurs j q ≡ true)
unfolding keep_if
occurs-keep_if p j [] o = cc
occurs-keep_if p j (i ∷ q) o = elim (Bool-cases (i == j)) [
  | inl e ↦ elim (Bool-cases (p i)) [
    | inl y ↦ (ap p (sym ((==_iff i j).0 e)) ∙ y, rw e)
    | inr n ↦ let (a, b) = occurs-keep_if p j q (rw n at o) in (a, rw e)
  ]
  | inr d ↦ elim (Bool-cases (p i)) [
    | inl y ↦ let (a, b) = occurs-keep_if p j q (rw d at (rw y at o)) in (a, rw d b)
    | inr n ↦ let (a, b) = occurs-keep_if p j q (rw n at o) in (a, rw d b)
  ]
]

module _ (now : ℕ) (m : TokenLifecycleManager) (v : IsValid m) where
  -- Whether an index is still in the order after `k` rounds.
  abbrev stays : ℕ → ℕ → Bool
  stays k j = not (ltb j k && is_stale now (slot_at m j))

  stays-zero : (j : ℕ) → true ≡ stays zero j
  stays-zero j = ground arith

  stays_fresh : (k : ℕ) → is_stale now (slot_at m k) ≡ false → (j : ℕ) → stays k j ≡ stays (suc k) j
  stays_fresh k f j = elim (Bool-cases (j == k)) [ inl e ↦ ground arith | inr n ↦ ground arith ]

  stays_stale :
      (k : ℕ)
      → is_stale now (slot_at m k) ≡ true
      → (j : ℕ) → (stays k j && not (j == k)) ≡ stays (suc k) j
  stays_stale k s j = elim (Bool-cases (j == k)) [ inl e ↦ ground arith | inr n ↦ ground arith ]

  order-rounds :
      (k : ℕ)
      → k ≤ max_active_sessions
      → order_of (expiry_rounds now m k) ≡ keep_if (stays k) (order_of m)
  unfolding expiry_rounds
  order-rounds zero h =
      sym (keep_if_all (order_of m)) ∙ keep_if_ext (λ j. true) (stays zero) (order_of m) stays-zero
  order-rounds (suc k) h =
      let r = expiry_rounds now m k in
      let s = rounds-Sweeping now m v k (omega arith) in
      let same = same_slot now m k r (omega arith) s in
      let before = order-rounds k (omega arith) in
      round_cases now r k (λ c. order_of c ≡ keep_if (stays (suc k)) (order_of m))
        (λ fresh.
          before
          ∙ keep_if_ext (stays k) (stays (suc k)) (order_of m)
              (stays_fresh k (ap (is_stale now) (sym same) ∙ fresh)))
        (λ stale.
          order-end_session r s.valid k (slot_at r k).client_id (omega arith)
          ∙ remove-keep_if k (order_of r)
          ∙ ap (keep_if (λ j. not (j == k))) before
          ∙ keep_if-keep_if (λ j. not (j == k)) (stays k) (order_of m)
          ∙ keep_if_ext (λ j. stays k j && not (j == k)) (stays (suc k)) (order_of m)
              (stays_stale k (ap (is_stale now) (sym same) ∙ stale)))

  -- A listed index stays exactly if its session is young enough.
  stays-young :
      Agree (order_of m) (stays max_active_sessions) (λ j. not (is_old now (session_at m j)))
  stays-young j o =
      let a = listed-active m v j o in
      let h = listed_lt m v j o in
      let inside : ltb j max_active_sessions ≡ true = ground arith in rw (inside, a)

  -- The sweep leaves the young sessions, in their order.
  pub sessions-evaluate_token_expiry :
      sessions (evaluate_token_expiry m now) ≡ keep_if (λ s. not (is_old now s)) (sessions m)
  unfolding evaluate_token_expiry
  sessions-evaluate_token_expiry =
      let n = expiry_rounds now m max_active_sessions in
      let p = λ (j : ℕ). not (is_old now (session_at m j)) in
      let order : order_of n ≡ keep_if p (order_of m) =
        order-rounds max_active_sessions (omega arith)
        ∙ keep_if_congr (stays max_active_sessions) p (order_of m) stays-young in
      ap (view n) order
      ∙ view_ext m n (keep_if p (order_of m)) kept
      ∙ view-keep_if m (λ s. not (is_old now s)) (order_of m)
    where
      kept :
          (j : ℕ)
          → occurs j (keep_if (λ (j : ℕ). not (is_old now (session_at m j))) (order_of m)) ≡ true
          → slot_at (expiry_rounds now m max_active_sessions) j ≡ slot_at m j
      kept j o =
          let (young, listed) =
            occurs-keep_if (λ (j : ℕ). not (is_old now (session_at m j))) j (order_of m) o in
          let h = listed_lt m v j listed in
          let inside : ltb j max_active_sessions ≡ true = ground arith in
          let fresh : is_stale now (slot_at m j) ≡ false = ground arith in
          (rounds-Sweeping now m v max_active_sessions (omega arith)).slots j ∙ rw inside (rw fresh)
