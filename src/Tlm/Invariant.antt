-- ===== src/Tlm/Invariant.antt =====
-- The invariant that ties the session table to the eviction order, and the three table updates that
-- keep it: ending a session, counting an anomaly, admitting a token.
pub mod Find
use zonal_zero_trust_auth.Base.{
  ℕ, suc, ◌+◌, ◌^◌, ◌≤◌, ◌<◌, ◌≡◌, ◌≢◌, refl, sym, ap, ◌∙◌, List, [], ◌∷◌, ◌++◌, Bool, true, false,
  not, ◌&&◌, ◌||◌, length, get_or, set, get_or-set, length-set, count_if, count_if-set, bit, leb,
  ◌==◌, if◌then◌else◌, arith, Bool-cases, inl, inr, length-append, ==_iff,
}
use zonal_zero_trust_auth.Platform.{IsClientId, IsArray, zeros, nonce_len, session_key_len}
use zonal_zero_trust_auth.Ring
use zonal_zero_trust_auth.Ring.Fifo.{Fifo, remove}
use zonal_zero_trust_auth.Ring.Refine.{contents}
use zonal_zero_trust_auth.Engine.{SpdmSessionToken}
use zonal_zero_trust_auth.Tlm.{
  TokenSlot, TokenLifecycleManager, max_active_sessions, max_anomaly_count, empty_slot,
  admitted_slot, count_anomaly,
}
use zonal_zero_trust_auth.Tlm.Order.{
  occurs, Distinct, occurs-remove, occurs-append, remove-Distinct, append-Distinct,
  length-remove-Distinct,
}
use zonal_zero_trust_auth.Tlm.Slots.{ended_slot}

abbrev pub at : List TokenSlot → ℕ → TokenSlot
at table i = get_or table i empty_slot

abbrev pub active : TokenSlot → Bool
active slot = slot.is_active

-- A slot that belongs to its identifier: a live session or a lockout.
abbrev pub is_claimed : TokenSlot → Bool
is_claimed slot = slot.is_active || slot.is_locked_out

-- No secret is left in a slot without a session.
pub record IsErased (slot : TokenSlot) : Type 0 where
  pub key : slot.session_key ≡ zeros session_key_len
  pub nonce : slot.session_nonce ≡ zeros nonce_len
  pub issued : slot.issued_at_ms ≡ 0
  pub seen : slot.last_seen_ms ≡ 0

pub record IsSound (slot : TokenSlot) : Type 0 where
  pub id : IsClientId slot.client_id
  pub erased : slot.is_active ≡ false → IsErased slot
  pub idle : slot.is_locked_out ≡ true → slot.is_active ≡ false
  pub threshold : slot.is_locked_out ≡ leb max_anomaly_count slot.anomaly_count
  pub byte : slot.anomaly_count ≤ 255

-- The order lists exactly the indices of the live sessions, each once, and a claimed slot is the first
-- one with its identifier.
pub record WellFormed (table : List TokenSlot) (order : Fifo) : Type 0 where
  pub size : length table ≡ max_active_sessions
  pub slots : (i : ℕ) → IsSound (at table i)
  pub first :
      (i j : ℕ)
      → j < i
      → is_claimed (at table i) ≡ true
      → (at table i).client_id ≢ (at table j).client_id
  pub listed : (i : ℕ) → occurs i order ≡ active (at table i)
  pub counted : length order ≡ count_if active table
  pub distinct : Distinct order

pub record IsValid (m : TokenLifecycleManager) : Type 0 where
  pub ring : Ring.Refine.IsValid max_active_sessions m.insertion_order
  pub table : WellFormed m.session_table (contents max_active_sessions m.insertion_order)

module _ (table : List TokenSlot) (order : Fifo) (w : WellFormed table order) (i : ℕ)
    (v : TokenSlot) (h : i < max_active_sessions) where
  at-set : (j : ℕ) → at (set table i v) j ≡ (if i == j then v else at table j)
  at-set j = get_or-set table i j v empty_slot (omega (arith, w.size))

  -- What an update of one slot has to bring along.
  pub update-WellFormed :
      (order' : Fifo)
      → IsSound v
      → (is_claimed v ≡ true → (j : ℕ) → j < i → v.client_id ≢ (at table j).client_id)
      → ((k : ℕ) → i < k → is_claimed (at table k) ≡ true → (at table k).client_id ≢ v.client_id)
      → ((j : ℕ) → occurs j order' ≡ (if i == j then active v else occurs j order))
      → length order' + bit (active (at table i)) ≡ length order + bit (active v)
      → Distinct order'
      → WellFormed (set table i v) order'
  update-WellFormed order' sound before after listed counted distinct = record {
    size = length-set table i v ∙ w.size;
    slots = λ j. rw (at-set j) (slot_case j);
    first = λ k j jk. first_case k j jk;
    listed = λ j. listed j ∙ (rw (at-set j) (listed_case j));
    counted = omega (
      arith,
      counted,
      w.counted,
      count_if-set active empty_slot table i v (omega (arith, w.size)),
    );
    distinct = distinct;
  }
    where
      slot_case : (j : ℕ) → IsSound (if i == j then v else at table j)
      slot_case j = elim (Bool-cases (i == j)) [ inl e ↦ rw e sound | inr n ↦ rw n (w.slots j) ]

      listed_case :
          (j : ℕ)
          → (if i == j then active v else occurs j order)
            ≡ active (if i == j then v else at table j)
      listed_case j = elim (Bool-cases (i == j)) [ inl e ↦ rw e | inr n ↦ rw n (w.listed j) ]

      first_case :
          (k j : ℕ)
          → j < k
          → is_claimed (at (set table i v) k) ≡ true
          → (at (set table i v) k).client_id ≢ (at (set table i v) j).client_id
      first_case k j jk = elim (Bool-cases (i == k)) [
        | inl ek ↦
            let same : i ≡ k = (==_iff i k).0 ek in
            let nj : (i == j) ≡ false = ground arith in
            rw (at-set k, at-set j, ek, nj) (λ c. before c j (omega arith))
        | inr nk ↦ elim (Bool-cases (i == j)) [
          | inl ej ↦
              let same : i ≡ j = (==_iff i j).0 ej in
              rw (at-set k, at-set j, nk, ej) (λ c. after k (omega arith) c)
          | inr nj ↦ rw (at-set k, at-set j, nk, nj) (w.first k j jk)
        ]
      ]

  -- A slot that keeps its identifier and its session flag, and becomes claimed only if it may, leaves
  -- the order as it is.
  pub amend-WellFormed :
      IsSound v
      → v.client_id ≡ (at table i).client_id
      → active v ≡ active (at table i)
      → (is_claimed v ≡ true → (j : ℕ) → j < i → v.client_id ≢ (at table j).client_id)
      → WellFormed (set table i v) order
  amend-WellFormed sound id same before =
      update-WellFormed order sound before (λ k ik c e. w.first k i ik c (e ∙ id))
        (λ j. listed_case j) (rw same) w.distinct
    where
      listed_case : (j : ℕ) → occurs j order ≡ (if i == j then active v else occurs j order)
      listed_case j = elim (Bool-cases (i == j)) [
        | inl e ↦ rw e (ap (λ k. occurs k order) (sym ((==_iff i j).0 e)) ∙ w.listed i ∙ sym same)
        | inr n ↦ rw n
      ]

-- Counting an anomaly touches the counter and the lockout flag only.
pub count_anomaly_frame :
    (slot : TokenSlot) (is_anomaly : Bool)
    → let counted = count_anomaly slot is_anomaly in
      (counted.client_id ≡ slot.client_id) × (counted.is_active ≡ slot.is_active)
unfolding count_anomaly
count_anomaly_frame slot is_anomaly = ground arith

revoked-IsSound :
    (slot : TokenSlot) (is_anomaly : Bool)
    → IsSound slot
    → IsSound (ended_slot (count_anomaly slot is_anomaly))
unfolding count_anomaly
revoked-IsSound slot is_anomaly s = record {
  id = rw ((count_anomaly_frame slot is_anomaly).0) s.id;
  erased = λ e. record { key = refl; nonce = refl; issued = refl; seen = refl };
  idle = λ e. refl;
  threshold = ground (arith, s.threshold);
  byte = ground (arith, s.byte);
}

module _ (table : List TokenSlot) (order : Fifo) (w : WellFormed table order) (i : ℕ)
    (h : i < max_active_sessions) where
  ended-IsSound : IsSound (ended_slot (at table i))
  ended-IsSound =
      let s = w.slots i in
      record {
        id = s.id;
        erased = λ e. record { key = refl; nonce = refl; issued = refl; seen = refl };
        idle = λ e. refl;
        threshold = s.threshold;
        byte = s.byte;
      }

  -- Ending the session of a slot, live or not.
  pub ended-WellFormed : WellFormed (set table i (ended_slot (at table i))) (remove order i)
  ended-WellFormed =
      update-WellFormed table order w i (ended_slot (at table i)) h (remove order i) ended-IsSound
        (λ c j ji. w.first i j ji (ground (arith, c))) (λ k ik c. w.first k i ik c)
        (λ j. occurs-remove i j order)
        (omega (arith, length-remove-Distinct i order w.distinct, ap bit (w.listed i)))
        (remove-Distinct i order w.distinct)

  -- Admitting a token into a slot that is free, when no earlier slot and no claimed slot has its
  -- identifier.
  pub admitted-WellFormed :
      (token : SpdmSessionToken) (now : ℕ)
      → IsClientId token.client_id
      → is_claimed (at table i) ≡ false
      → ((j : ℕ) → j < i → token.client_id ≢ (at table j).client_id)
      → ((k : ℕ)
          → i < k
          → is_claimed (at table k) ≡ true
          → (at table k).client_id ≢ token.client_id)
      → WellFormed (set table i (admitted_slot (at table i) token now)) (order ++ i ∷ [])
  admitted-WellFormed token now id free before after =
      let s = w.slots i in
      let idle : active (at table i) ≡ false = ground arith in
      let open_slot : (at table i).is_locked_out ≡ false = ground arith in
      update-WellFormed table order w i (admitted_slot (at table i) token now) h (order ++ i ∷ [])
        (record {
          id = id;
          erased = λ e. cc;
          idle = λ e. cc;
          threshold = s.threshold;
          byte = s.byte;
        })
        (λ c j ji. before j ji) after (λ j. occurs-append j i order)
        (omega (arith, length-append order (i ∷ []), ap bit idle))
        (append-Distinct i order w.distinct (w.listed i ∙ idle))

  -- Revoking the first slot with its identifier, with or without an anomaly.
  pub revoked-WellFormed :
      (is_anomaly : Bool)
      → ((j : ℕ) → j < i → (at table i).client_id ≢ (at table j).client_id)
      → WellFormed
          (set table i (ended_slot (count_anomaly (at table i) is_anomaly)))
          (remove order i)
  revoked-WellFormed is_anomaly before =
      let same = (count_anomaly_frame (at table i) is_anomaly).0 in
      update-WellFormed table order w i (ended_slot (count_anomaly (at table i) is_anomaly)) h
        (remove order i) (revoked-IsSound (at table i) is_anomaly (w.slots i))
        (λ c j ji. rw same (before j ji)) (λ k ik c. rw same (w.first k i ik c))
        (λ j. occurs-remove i j order)
        (omega (arith, length-remove-Distinct i order w.distinct, ap bit (w.listed i)))
        (remove-Distinct i order w.distinct)
