-- ===== src/Tlm/Register/Stages.antt =====
-- The stages of `RegisterToken` one by one: each keeps the invariant.
use native.Mathlib.Nat.{mod-eq_of_lt}
use native.Mathlib.Decide.{dec_lt}
use zonal_zero_trust_auth.Base.{
  ℕ, ◌<◌, ◌≡◌, ◌≢◌, sym, ap, ◌∙◌, [], ◌∷◌, ◌++◌, true, false, none, some, length, set, get_or-set,
  get_or-beyond, count_if-lt, ◌==◌, if◌then◌else◌, arith, Bool-cases, Option-cases, inl, inr,
}
use zonal_zero_trust_auth.Platform.{ClientId, IsClientId}
use zonal_zero_trust_auth.Engine.{SpdmSessionToken}
use zonal_zero_trust_auth.Ring.{to_byte}
use zonal_zero_trust_auth.Ring.Fifo.{Fifo, remove}
use zonal_zero_trust_auth.Ring.Refine.{
  contents, length-contents, remove-IsValid, contents-remove, push-room, pushed-IsValid,
  contents-pushed,
}
use zonal_zero_trust_auth.Tlm.{
  TokenSlot, TokenLifecycleManager, max_active_sessions, empty_slot, slot_at, end_session, admit,
  admitted_slot, expire_existing, find_slot_by_client_id, is_locked_out,
}
use zonal_zero_trust_auth.Tlm.Slots.{ended_slot, end_session_lem}
use zonal_zero_trust_auth.Tlm.Invariant.{
  IsValid, WellFormed, active, is_claimed, ended-WellFormed, admitted-WellFormed,
}
use zonal_zero_trust_auth.Tlm.Invariant.Find.{found, missing, find_claimed, is_locked_out-some}
use mathlib.Core.Path.{subst}

abbrev pub order_of : TokenLifecycleManager → Fifo
order_of m = contents max_active_sessions m.insertion_order

pub byte_index : (i : ℕ) → i < max_active_sessions → to_byte i ≡ i
byte_index i h = mod-eq_of_lt (omega arith)

-- A read of the table after a session was ended.
pub slot_at-end_session :
    (m : TokenLifecycleManager) (i : ℕ) (client_id : ClientId) (j : ℕ)
    → i < length m.session_table
    → slot_at (end_session m i client_id) j
      ≡ (if i == j then ended_slot (slot_at m i) else slot_at m j)
slot_at-end_session m i client_id j h =
    ap (λ (c : TokenLifecycleManager). slot_at c j) (end_session_lem m i h client_id)
    ∙ get_or-set m.session_table i j (ended_slot (slot_at m i)) empty_slot h

module _ (m : TokenLifecycleManager) (v : IsValid m) where
  abbrev pub wf : WellFormed m.session_table (order_of m)
  wf = v.table

  pub in_table : (i : ℕ) → i < max_active_sessions → i < length m.session_table
  in_table i h = omega (arith, wf.size)

  pub claimed_bound : (i : ℕ) → is_claimed (slot_at m i) ≡ true → i < max_active_sessions
  claimed_bound i c = elim (dec_lt i max_active_sessions) [
    | yes h ↦ h
    | no h ↦
        let out = get_or-beyond m.session_table i empty_slot (omega (arith, wf.size)) in
        let never : false ≡ true = subst (λ (s : TokenSlot). is_claimed s ≡ true) out c in
        absurd (cc)
  ]

  pub order-end_session :
      (i : ℕ) (client_id : ClientId)
      → i < max_active_sessions
      → order_of (end_session m i client_id) ≡ remove (order_of m) i
  order-end_session i client_id h =
      ap order_of (end_session_lem m i (in_table i h) client_id)
      ∙ contents-remove max_active_sessions m.insertion_order i v.ring
      ∙ ap (remove (order_of m)) (byte_index i h)

  pub end_session-IsValid :
      (i : ℕ) (client_id : ClientId) → i < max_active_sessions → IsValid (end_session m i client_id)
  end_session-IsValid i client_id h = rw (end_session_lem m i (in_table i h) client_id) (record {
    ring = remove-IsValid max_active_sessions m.insertion_order i v.ring;
    table =
        subst (WellFormed (set m.session_table i (ended_slot (slot_at m i))))
          (sym (
            contents-remove max_active_sessions m.insertion_order i v.ring
            ∙ ap (remove (order_of m)) (byte_index i h)))
          (ended-WellFormed m.session_table (order_of m) wf i h);
  })

  -- There is room in the order while some slot has no session.
  pub room :
      (i : ℕ)
      → i < max_active_sessions
      → active (slot_at m i) ≡ false
      → m.insertion_order.count < max_active_sessions
  room i h idle = omega (
    arith,
    length-contents max_active_sessions m.insertion_order,
    wf.counted,
    count_if-lt active empty_slot m.session_table i (in_table i h) idle,
    wf.size,
  )

  pub admit-IsValid :
      (i : ℕ) (token : SpdmSessionToken) (now : ℕ)
      → i < max_active_sessions
      → IsClientId token.client_id
      → is_claimed (slot_at m i) ≡ false
      → ((j : ℕ) → j < i → token.client_id ≢ (slot_at m j).client_id)
      → ((k : ℕ)
          → i < k
          → is_claimed (slot_at m k) ≡ true
          → (slot_at m k).client_id ≢ token.client_id)
      → IsValid (admit m i token now)
  unfolding admit
  admit-IsValid i token now h id free before after =
      let idle : active (slot_at m i) ≡ false = ground arith in
      let space = room i h idle in
      rw (push-room max_active_sessions m.insertion_order i v.ring space) (record {
        ring = pushed-IsValid max_active_sessions m.insertion_order i v.ring space;
        table =
            subst (WellFormed (set m.session_table i (admitted_slot (slot_at m i) token now)))
              (sym (
                contents-pushed max_active_sessions m.insertion_order i v.ring space
                ∙ ap (λ x. order_of m ++ x ∷ []) (byte_index i h)))
              (admitted-WellFormed m.session_table (order_of m) wf i h token now id free before
                after);
      })

-- A read of the table after an admission.
pub slot_at-admit :
    (m : TokenLifecycleManager) (i : ℕ) (token : SpdmSessionToken) (now j : ℕ)
    → i < length m.session_table
    → slot_at (admit m i token now) j
      ≡ (if i == j then admitted_slot (slot_at m i) token now else slot_at m j)
unfolding admit
slot_at-admit m i token now j h =
    get_or-set m.session_table i j (admitted_slot (slot_at m i) token now) empty_slot h

-- An admission puts the index at the end of the order.
pub order-admit :
    (m : TokenLifecycleManager) (v : IsValid m) (i : ℕ) (token : SpdmSessionToken) (now : ℕ)
    → i < max_active_sessions
    → active (slot_at m i) ≡ false
    → order_of (admit m i token now) ≡ order_of m ++ i ∷ []
unfolding admit
order-admit m v i token now h idle =
    let space = room m v i h idle in
    rw (push-room max_active_sessions m.insertion_order i v.ring space) (
      contents-pushed max_active_sessions m.insertion_order i v.ring space
      ∙ ap (λ x. order_of m ++ x ∷ []) (byte_index i h))

-- No live or locked slot holds the identifier.
abbrev pub Unclaimed : TokenLifecycleManager → ClientId → Type 0
Unclaimed m x = (k : ℕ) → is_claimed (slot_at m k) ≡ true → (slot_at m k).client_id ≢ x

module _ (m : TokenLifecycleManager) (v : IsValid m) (x : ClientId) (hx : IsClientId x)
    (open_id : is_locked_out m x ≡ false) where
  claimed_found :
      (k : ℕ)
      → is_claimed (slot_at m k) ≡ true
      → (slot_at m k).client_id ≡ x
      → find_slot_by_client_id m x ≡ some k
  claimed_found k c e =
      subst (λ (y : ClientId). find_slot_by_client_id m y ≡ some k) e
        (find_claimed m (order_of m) v.table k (claimed_bound m v k c) c)

  only_found :
      (i k : ℕ)
      → find_slot_by_client_id m x ≡ some i
      → is_claimed (slot_at m k) ≡ true
      → (slot_at m k).client_id ≡ x
      → i ≡ k
  only_found i k e c q = ground (arith, claimed_found k c q)

  unlocked : (i : ℕ) → find_slot_by_client_id m x ≡ some i → (slot_at m i).is_locked_out ≡ false
  unlocked i e = sym (is_locked_out-some m x i e) ∙ open_id

  -- What the refresh path does, by cases.
  pub expire_existing_cases {ℓ} :
      (P : TokenLifecycleManager → Type ℓ)
      → (find_slot_by_client_id m x ≡ none → P m)
      → ((i : ℕ) → find_slot_by_client_id m x ≡ some i → (slot_at m i).is_active ≡ false → P m)
      → ((i : ℕ)
          → find_slot_by_client_id m x ≡ some i
          → (slot_at m i).is_active ≡ true
          → P (end_session m i x))
      → P (expire_existing m x)
  unfolding expire_existing
  expire_existing_cases P absent idle live = elim (Option-cases (find_slot_by_client_id m x)) [
    | inl e ↦ rw (e, expire_existing) (absent e)
    | inr (i, e) ↦ elim (Bool-cases (slot_at m i).is_active) [
      | inl a ↦ rw (e, expire_existing) (rw a (live i e a))
      | inr n ↦ rw (e, expire_existing) (rw n (idle i e n))
    ]
  ]

  pub expire_existing-IsValid : IsValid (expire_existing m x)
  expire_existing-IsValid =
      expire_existing_cases IsValid (λ e. v) (λ i e a. v)
        (λ i e a. end_session-IsValid m v i x ((found m (order_of m) v.table x i hx e).0))

  -- After the refresh path no live or locked slot holds the identifier of a client that is not barred.
  pub expire_existing-Unclaimed : Unclaimed (expire_existing m x) x
  expire_existing-Unclaimed =
      expire_existing_cases (λ c. Unclaimed c x) (λ e k c q. absent e k c q)
        (λ i e a k c q. idle i e a k c q)
        (λ i e a k.
          subst (λ (s : TokenSlot). is_claimed s ≡ true → s.client_id ≢ x)
            (sym (
              slot_at-end_session m i x k
                (in_table m v i ((found m (order_of m) v.table x i hx e).0))))
            (live i e k))
    where
      absent :
          find_slot_by_client_id m x ≡ none
          → (k : ℕ) → is_claimed (slot_at m k) ≡ true
          → (slot_at m k).client_id ≢ x
      absent e k c q = missing m (order_of m) v.table x e k (claimed_bound m v k c) q

      idle :
          (i : ℕ)
          → find_slot_by_client_id m x ≡ some i
          → (slot_at m i).is_active ≡ false
          → (k : ℕ) → is_claimed (slot_at m k) ≡ true
          → (slot_at m k).client_id ≢ x
      idle i e a k c q =
          let free : is_claimed (slot_at m i) ≡ false = ground (arith, unlocked i e) in
          let taken : is_claimed (slot_at m i) ≡ true =
            subst (λ (n : ℕ). is_claimed (slot_at m n) ≡ true) (sym (only_found i k e c q)) c in
          absurd (cc)

      live :
          (i : ℕ)
          → find_slot_by_client_id m x ≡ some i
          → (k : ℕ)
          → let s = (if i == k then ended_slot (slot_at m i) else slot_at m k) in
            is_claimed s ≡ true → s.client_id ≢ x
      live i e k = elim (Bool-cases (i == k)) [
        | inl same ↦ rw same (λ c q. ground (arith, unlocked i e))
        | inr other ↦ rw other (λ c q. ground (arith, only_found i k e c q))
      ]
