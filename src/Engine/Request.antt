-- ===== src/Engine/Request.antt =====
-- `ProcessAuthRequest`: its six outcomes, each with its condition.
use zonal_zero_trust_auth.Base.{
  ℕ, zero, suc, ◌≡◌, ◌≢◌, ◌⊎◌, ◌↔◌, inl, inr, refl, sym, List, [], ◌∷◌, true, false, Option, none,
  some, length, take, All, ◌==◌, ==_iff, arith, Bool-cases, Option-cases,
}
use zonal_zero_trust_auth.Platform.{
  Bytes, ClientId, IsClientId, CryptoStatus, CryptoPlatform, client_id_len,
}
use zonal_zero_trust_auth.ConstantTime.{same_bytes, same_bytes_iff}
use zonal_zero_trust_auth.Engine.{
  SpdmProtocolEngine, SpdmAuthRequest, SpdmStatus, State, KnownPeerEntry, Requested, find_key,
  find_peer_public_key, process_auth_request, issue_challenge, version_matches, supported_version,
  is_unauthenticated, is_authenticated, crypto_ok,
}

-- The comparison loop decides equality of two arrays of one size.
version_matches_iff :
    (xs ys : Bytes) → length xs ≡ length ys → (version_matches xs ys ≡ true) ↔ (xs ≡ ys)
unfolding version_matches
version_matches_iff [] [] h = (λ t. refl, λ e. refl)
version_matches_iff [] (y ∷ ys) h = absurd (omega arith)
version_matches_iff (x ∷ xs) [] h = absurd (omega arith)
version_matches_iff (x ∷ xs) (y ∷ ys) h =
    let (to, from) = version_matches_iff xs ys (omega arith) in
    elim (Bool-cases (x == y)) [
      | inl t ↦ rw t (λ m. let q = (==_iff x y).0 t in let r = to m in cc, λ e. from (cc))
      | inr f ↦
          rw f
            (λ m. absurd (cc), λ e. let q : x ≡ y = cc in let d = (==_iff x y).1 q in absurd (cc))
    ]

-- One of the first entries of the table has the identifier.
abbrev pub Lists : ClientId → ℕ → List KnownPeerEntry → Type 0
Lists x zero entries = ⊥
Lists x (suc n) [] = ⊥
Lists x (suc n) (entry ∷ entries) = (entry.client_id ≡ x) ⊎ Lists x n entries

abbrev pub ListsAny : ClientId → ℕ → Option (List KnownPeerEntry) → Type 0
ListsAny x n none = ⊥
ListsAny x n (some entries) = Lists x n entries

-- The entries hold identifiers.
abbrev pub IsTable : Option (List KnownPeerEntry) → Type 0
IsTable none = Unit
IsTable (some entries) = All (λ (entry : KnownPeerEntry). IsClientId entry.client_id) entries

find_key_iff :
    (x : ClientId) (n : ℕ) (entries : List KnownPeerEntry)
    → IsClientId x
    → IsTable (some entries)
    → (find_key x (take n entries) ≢ none) ↔ Lists x n entries
unfolding find_key
find_key_iff x zero entries hx h = (λ k. k refl, λ l. absurd l)
find_key_iff x (suc n) [] hx h = (λ k. k refl, λ l. absurd l)
find_key_iff x (suc n) (entry ∷ entries) hx h =
    let (to, from) = find_key_iff x n entries hx h.1 in
    let decides = same_bytes_iff client_id_len x entry.client_id hx h.0 in
    elim (Bool-cases (same_bytes x entry.client_id)) [
      | inl t ↦ rw t (λ k. inl (sym (decides.0 t)), λ l e. cc)
      | inr f ↦ rw f (
        λ k. inr (to k),
        λ l. elim l [
          | inl own ↦ absurd (let d = decides.1 (sym own) in cc)
          | inr later ↦ from later
        ],
      )
    ]

-- A peer of the table: one of its first `peer_count` entries has the identifier.
abbrev pub IsKnown : SpdmProtocolEngine → ClientId → Type 0
IsKnown e x = ListsAny x e.peer_count e.peer_table

find_peer_public_key_iff :
    (e : SpdmProtocolEngine) (x : ClientId)
    → IsClientId x
    → IsTable e.peer_table
    → (find_peer_public_key e x ≢ none) ↔ IsKnown e x
unfolding find_peer_public_key
find_peer_public_key_iff e x hx h = known e.peer_table h
  where
    known :
        (table : Option (List KnownPeerEntry))
        → IsTable table
        → (find_peer_public_key (record e { peer_table = table }) x ≢ none)
          ↔ ListsAny x e.peer_count table
    known none t = (λ k. k refl, λ l. absurd l)
    known (some entries) t = find_key_iff x e.peer_count entries hx t

module _ (p : CryptoPlatform) where
  -- The six outcomes of a request.
  abbrev pub Answered : SpdmProtocolEngine → SpdmAuthRequest → p.State → Requested p.State → Type 0
  Answered e request s out =
      let (rng_status, nonce, s') = p.generate_random_nonce s e.pending_nonce in
      let refused : SpdmStatus → Requested p.State =
        λ st. record { status = st; engine = e; platform = s } in
      (e.state ≡ State.authenticated) × (out ≡ refused SpdmStatus.already_authenticated)
      ⊎ (e.state ≢ State.authenticated)
        × (e.state ≢ State.unauthenticated)
        × (out ≡ refused SpdmStatus.invalid_state)
      ⊎ (e.state ≡ State.unauthenticated)
        × (request.version ≢ supported_version)
        × (out ≡ refused SpdmStatus.version_mismatch)
      ⊎ (e.state ≡ State.unauthenticated)
        × (request.version ≡ supported_version)
        × (¬ IsKnown e request.client_id)
        × (out ≡ refused SpdmStatus.signature_invalid)
      ⊎ (e.state ≡ State.unauthenticated)
        × (request.version ≡ supported_version)
        × IsKnown e request.client_id
        × (rng_status ≢ CryptoStatus.ok)
        × (out ≡ record {
          status = SpdmStatus.crypto_error;
          engine = record e { pending_nonce = nonce };
          platform = s';
        })
      ⊎ (e.state ≡ State.unauthenticated)
        × (request.version ≡ supported_version)
        × IsKnown e request.client_id
        × (rng_status ≡ CryptoStatus.ok)
        × (out ≡ record {
          status = SpdmStatus.ok;
          engine = record e {
            pending_nonce = nonce;
            pending_client_id = request.client_id;
            state = State.challenge_sent;
          };
          platform = s';
        })

  module _ (e : SpdmProtocolEngine) (request : SpdmAuthRequest) (s : p.State) where
    out_of_turn :
        is_unauthenticated e.state ≡ false
        → Answered e request s (process_auth_request p e request s)
    unfolding process_auth_request
    out_of_turn n = elim (Bool-cases (is_authenticated e.state)) [
      | inl a ↦ rw (n, a) (inl (ground arith, refl))
      | inr b ↦ rw (n, b) (inr (inl (ground arith, ground arith, refl)))
    ]

    issued :
        e.state ≡ State.unauthenticated
        → request.version ≡ supported_version
        → IsKnown e request.client_id
        → Answered e request s (issue_challenge p e request s)
    unfolding issue_challenge
    issued u v k =
        let drawn = p.generate_random_nonce s e.pending_nonce in
        elim (Bool-cases (crypto_ok drawn.0)) [
          | inl good ↦ rw good (inr (inr (inr (inr (inr (u, v, k, ground arith, refl))))))
          | inr bad ↦ rw bad (inr (inr (inr (inr (inl (u, v, k, ground arith, refl))))))
        ]

    -- For a request with a version of four bytes, and identifiers of eight bytes in the request and
    -- in the peer table, `ProcessAuthRequest` gives exactly these outcomes. An engine that is
    -- authenticated answers kAlreadyAuthenticated and one that is neither that nor unauthenticated
    -- kInvalidState; else a version other than the supported one gets kVersionMismatch, and a peer
    -- that is not among the first `peer_count` entries of the table kSignatureInvalid, all with
    -- nothing changed; else a platform that draws no nonce gets kCryptoError, with the state and the
    -- pending identifier as they were; else the answer is kOk, the nonce drawn and the peer's
    -- identifier are latched, and the engine awaits a response.
    pub process_auth_request_lem :
        length request.version ≡ length supported_version
        → IsClientId request.client_id
        → IsTable e.peer_table
        → Answered e request s (process_auth_request p e request s)
    unfolding process_auth_request
    process_auth_request_lem size hx ht =
        let version = version_matches_iff request.version supported_version size in
        let known = find_peer_public_key_iff e request.client_id hx ht in
        elim (Bool-cases (is_unauthenticated e.state)) [
          | inr n ↦ out_of_turn n
          | inl u ↦
              let idle : e.state ≡ State.unauthenticated = ground arith in
              elim (Bool-cases (version_matches request.version supported_version)) [
                | inr f ↦
                    let other : request.version ≢ supported_version =
                      λ q. let m = version.1 q in cc in
                    rw (u, f) (inr (inr (inl (idle, other, refl))))
                | inl t ↦ elim (Option-cases (find_peer_public_key e request.client_id)) [
                  | inl absent ↦
                      rw (u, t, absent, process_auth_request)
                        (inr (inr (inr (inl (idle, version.0 t, λ k. known.1 k absent, refl)))))
                  | inr (key, found) ↦
                      rw (u, t, found, process_auth_request)
                        (issued idle (version.0 t) (known.0 (λ q. cc)))
                ]
              ]
        ]
