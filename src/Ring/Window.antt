-- ===== src/Ring/Window.antt =====
-- The elements that a ring holds, read in the order of insertion.
use native.Mathlib.Nat.{mod-eq_of_lt, mod-eq-sub-mod, mod-add-mod, mod-lt}
use native.Mathlib.Decide.{dec_lt}
use mathlib.Core.Path.{ap₂}
use zonal_zero_trust_auth.Base.{
  ℕ, zero, suc, ◌+◌, ◌-◌, ◌%◌, ◌≤◌, ◌<◌, ◌≡◌, ◌≢◌, refl, sym, ap, ◌∙◌, List, [], ◌∷◌, ◌++◌, length,
  get_or, set, arith, length-append, get_or-set_self, get_or-set_ne,
}

-- Fewer than `n` steps lead to different places.
pub wrap-ne : (n h j k : ℕ) → h < n → j < k → k < n → (h + j) % n ≢ (h + k) % n
wrap-ne n h j k hh jk kn = elim (dec_lt (h + k) n) [
  | yes p ↦
      omega
        (arith, mod-eq_of_lt {n = h + k} {m = n} p, mod-eq_of_lt {n = h + j} {m = n} (omega arith))
  | no p ↦ elim (dec_lt (h + j) n) [
    | yes q ↦ omega (
      arith,
      mod-eq_of_lt {n = h + j} {m = n} q,
      mod-eq-sub-mod {n = h + k} {m = n} (omega arith),
      mod-eq_of_lt {n = h + k - n} {m = n} (omega arith),
    )
    | no q ↦ omega (
      arith,
      mod-eq-sub-mod {n = h + j} {m = n} (omega arith),
      mod-eq_of_lt {n = h + j - n} {m = n} (omega arith),
      mod-eq-sub-mod {n = h + k} {m = n} (omega arith),
      mod-eq_of_lt {n = h + k - n} {m = n} (omega arith),
    )
  ]
]

module _ (n : ℕ) where
  abbrev pub window : List ℕ → ℕ → ℕ → List ℕ
  window buf h zero = []
  window buf h (suc k) = window buf h k ++ get_or buf ((h + k) % n) 0 ∷ []

  pub length-window : (buf : List ℕ) (h k : ℕ) → length (window buf h k) ≡ k
  length-window buf h zero = refl
  length-window buf h (suc k) = omega (
    arith,
    length-append (window buf h k) (get_or buf ((h + k) % n) 0 ∷ []),
    length-window buf h k,
  )

  -- A write just past a window leaves the window alone.
  pub window-set :
      (buf : List ℕ) (h k m x : ℕ)
      → h < n
      → k ≤ m
      → m < n
      → window (set buf ((h + m) % n) x) h k ≡ window buf h k
  window-set buf h zero m x hh hk hm = refl
  window-set buf h (suc k) m x hh hk hm =
      ap₂ (λ w b. w ++ b ∷ []) (window-set buf h k m x hh (omega arith) hm)
        (get_or-set_ne buf ((h + m) % n) ((h + k) % n) x 0 (λ e. wrap-ne n h k m hh hk hm (sym e)))

  -- Such a write extends the window by what is written.
  pub window-snoc :
      (buf : List ℕ) (h k x : ℕ)
      → length buf ≡ n
      → h < n
      → k < n
      → window (set buf ((h + k) % n) x) h (suc k) ≡ window buf h k ++ x ∷ []
  window-snoc buf h k x hl hh hk =
      ap₂ (λ w b. w ++ b ∷ []) (window-set buf h k k x hh (omega arith) hk)
        (get_or-set_self buf ((h + k) % n) x 0
          (omega (arith, mod-lt (h + k) {m = n} (omega arith))))

  -- The oldest element stands at the head.
  pub window-cons :
      (buf : List ℕ) (h k : ℕ)
      → h < n
      → window buf h (suc k) ≡ get_or buf h 0 ∷ window buf ((h + 1) % n) k
  window-cons buf h zero hh =
      ap (λ i. get_or buf i 0 ∷ []) (mod-eq_of_lt {n = h + 0} {m = n} (omega arith) ∙ omega arith)
  window-cons buf h (suc k) hh =
      ap₂ (λ w i. w ++ get_or buf i 0 ∷ []) (window-cons buf h k hh)
        (ap (λ t. t % n) (omega arith) ∙ sym (mod-add-mod (h + 1) n k))
