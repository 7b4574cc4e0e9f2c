-- ===== src/Base/Search.antt =====
-- `for (i = 0; i < N; ++i) if (p(a[i])) return i;`, the loop behind every table lookup, and the
-- counting loop.
use Prim.Native.Nat.{ℕ, zero, suc, ◌+◌, ◌<◌, ◌≤◌}
use mathlib.Core.Path.{◌≡◌, refl}
use mathlib.Core.Logic.{inl, inr}
use mathlib.Core.Bool.{Bool, true, false}
use mathlib.Core.List.{List, [], ◌∷◌}
use mathlib.Core.Option.{Option, none, some}
use native.Mathlib.Omega.{arith}
use zonal_zero_trust_auth.Base.Tests.{◌==◌, if◌then◌else◌, Bool-cases}
use zonal_zero_trust_auth.Base.Lists.{length, get_or, set}

abbrev pub suc_of : Option ℕ → Option ℕ
suc_of none = none
suc_of (some i) = some (suc i)

suc_of-some : (o : Option ℕ) (i : ℕ) → suc_of o ≡ some i → (k : ℕ) × (i ≡ suc k) × (o ≡ some k)
suc_of-some none i e = cc
suc_of-some (some k) i e = (k, ground arith, refl)

suc_of-none : (o : Option ℕ) → suc_of o ≡ none → o ≡ none
suc_of-none none e = refl
suc_of-none (some k) e = cc

-- A test as a number.
abbrev pub bit : Bool → ℕ
bit true = 1
bit false = 0

-- Is this the index that was found?
abbrev pub at_index : Option ℕ → ℕ → Bool
at_index none i = false
at_index (some k) i = k == i

module _ {ℓ} {A : Type ℓ} where
  -- The first index whose element passes the test.
  unfoldable pub find_index : (A → Bool) → List A → Option ℕ
  find_index p [] = none
  find_index p (x ∷ xs) = if p x then some 0 else suc_of (find_index p xs)

  -- How many elements pass the test.
  unfoldable pub count_if : (A → Bool) → List A → ℕ
  count_if p [] = 0
  count_if p (x ∷ xs) = bit (p x) + count_if p xs

module _ {ℓ} {A : Type ℓ} (p : A → Bool) (d : A) where
  -- Nothing before the found index passes.
  pub find_index-before :
      (xs : List A) (i j : ℕ) → find_index p xs ≡ some i → j < i → p (get_or xs j d) ≡ false
  unfolding find_index
  find_index-before [] i j e h = cc
  find_index-before (x ∷ xs) i j e h = elim (Bool-cases (p x)) [
    | inl t ↦ let q : ◌≡◌ {A = Option ℕ} (some 0) (some i) = (rw t at e) in absurd (ground arith)
    | inr f ↦
        let (k, ik, ek) = suc_of-some (find_index p xs) i (rw f at e) in
        later k j ik h f (λ m mk. find_index-before xs k m ek mk)
  ]
    where
      later :
          (k j : ℕ)
          → i ≡ suc k
          → j < i
          → p x ≡ false
          → ((m : ℕ) → m < k → p (get_or xs m d) ≡ false)
          → p (get_or (x ∷ xs) j d) ≡ false
      later k zero ik h f ih = f
      later k (suc m) ik h f ih = ih m (omega arith)

  -- The found index is in range, and its element passes.
  pub find_index-some :
      (xs : List A) (i : ℕ)
      → find_index p xs ≡ some i
      → (i < length xs) × (p (get_or xs i d) ≡ true)
  unfolding find_index
  find_index-some [] i e = cc
  find_index-some (x ∷ xs) i e = elim (Bool-cases (p x)) [
    | inl t ↦
        let q : ◌≡◌ {A = Option ℕ} (some 0) (some i) = (rw t at e) in
        let z : 0 ≡ i = ground arith in rw (← z) (omega arith, t)
    | inr f ↦
        let (k, ik, ek) = suc_of-some (find_index p xs) i (rw f at e) in
        let (lt, hit) = find_index-some xs k ek in rw ik (omega arith, hit)
  ]

  pub find_index-none :
      (xs : List A) (j : ℕ) → find_index p xs ≡ none → j < length xs → p (get_or xs j d) ≡ false
  unfolding find_index
  find_index-none [] j e h = elim h [ ]
  find_index-none (x ∷ xs) zero e h = elim (Bool-cases (p x)) [
    | inl t ↦ let q : ◌≡◌ {A = Option ℕ} (some 0) none = (rw t at e) in cc
    | inr f ↦ f
  ]
  find_index-none (x ∷ xs) (suc j) e h = elim (Bool-cases (p x)) [
    | inl t ↦ let q : ◌≡◌ {A = Option ℕ} (some 0) none = (rw t at e) in cc
    | inr f ↦ find_index-none xs j (suc_of-none _ (rw f at e)) (omega arith)
  ]

  -- The converse: an index that passes, with none before it, is the one found.
  pub find_index-first :
      (xs : List A) (i : ℕ)
      → i < length xs
      → p (get_or xs i d) ≡ true
      → ((j : ℕ) → j < i → p (get_or xs j d) ≡ false)
      → find_index p xs ≡ some i
  unfolding find_index
  find_index-first [] i h t f = elim h [ ]
  find_index-first (x ∷ xs) zero h t f = rw t
  find_index-first (x ∷ xs) (suc i) h t f =
      let ih = find_index-first xs i (omega arith) t (λ j hj. f (suc j) (omega arith)) in
      rw (f 0 (omega arith), ih)

  pub find_index-absent :
      (xs : List A) → ((j : ℕ) → j < length xs → p (get_or xs j d) ≡ false) → find_index p xs ≡ none
  unfolding find_index
  find_index-absent [] f = refl
  find_index-absent (x ∷ xs) f =
      let ih = find_index-absent xs (λ j hj. f (suc j) (omega arith)) in rw (f 0 (omega arith), ih)

  pub count_if-set :
      (xs : List A) (i : ℕ) (v : A)
      → i < length xs
      → count_if p (set xs i v) + bit (p (get_or xs i d)) ≡ count_if p xs + bit (p v)
  unfolding count_if
  count_if-set [] i v h = elim h [ ]
  count_if-set (x ∷ xs) zero v h = omega arith
  count_if-set (x ∷ xs) (suc i) v h = omega (arith, count_if-set xs i v (omega arith))

  bit-le : (b : Bool) → bit b ≤ 1
  bit-le true = omega arith
  bit-le false = omega arith

  pub count_if-le : (xs : List A) → count_if p xs ≤ length xs
  unfolding count_if
  count_if-le [] = omega arith
  count_if-le (x ∷ xs) = omega (arith, count_if-le xs, bit-le (p x))

  -- Some element fails the test, so not all are counted.
  pub count_if-lt :
      (xs : List A) (i : ℕ) → i < length xs → p (get_or xs i d) ≡ false → count_if p xs < length xs
  unfolding count_if
  count_if-lt [] i h f = elim h [ ]
  count_if-lt (x ∷ xs) zero h f = rw f (omega (arith, count_if-le xs))
  count_if-lt (x ∷ xs) (suc i) h f = omega (arith, count_if-lt xs i (omega arith) f, bit-le (p x))

  pub count_if-pos :
      (xs : List A) (i : ℕ) → i < length xs → p (get_or xs i d) ≡ true → 0 < count_if p xs
  unfolding count_if
  count_if-pos [] i h t = elim h [ ]
  count_if-pos (x ∷ xs) zero h t = rw t (omega arith)
  count_if-pos (x ∷ xs) (suc i) h t = omega (arith, count_if-pos xs i (omega arith) t)

-- Where one test implies another it passes fewer elements, and fewer still if some element passes the
-- other only.
module _ {ℓ} {A : Type ℓ} (p r : A → Bool) (d : A) where
  pub count_if_mono :
      (xs : List A)
      → ((i : ℕ) → i < length xs → p (get_or xs i d) ≡ true → r (get_or xs i d) ≡ true)
      → count_if p xs ≤ count_if r xs
  unfolding count_if
  count_if_mono [] h = omega arith
  count_if_mono (x ∷ xs) h =
      let head : p x ≡ true → r x ≡ true = h 0 (omega arith) in
      let tail = count_if_mono xs (λ i hi. h (suc i) (omega arith)) in ground arith

  pub count_if_strict :
      (xs : List A) (k : ℕ)
      → ((i : ℕ) → i < length xs → p (get_or xs i d) ≡ true → r (get_or xs i d) ≡ true)
      → k < length xs
      → p (get_or xs k d) ≡ false
      → r (get_or xs k d) ≡ true
      → count_if p xs < count_if r xs
  unfolding count_if
  count_if_strict [] k h hk np yr = absurd (omega arith)
  count_if_strict (x ∷ xs) zero h hk np yr =
      let tail = count_if_mono xs (λ i hi. h (suc i) (omega arith)) in ground arith
  count_if_strict (x ∷ xs) (suc k) h hk np yr =
      let head : p x ≡ true → r x ≡ true = h 0 (omega arith) in
      let tail = count_if_strict xs k (λ i hi. h (suc i) (omega arith)) (omega arith) np yr in
      ground arith

-- The elements that pass the test, in their order.
unfoldable pub keep_if {ℓ} : {A : Type ℓ} → (A → Bool) → List A → List A
keep_if p [] = []
keep_if p (x ∷ xs) = if p x then x ∷ keep_if p xs else keep_if p xs

module _ {ℓ} {A : Type ℓ} (p q : A → Bool) (d : A) where
  -- Where one list passes a test the other one fails another: the counts share the length.
  pub count_if-exclusive :
      (xs ys : List A)
      → length ys ≡ length xs
      → ((j : ℕ) → j < length xs → q (get_or xs j d) ≡ true → p (get_or ys j d) ≡ false)
      → count_if p ys + count_if q xs ≤ length xs
  unfolding count_if
  count_if-exclusive [] [] e f = omega arith
  count_if-exclusive [] (y ∷ ys) e f = absurd (omega arith)
  count_if-exclusive (x ∷ xs) [] e f = absurd (omega arith)
  count_if-exclusive (x ∷ xs) (y ∷ ys) e f =
      let rest = count_if-exclusive xs ys (omega arith) (λ j h. f (ℕ.suc j) (omega arith)) in
      let here = f 0 (omega arith) in
      elim (Bool-cases (q x)) [
        | inl t ↦ rw (here t, t) (omega (arith, rest))
        | inr n ↦ rw n (omega (arith, rest, bit-le p d (p y)))
      ]
