-- ===== src/Base/Lists.antt =====
-- Lists as tables: rows with a key, and the reads and writes of one statement.
use Prim.Native.Nat.{ℕ, zero, suc, ◌+◌, ◌≤◌, ◌<◌}
use mathlib.Core.Path.{◌≡◌, refl, sym, subst}
use mathlib.Core.Logic.{◌⊎◌, inl, inr}
use mathlib.Core.Bool.{Bool, true, false, not}
use mathlib.Core.Option.{Option, none, some}
use mathlib.Core.List.{List, [], ◌∷◌, ◌++◌}
use native.Mathlib.Omega.{arith}
use aethergrid.Base.Logic.{if◌then◌else◌, Bool-cases}

module _ {ℓ} {A : Type ℓ} where
  abbrev pub length : List A → ℕ
  length [] = 0
  length (x ∷ xs) = suc (length xs)

  -- The rows that pass a test, in order.
  abbrev pub filter : (A → Bool) → List A → List A
  filter p [] = []
  filter p (x ∷ xs) = if p x then x ∷ filter p xs else filter p xs

  -- The first row that passes a test.
  abbrev pub find : (A → Bool) → List A → Option A
  find p [] = none
  find p (x ∷ xs) = if p x then some x else find p xs

  abbrev pub any : (A → Bool) → List A → Bool
  any p [] = false
  any p (x ∷ xs) = if p x then true else any p xs

  abbrev pub All {κ} : (A → Type κ) → List A → Type κ
  All P [] = Unit
  All P (x ∷ xs) = P x × All P xs

  pub All-filter {κ} :
      (P : A → Type κ) (p : A → Bool) (xs : List A) → All P xs → All P (filter p xs)
  All-filter P p [] h = tt
  All-filter P p (x ∷ xs) h = ground (arith, All-filter P p xs h.1)

  pub All-filter_inv {κ} :
      (P : A → Type κ) (p : A → Bool) (xs : List A)
      → All P (filter p xs)
      → All (λ x. p x ≡ true → P x) xs
  All-filter_inv P p [] h = tt
  All-filter_inv P p (x ∷ xs) h = elim (Bool-cases (p x)) [
    | inl e ↦ let (h0, h') = (rw e at h) in ((λ _. h0), All-filter_inv P p xs h')
    | inr e ↦ ((λ e'. cc), All-filter_inv P p xs (rw e at h))
  ]

  -- A filter keeps only what passes.
  pub All-filter_passes : (p : A → Bool) (xs : List A) → All (λ x. p x ≡ true) (filter p xs)
  All-filter_passes p [] = tt
  All-filter_passes p (x ∷ xs) = ground (arith, All-filter_passes p xs)

  pub All-map {κ μ} :
      (P : A → Type κ) (Q : A → Type μ) (xs : List A) → ((x : A) → P x → Q x) → All P xs → All Q xs
  All-map P Q [] f h = tt
  All-map P Q (x ∷ xs) f h = (f x h.0, All-map P Q xs f h.1)

  pub All-and {κ μ} :
      (P : A → Type κ) (Q : A → Type μ) (xs : List A)
      → All P xs
      → All Q xs
      → All (λ x. P x × Q x) xs
  All-and P Q [] h k = tt
  All-and P Q (x ∷ xs) h k = ((h.0, k.0), All-and P Q xs h.1 k.1)

  -- What a search finds passes its test.
  pub find_passes : (p : A → Bool) (xs : List A) (x : A) → find p xs ≡ some x → p x ≡ true
  find_passes p [] x e = cc
  find_passes p (y ∷ ys) x e = ground (arith, find_passes p ys x)

  pub find-All {κ} :
      (P : A → Type κ) (p : A → Bool) (xs : List A) (x : A) → All P xs → find p xs ≡ some x → P x
  find-All P p [] x h e = cc
  find-All P p (y ∷ ys) x h e = ground (arith, find-All P p ys x h.1)

module _ {A : Type 0} where
  abbrev pub Member : A → List A → Type 0
  Member x [] = ⊥
  Member x (y ∷ ys) = (x ≡ y) ⊎ Member x ys

  pub All-Member {κ} : (P : A → Type κ) (x : A) (xs : List A) → All P xs → Member x xs → P x
  All-Member P x (y ∷ ys) h (inl e) = subst P (sym e) h.0
  All-Member P x (y ∷ ys) h (inr m) = All-Member P x ys h.1 m
  All-Member P x [] h m = absurd m

  pub Member-filter :
      (p : A → Bool) (x : A) (xs : List A) → Member x (filter p xs) → Member x xs × (p x ≡ true)
  Member-filter p x [] m = absurd m
  Member-filter p x (y ∷ ys) m =
      ground (arith, λ (k : Member x (filter p ys)). Member-filter p x ys k)

  pub find-Member : (p : A → Bool) (xs : List A) (x : A) → find p xs ≡ some x → Member x xs
  find-Member p [] x e = cc
  find-Member p (y ∷ ys) x e = ground (arith, find-Member p ys x)

  pub any-Member : (p : A → Bool) (x : A) (xs : List A) → Member x xs → p x ≡ true → any p xs ≡ true
  any-Member p x [] m h = absurd m
  any-Member p x (y ∷ ys) m h = ground (arith, λ (k : Member x ys). any-Member p x ys k h)

  -- A search that finds nothing refutes the test on every row.
  pub find-none : (p : A → Bool) (xs : List A) → find p xs ≡ none → any p xs ≡ false
  find-none p [] e = refl
  find-none p (x ∷ xs) e = ground (arith, find-none p xs)

  pub filter-All : (p : A → Bool) (xs : List A) → any p xs ≡ false → filter (λ x. not (p x)) xs ≡ xs
  filter-All p [] e = refl
  filter-All p (x ∷ xs) e = ground (arith, filter-All p xs)

module _ {ℓ} {A : Type ℓ} where
  abbrev pub drop : ℕ → List A → List A
  drop zero xs = xs
  drop (suc n) [] = []
  drop (suc n) (x ∷ xs) = drop n xs

  abbrev pub get_elem? : List A → ℕ → Option A
  get_elem? [] i = none
  get_elem? (x ∷ xs) zero = some x
  get_elem? (x ∷ xs) (suc i) = get_elem? xs i

  -- What stands at a position, and what is left from there on.
  pub drop-get_elem? :
      (xs : List A) (n : ℕ) (x : A)
      → get_elem? xs n ≡ some x
      → (drop n xs ≡ x ∷ drop (suc n) xs) × (n < length xs)
  drop-get_elem? [] n x e = cc
  drop-get_elem? (y ∷ ys) zero x e = (cc, omega arith)
  drop-get_elem? (y ∷ ys) (suc n) x e =
      let (d, l) = drop-get_elem? ys n x e in (d, omega (arith, l))

  pub drop_past : (xs : List A) (n : ℕ) → get_elem? xs n ≡ none → (drop n xs ≡ []) × (length xs ≤ n)
  drop_past [] zero e = (refl, omega arith)
  drop_past [] (suc n) e = (refl, omega arith)
  drop_past (y ∷ ys) zero e = cc
  drop_past (y ∷ ys) (suc n) e = let (d, l) = drop_past ys n e in (d, omega (arith, l))

  pub length-append : (xs ys : List A) → length (xs ++ ys) ≡ length xs + length ys
  length-append [] ys = omega arith
  length-append (x ∷ xs) ys = omega (arith, length-append xs ys)
