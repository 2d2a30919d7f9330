-- ===== src/Migrations/Plan/Versions.antt =====
-- The parts of `plan_migrations` on numbered sets and histories.
use aethergrid.Base.{
  ℕ, zero, suc, ◌+◌, ◌<◌, ◌≡◌, ◌↔◌, refl, subst, none, List, [], ◌∷◌, ltb, arith, length, filter,
  drop, get_elem?, ok, Option-cases, ◌⊎◌, inl, inr,
}
use aethergrid.Migrations.{Migration, Row, Numbered}
use aethergrid.Migrations.Plan.{check_history, highest, by_version}

abbrev pub version_of : Migration → ℕ
version_of m = m.version

abbrev pub row_version : Row → ℕ
row_version r = r.version

-- Each recorded checksum is that of the file with its number, as far as there are files.
abbrev pub Agrees : List Row → List Migration → Type 0
Agrees [] ms = Unit
Agrees (r ∷ rs) [] = Unit
Agrees (r ∷ rs) (m ∷ ms) = (m.checksum ≡ r.checksum) × Agrees rs ms

pub check_history_iff :
    (k : ℕ) (rows : List Row) → (check_history k rows ≡ ok tt) ↔ Numbered row_version k rows
unfolding check_history
check_history_iff k [] = (λ _. tt, λ _. refl)
check_history_iff k (r ∷ rs) = (
  λ h. ground (arith, (check_history_iff (k + 1) rs).0),
  λ h. ground (arith, (check_history_iff (k + 1) rs).1),
)

pub filter_above :
    (t k : ℕ) (ms : List Migration)
    → Numbered version_of k ms
    → t < k
    → filter (λ (m : Migration). ltb t m.version) ms ≡ ms
filter_above t k [] h l = refl
filter_above t k (m ∷ ms) h l = ground (arith, filter_above t (k + 1) ms h.1)

pub filter_later :
    (n j : ℕ) (ms : List Migration)
    → Numbered version_of (j + 1) ms
    → filter (λ (m : Migration). ltb (j + n) m.version) ms ≡ drop n ms
filter_later zero j ms h = filter_above (j + 0) (j + 1) ms h (omega arith)
filter_later (suc n) j [] h = refl
filter_later (suc n) j (m ∷ ms) h =
    let same : j + 1 + n ≡ j + suc n = omega arith in
    let rest : filter (λ (m : Migration). ltb (j + suc n) m.version) ms ≡ drop n ms =
      subst (λ t. filter (λ (m : Migration). ltb t m.version) ms ≡ drop n ms) same
        (filter_later n (j + 1) ms h.1) in
    ground arith

pub by_version_below :
    (v k : ℕ) (ms : List Migration) → Numbered version_of k ms → v < k → by_version v ms ≡ none
unfolding by_version
by_version_below v k [] h l = refl
by_version_below v k (m ∷ ms) h l = ground (arith, by_version_below v (k + 1) ms h.1)

pub by_version_lem :
    (n k : ℕ) (ms : List Migration)
    → Numbered version_of k ms
    → by_version (k + n) ms ≡ get_elem? ms n
unfolding by_version
by_version_lem n k [] h = refl
by_version_lem zero k (m ∷ ms) h = ground (arith, by_version_below (k + 0) (k + 1) ms h.1)
by_version_lem (suc n) k (m ∷ ms) h =
    let same : k + 1 + n ≡ k + suc n = omega arith in
    let rest : by_version (k + suc n) ms ≡ get_elem? ms n =
      subst (λ t. by_version t ms ≡ get_elem? ms n) same (by_version_lem n (k + 1) ms h.1) in
    elim (Option-cases (get_elem? ms n)) [
      | inl e ↦ rw (rest, e) (ground arith)
      | inr (x, e) ↦ rw (rest, e) refl
    ]

pub highest_lem :
    (k : ℕ) (ms : List Migration)
    → Numbered version_of (k + 1) ms
    → ms ≡ [] ⊎ (highest ms ≡ k + length ms)
unfolding highest
highest_lem k [] h = inl refl
highest_lem k (m ∷ ms) h = inr (ground (arith, highest_lem (k + 1) ms h.1))

pub drop_nil : (n : ℕ) → drop {A = Row} n [] ≡ []
drop_nil zero = refl
drop_nil (suc n) = refl

pub past_next : (ms : List Migration) (n : ℕ) → get_elem? ms n ≡ none → get_elem? ms (suc n) ≡ none
past_next [] n e = refl
past_next (m ∷ ms) zero e = cc
past_next (m ∷ ms) (suc n) e = past_next ms n e

pub Agrees-nil : (rows : List Row) → Agrees rows []
Agrees-nil [] = tt
Agrees-nil (r ∷ rs) = tt
