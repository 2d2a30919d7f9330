-- ===== src/Store/Consistent/Rows.antt =====
-- References and keys under the writes of one table.
use aethergrid.Base.{
  ℕ, ◌≡◌, ◌≢◌, refl, sym, ◌∙◌, Bool, true, false, not, List, [], ◌∷◌, ◌==◌, ==→eq, ◌&&◌, arith, All,
  any, filter, map, Bool-cases, inl, inr,
}
use aethergrid.Domain.Lease.{Lease}
use aethergrid.Store.{upsert, references}
use aethergrid.Store.Leases.{clashes}
use aethergrid.Store.Consistent.{Apart, Exclusive}

module _ {A : Type 0} (key tenant : A → ℕ) where
  -- A reference survives a write of a row that keeps the tenant of what is referenced.
  pub references-upsert :
      (id t : ℕ) (row : A) (rows : List A)
      → (key row ≡ id → tenant row ≡ t)
      → references key tenant id t rows ≡ true
      → references key tenant id t (upsert key row rows) ≡ true
  references-upsert id t row [] keep h = cc
  references-upsert id t row (r ∷ rows) keep h =
      ground (arith, keep, references-upsert id t row rows keep)

  -- Where no row with the key of `row` is in another tenant, a reference to that key is in its tenant.
  pub references_same_tenant :
      (t : ℕ) (row : A) (rows : List A)
      → any (λ r. key r == key row && not (tenant r == tenant row)) rows ≡ false
      → references key tenant (key row) t rows ≡ true
      → tenant row ≡ t
  references_same_tenant t row [] h k = cc
  references_same_tenant t row (r ∷ rows) h k = ground (arith, references_same_tenant t row rows)

  -- So a reference survives the write of a row whose key no other tenant has.
  pub references-upsert_own :
      (id t : ℕ) (row : A) (rows : List A)
      → any (λ r. key r == key row && not (tenant r == tenant row)) rows ≡ false
      → references key tenant id t rows ≡ true
      → references key tenant id t (upsert key row rows) ≡ true
  references-upsert_own id t row rows own h =
      references-upsert id t row rows (λ same. references_same_tenant t row rows own (rw same h)) h

  -- A reference survives a delete of rows that have another key.
  pub references-filter :
      (id t : ℕ) (gone : A → Bool) (rows : List A)
      → any (λ r. gone r && key r == id) rows ≡ false
      → references key tenant id t rows ≡ true
      → references key tenant id t (filter (λ r. not (gone r)) rows) ≡ true
  references-filter id t gone [] h k = k
  references-filter id t gone (r ∷ rows) h k = ground (arith, references-filter id t gone rows)

  -- And an update that keeps the key and the tenant of every row.
  pub references-map :
      (id t : ℕ) (f : A → A) (rows : List A)
      → ((r : A) → (key (f r) ≡ key r) × (tenant (f r) ≡ tenant r))
      → references key tenant id t (map f rows) ≡ references key tenant id t rows
  references-map id t f [] keep = refl
  references-map id t f (r ∷ rows) keep = ground (arith, keep r, references-map id t f rows keep)

pub All-upsert {κ} :
    {A : Type 0} (P : A → Type κ) (key : A → ℕ) (row : A) (rows : List A)
    → All P rows
    → P row
    → All P (upsert key row rows)
All-upsert P key row [] h p = (p, tt)
All-upsert P key row (r ∷ rows) h p = ground (arith, All-upsert P key row rows h.1 p)

All-Apart-filter :
    (l : Lease) (p : Lease → Bool) (ls : List Lease)
    → All (Apart l) ls
    → All (Apart l) (filter p ls)
All-Apart-filter l p [] h = tt
All-Apart-filter l p (x ∷ xs) h = ground (arith, All-Apart-filter l p xs h.1)

pub filter-Exclusive : (p : Lease → Bool) (ls : List Lease) → Exclusive ls → Exclusive (filter p ls)
filter-Exclusive p [] h = tt
filter-Exclusive p (l ∷ ls) h =
    ground (arith, filter-Exclusive p ls h.1, All-Apart-filter l p ls h.0)

-- A row that clashes with no other can be written.
upsert-Apart :
    (x l : Lease) (ls : List Lease)
    → All (Apart x) ls
    → Apart x l
    → All (Apart x) (upsert (λ r. r.id) l ls)
upsert-Apart x l [] h a = (a, tt)
upsert-Apart x l (m ∷ ls) h a = ground (arith, upsert-Apart x l ls h.1 a)

clashes→Apart : (l m : Lease) → clashes l m ≡ false → m.id ≢ l.id → Apart l m × Apart m l
clashes→Apart l m h ne = (
  record { id = ne; job = λ e. ground arith; worker = λ e. ground arith },
  record { id = λ e. ne (sym e); job = λ e. ground arith; worker = λ e. ground arith },
)

unclashing :
    (l x : Lease) (ls : List Lease)
    → any (clashes l) ls ≡ false
    → All (Apart x) ls
    → x.id ≡ l.id
    → All (Apart l) ls
unclashing l x [] h a e = tt
unclashing l x (m ∷ ls) h a e = elim (Bool-cases (clashes l m)) [
  | inl c ↦ ground arith
  | inr c ↦
      ((clashes→Apart l m c λ same. a.0.id (same ∙ sym e)).0, unclashing l x ls (rw c at h) a.1 e)
]

pub upsert-Exclusive :
    (l : Lease) (ls : List Lease)
    → any (clashes l) ls ≡ false
    → Exclusive ls
    → Exclusive (upsert (λ r. r.id) l ls)
upsert-Exclusive l [] h k = (tt, tt)
upsert-Exclusive l (m ∷ ls) h k = elim (Bool-cases (clashes l m)) [
  | inl c ↦ ground arith
  | inr c ↦ elim (Bool-cases (m.id == l.id)) [
    | inl e ↦ rw e (unclashing l m ls (rw c at h) k.0 (==→eq m.id l.id e), k.1)
    | inr ne ↦ rw ne (
      upsert-Apart m l ls k.0 (clashes→Apart l m c λ same. ground arith).1,
      upsert-Exclusive l ls (rw c at h) k.1,
    )
  ]
]
