-- ===== src/Access/Tenant/Lookup.antt =====
-- The names of tenants: a tenant that was saved is found by its identifier and by its name.
use text.Mathlib.Text.{◌==◌ as str_eq}
use text.Mathlib.TextEquality.{eq_iff}
use aethergrid.Base.{
  ℕ, ◌≡◌, ◌≢◌, refl, sym, subst, ap, ◌∙◌, true, false, none, some, List, [], ◌∷◌, ◌++◌, any, find,
  find-All, find_passes, All, Bool-cases, Option-cases, inl, inr, Result, ok, raise, arith,
}
use aethergrid.Access.Tenant.{Tenant, has_name, has_id, save, get_by_id, get_by_name}

-- The two unique columns.
abbrev pub IsUnique : List Tenant → Type 0
IsUnique [] = Unit
IsUnique (r ∷ rs) = All (λ (s : Tenant). (s.id ≢ r.id) × (s.name ≢ r.name)) rs × IsUnique rs

-- What a save leaves: the table as it was, or one in which the two lookups find one tenant.
abbrev pub SaveOutcome : Tenant → List Tenant → Result (Unit {0}) × List Tenant → Type 0
SaveOutcome t rows (ok _, rows') =
    IsUnique rows'
    × ((row : Tenant) × (row.id ≡ t.id)
        × (row.name ≡ t.name)
        × (get_by_id t.id rows' ≡ some row)
        × (get_by_name t.name rows' ≡ some row))
SaveOutcome t rows (raise _, rows') = rows' ≡ rows

by_name :
    (id : ℕ) (row : Tenant) (rows : List Tenant)
    → IsUnique rows
    → find (has_id id) rows ≡ some row
    → find (has_name row.name) rows ≡ some row
by_name id row [] u e = cc
by_name id row (r ∷ rs) u e = elim (Bool-cases (has_id id r)) [
  | inl hit ↦
      let same : r ≡ row = ground arith in
      let named : str_eq r.name row.name ≡ true =
        (eq_iff r.name row.name).1 (ap (λ (t : Tenant). t.name) same) in
      rw (named, same) refl
  | inr miss ↦
      let later : find (has_id id) rs ≡ some row = ground arith in
      let other : (row.id ≢ r.id) × (row.name ≢ r.name) =
        find-All (λ (s : Tenant). (s.id ≢ r.id) × (s.name ≢ r.name)) (has_id id) rs row u.0 later in
      elim (Bool-cases (has_name row.name r)) [
        | inl e' ↦ absurd (other.1 (sym ((eq_iff r.name row.name).0 e')))
        | inr e' ↦ rw e' (by_name id row rs u.1 later)
      ]
]

append_other :
    (r t : Tenant) (rows : List Tenant)
    → All (λ (s : Tenant). (s.id ≢ r.id) × (s.name ≢ r.name)) rows
    → (t.id ≢ r.id) × (t.name ≢ r.name)
    → All (λ (s : Tenant). (s.id ≢ r.id) × (s.name ≢ r.name)) (rows ++ (t ∷ []))
append_other r t [] h k = (k, tt)
append_other r t (s ∷ ss) h k = (h.0, append_other r t ss h.1 k)

true≢false : true ≢ false
true≢false e = cc

append-IsUnique :
    (t : Tenant) (rows : List Tenant)
    → IsUnique rows
    → find (has_id t.id) rows ≡ none
    → any (has_name t.name) rows ≡ false
    → IsUnique (rows ++ (t ∷ []))
      × (find (has_id t.id) (rows ++ (t ∷ [])) ≡ some t)
      × (find (has_name t.name) (rows ++ (t ∷ [])) ≡ some t)
append-IsUnique t [] u i n =
    let named : str_eq t.name t.name ≡ true = (eq_iff t.name t.name).1 refl in
    ((tt, tt), ground arith, rw named refl)
append-IsUnique t (r ∷ rs) u i n =
    let other_id : has_id t.id r ≡ false = ground arith in
    let other_name : has_name t.name r ≡ false = ground arith in
    let (v, f, g) = append-IsUnique t rs u.1 (rw other_id at i) (rw other_name at n) in
    let name_free : t.name ≢ r.name =
      λ e. true≢false ((sym ((eq_iff r.name t.name).1 (sym e))) ∙ other_name) in
    ((append_other r t rs u.0 (ground arith, name_free), v), rw other_id f, rw other_name g)

-- Where no two tenants share an identifier or a name, a save that returns keeps it so, and both lookups
-- then find the same tenant, with the identifier and the name that were saved. One that raises changed
-- nothing.
pub save-Outcome :
    (t : Tenant) (rows : List Tenant) → IsUnique rows → SaveOutcome t rows (save t rows)
unfolding save get_by_id get_by_name
save-Outcome t rows u = elim (Option-cases (find (has_id t.id) rows)) [
  | inl i ↦ elim (Bool-cases (any (has_name t.name) rows)) [
    | inl n ↦ rw (save, i, n) refl
    | inr n ↦
        let (v, f, g) = append-IsUnique t rows u i n in rw (save, i, n) (v, (t, refl, refl, f, g))
  ]
  | inr (row, i) ↦ elim (Bool-cases (str_eq row.name t.name)) [
    | inr n ↦ rw (save, i, n) refl
    | inl n ↦
        let passes : has_id t.id row ≡ true = find_passes (has_id t.id) rows row i in
        let named : row.name ≡ t.name = (eq_iff row.name t.name).0 n in
        rw (save, i, n)
          (
            u,
            (
              row,
              ground arith,
              named,
              i,
              subst (λ name. find (has_name name) rows ≡ some row) named
                  (by_name t.id row rows u i),
            ),
          )
  ]
]
