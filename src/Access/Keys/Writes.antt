-- ===== src/Access/Keys/Writes.antt =====
-- What the two write statements on `api_keys` leave, and what they keep of a key that is dead.
use aethergrid.Base.{
  ℕ, ◌≡◌, ◌≢◌, ◌⊎◌, inl, inr, refl, sym, subst, ◌∙◌, find-All, find_passes, Bool, true, false, none,
  some, List, [], ◌∷◌, ◌++◌, arith, map, any, find, All, ◌==◌, Bool-cases, Option-cases, ok, raise,
  Error, api_key_tenant_conflict, unique_violation, foreign_key_violation,
}
use text.Mathlib.Text.{◌==◌ as str_eq}
use aethergrid.Domain.Resources.{Time}
use aethergrid.Access.ApiKey.{ApiKey, is_active}
use aethergrid.Access.Tenant.{has_id}
use aethergrid.Access.Keys.{Credentials, is_key, overwrite, used, save, insert, issuer_is_there}

-- The identifier is the primary key.
abbrev pub IsKeyed : List ApiKey → Type 0
IsKeyed [] = Unit
IsKeyed (k ∷ ks) = All (λ (r : ApiKey). r.id ≢ k.id) ks × IsKeyed ks

-- No row with this identifier is active.
abbrev pub IsDead : ℕ → List ApiKey → Type 0
IsDead id = All (λ r. r.id ≡ id → is_active r ≡ false)

abbrev hash_taken : ApiKey → Credentials → Bool
hash_taken key c = any (λ (row : ApiKey). str_eq row.key_hash key.key_hash) c.keys

-- An insertion of a key whose hash is new.
pub record Inserted (key : ApiKey) (c c' : Credentials) : Type 0 where
  pub fresh : find (λ (row : ApiKey). row.id == key.id) c.keys ≡ none
  pub hash : any (λ (row : ApiKey). str_eq row.key_hash key.key_hash) c.keys ≡ false
  pub tenant : any (has_id key.tenant_id) c.tenants ≡ true
  pub same : c' ≡ record c { keys = c.keys ++ (key ∷ []) }

insert-cases :
    (key : ApiKey) (c : Credentials)
    → find (λ (row : ApiKey). row.id == key.id) c.keys ≡ none
    → ((e : Error) × (insert key c ≡ (raise e, c)))
      ⊎ ((c' : Credentials) × (insert key c ≡ (ok tt, c')) × Inserted key c c')
unfolding insert
insert-cases key c n =
    elim (Bool-cases (any (λ (row : ApiKey). str_eq row.key_hash key.key_hash) c.keys)) [
      | inl e ↦ inl (unique_violation, rw (insert, e) refl)
      | inr e ↦ elim (Bool-cases (any (has_id key.tenant_id) c.tenants)) [
        | inr e2 ↦ inl (foreign_key_violation, rw (insert, e, e2) refl)
        | inl e2 ↦ elim (Bool-cases (issuer_is_there key c.keys)) [
          | inr e3 ↦ inl (foreign_key_violation, rw (insert, e, e2, e3) refl)
          | inl e3 ↦ inr (
            record c { keys = c.keys ++ (key ∷ []) },
            rw (insert, e, e2, e3) refl,
            record { fresh = n; hash = e; tenant = e2; same = refl },
          )
        ]
      ]
    ]

pub save-cases :
    (key : ApiKey) (c : Credentials)
    → ((e : Error) × (save key c ≡ (raise e, c)))
      ⊎ ((c' : Credentials) × (save key c ≡ (ok tt, c'))
          × (Inserted key c c'
              ⊎ ((row : ApiKey) × (find (λ (r : ApiKey). r.id == key.id) c.keys ≡ some row)
                  × (c' ≡ record c { keys = map (overwrite key) c.keys }))))
unfolding save
save-cases key c = elim (Option-cases (find (λ (row : ApiKey). row.id == key.id) c.keys)) [
  | inl n ↦ elim (insert-cases key c n) [
    | inl (x, e) ↦ inl (x, rw (save, n) e)
    | inr (c', e, i) ↦ inr (c', rw (save, n) e, inl i)
  ]
  | inr (row, s) ↦ elim (Bool-cases (row.tenant_id == key.tenant_id)) [
    | inr e ↦ inl (api_key_tenant_conflict, rw (save, s, e) refl)
    | inl e ↦
        inr
          (record c { keys = map (overwrite key) c.keys }, rw (save, s, e) refl, inr (row, s, refl))
  ]
]

-- A dead key stays dead where another key is saved, and where what is saved is revoked.
pub overwrite-IsDead :
    (id : ℕ) (key : ApiKey) (keys : List ApiKey)
    → (key.id ≢ id) ⊎ (is_active key ≡ false)
    → IsDead id keys
    → IsDead id (map (overwrite key) keys)
overwrite-IsDead id key [] h d = tt
overwrite-IsDead id key (k ∷ ks) h d =
    let step : (overwrite key k).id ≡ id → is_active (overwrite key k) ≡ false =
      ground (arith, d.0) in
    (step, overwrite-IsDead id key ks h d.1)

pub append-IsDead :
    (id : ℕ) (key : ApiKey) (keys : List ApiKey)
    → key.id ≢ id
    → IsDead id keys
    → IsDead id (keys ++ (key ∷ []))
append-IsDead id key [] h d = ((λ e. absurd (h e)), tt)
append-IsDead id key (k ∷ ks) h d = (d.0, append-IsDead id key ks h d.1)

pub used-IsDead :
    (id used_id t : ℕ) (now : Time) (keys : List ApiKey)
    → IsDead id keys
    → IsDead id (map (used used_id t now) keys)
used-IsDead id used_id t now [] d = tt
used-IsDead id used_id t now (k ∷ ks) d =
    let step : (used used_id t now k).id ≡ id → is_active (used used_id t now k) ≡ false =
      ground (arith, d.0) in
    (step, used-IsDead id used_id t now ks d.1)

pub dead_overwrite :
    (key : ApiKey) (keys : List ApiKey)
    → is_active key ≡ false
    → IsDead key.id (map (overwrite key) keys)
dead_overwrite key [] h = tt
dead_overwrite key (k ∷ ks) h =
    let step : (overwrite key k).id ≡ key.id → is_active (overwrite key k) ≡ false = ground arith in
    (step, dead_overwrite key ks h)

others-IsDead :
    (key : ApiKey) (keys : List ApiKey)
    → All (λ (r : ApiKey). r.id ≢ key.id) keys
    → IsDead key.id keys
others-IsDead key [] h = tt
others-IsDead key (k ∷ ks) h = ((λ e. absurd (h.0 e)), others-IsDead key ks h.1)

-- The row that is found by its identifier is the only one with it.
pub find-IsDead :
    (id t : ℕ) (key : ApiKey) (keys : List ApiKey)
    → IsKeyed keys
    → find (is_key id t) keys ≡ some key
    → is_active key ≡ false
    → IsDead id keys
find-IsDead id t key [] u e h = tt
find-IsDead id t key (k ∷ ks) u e h = elim (Bool-cases (is_key id t k)) [
  | inl hit ↦
      let same : k ≡ key = ground arith in
      let at : k.id ≡ id = ground arith in
      (
        (λ _. subst (λ r. is_active r ≡ false) (sym same) h),
        subst (λ j. IsDead j ks) at (others-IsDead k ks u.0),
      )
  | inr miss ↦
      let later : find (is_key id t) ks ≡ some key = ground arith in
      let other : key.id ≢ k.id =
        find-All (λ (r : ApiKey). r.id ≢ k.id) (is_key id t) ks key u.0 later in
      let passes : is_key id t key ≡ true = find_passes (is_key id t) ks key later in
      let at : key.id ≡ id = ground arith in
      ((λ e'. absurd (other (at ∙ sym e'))), find-IsDead id t key ks u.1 later h)
]
