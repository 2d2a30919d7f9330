-- ===== src/Access/Calls/Issuance.antt =====
-- Issuance: what a new key is, and which tenant it is in.
use text.Mathlib.Text.{◌==◌ as str_eq}
use aethergrid.Base.{
  ℕ, ◌≡◌, ◌⊎◌, inl, inr, refl, sym, subst, ap, ◌∙◌, true, false, not, ◌||◌, Option, none, some,
  List, [], ◌∷◌, String, any, find, All, is_some, ◌==◌, Bool-cases, Result, ok, raise, Error,
  value_error, tenant_not_found, unknown_api_key_scope, Action, pure, ◌>>◌, bind_ok, bind_raise,
}
use aethergrid.Domain.Resources.{Time}
use aethergrid.Access.ApiKey
use aethergrid.Access.ApiKey.{ApiKey, Secrets, is_active, is_known, validate_scopes}
use aethergrid.Access.Tenant
use aethergrid.Access.Tenant.{has_id}
use aethergrid.Access.Keys
use aethergrid.Access.Keys.{Credentials, is_key, overwrite, used}
use aethergrid.Access.Keys.Writes.{save-cases, Inserted}
use aethergrid.Access.Calls.{create_api_key, new_key}

-- Who decides on the tenant of a key: its issuer, or the one who names a tenant that is there.
abbrev pub InTenant : Option ApiKey → Option ℕ → Credentials → ApiKey → Type 0
InTenant (some issuer) none c key =
    (key.tenant_id ≡ issuer.tenant_id) × (key.issued_by ≡ some issuer.id)
InTenant none (some tenant_id) c key =
    (key.tenant_id ≡ tenant_id)
    × (key.issued_by ≡ none)
    × (is_some (Tenant.get_by_id tenant_id c.tenants) ≡ true)
InTenant _ _ _ _ = ⊥

-- A new key, as it was asked for.
pub record IsIssued (sec : Secrets) (id : ℕ) (scopes : List String) (issuer : Option ApiKey)
    (tenant_id : Option ℕ) (c : Credentials) (key : ApiKey) : Type 0 where
  pub named : key.id ≡ id
  pub hash : key.key_hash ≡ sec.hash_secret sec.raw_key
  pub active : key.revoked_at ≡ none
  pub granted : key.scopes ≡ scopes
  pub known : All (λ s. is_known s ≡ true) scopes
  pub tenant : InTenant issuer tenant_id c key

known_each :
    (scopes : List String)
    → any (λ s. not (is_known s)) scopes ≡ false
    → All (λ s. is_known s ≡ true) scopes
known_each [] h = tt
known_each (s ∷ ss) h = elim (Bool-cases (is_known s)) [
  | inl e ↦ (e, known_each ss (rw e at h))
  | inr e ↦ cc
]

abbrev issued :
    Secrets → (id : ℕ) → Time → (label : String) (t : ℕ) → List String → Option ℕ → ApiKey
issued sec id now label t scopes by = record {
  id = id;
  key_hash = sec.hash_secret sec.raw_key;
  label = sec.strip label;
  created_at = now;
  tenant_id = t;
  revoked_at = none;
  last_used_at = none;
  scopes = scopes;
  issued_by = by;
}

-- What `ApiKey.issue` returns.
issue-cases :
    (sec : Secrets) (id : ℕ) (now : Time) (label : String) (t : ℕ) (scopes : List String)
    (by : Option ℕ)
    → ((x : Error) × (ApiKey.issue sec id now label t scopes by ≡ raise x))
      ⊎ (ApiKey.issue sec id now label t scopes by ≡ ok (issued sec id now label t scopes by)
          × All (λ s. is_known s ≡ true) scopes)
unfolding ApiKey.issue validate_scopes
issue-cases sec id now label t scopes by =
    elim (Bool-cases (str_eq label "" || str_eq (sec.strip label) "")) [
      | inl e ↦ inl (value_error, rw (ApiKey.issue, e) refl)
      | inr e ↦ elim (Bool-cases (any (λ s. not (is_known s)) scopes)) [
        | inl u ↦ inl (unknown_api_key_scope, rw (ApiKey.issue, e, validate_scopes, u) refl)
        | inr u ↦ inr (rw (ApiKey.issue, e, validate_scopes, u) refl, known_each scopes u)
      ]
    ]

pub new_key-cases :
    (sec : Secrets) (id : ℕ) (now : Time) (label : String) (scopes : List String)
    (issuer : Option ApiKey) (tenant_id : Option ℕ) (c : Credentials)
    → ((x : Error) × (new_key sec id now label scopes issuer tenant_id c ≡ (raise x, c)))
      ⊎ ((key : ApiKey) × (new_key sec id now label scopes issuer tenant_id c ≡ (ok key, c))
          × IsIssued sec id scopes issuer tenant_id c key)
unfolding new_key ApiKey.issue_child
new_key-cases sec id now label scopes none none c = inl (value_error, refl)
new_key-cases sec id now label scopes (some i) (some t) c = inl (value_error, refl)
new_key-cases sec id now label scopes (some i) none c =
    elim (issue-cases sec id now label i.tenant_id scopes (some i.id)) [
      | inl (x, e) ↦ inl (x, rw e refl)
      | inr (e, k) ↦ inr (
        issued sec id now label i.tenant_id scopes (some i.id),
        ap (λ r. (r, c)) e,
        record {
          named = refl;
          hash = refl;
          active = refl;
          granted = refl;
          known = k;
          tenant = (refl, refl);
        },
      )
    ]
new_key-cases sec id now label scopes none (some t) c =
    elim (Bool-cases (is_some (Tenant.get_by_id t c.tenants))) [
      | inr n ↦ inl (tenant_not_found, rw n refl)
      | inl there ↦ elim (issue-cases sec id now label t scopes none) [
        | inl (x, e) ↦ inl (x, rw (there, e) refl)
        | inr (e, k) ↦ inr (
          issued sec id now label t scopes none,
          rw (there, e) refl,
          record {
            named = refl;
            hash = refl;
            active = refl;
            granted = refl;
            known = k;
            tenant = (refl, refl, there);
          },
        )
      ]
    ]

module _ (sec : Secrets) (id : ℕ) (now : Time) (label : String) (scopes : List String)
    (issuer : Option ApiKey) (tenant_id : Option ℕ) (c : Credentials) where
  -- An issuance changes nothing, or saves the key that it returns.
  pub create-cases :
      ((x : Error) × (create_api_key sec id now label scopes issuer tenant_id c ≡ (raise x, c)))
      ⊎ ((key : ApiKey) × (c' : Credentials) × (create_api_key sec id now label scopes issuer
              tenant_id c
            ≡ (ok key, c'))
          × IsIssued sec id scopes issuer tenant_id c key
          × (Keys.save key c ≡ (ok tt, c')))
  unfolding create_api_key
  create-cases = elim (new_key-cases sec id now label scopes issuer tenant_id c) [
    | inl (x, e) ↦
        inl (x, bind_raise (new_key sec id now label scopes issuer tenant_id) c c x save_it e)
    | inr (key, e, i) ↦ elim (save-cases key c) [
      | inl (x, s) ↦ inl (
        x,
        bind_ok (new_key sec id now label scopes issuer tenant_id) c c key save_it e
            ∙ bind_raise (Keys.save key) c c x (λ _. pure key) s,
      )
      | inr (c', s, _) ↦ inr (
        key,
        c',
        bind_ok (new_key sec id now label scopes issuer tenant_id) c c key save_it e
            ∙ bind_ok (Keys.save key) c c' tt (λ _. pure key) s,
        i,
        s,
      )
    ]
  ]
    where
      save_it : ApiKey → Action Credentials ApiKey
      save_it key = do Keys.save key; pure key

abbrev pub IssueOutcome :
    Secrets
    → ℕ
    → List String
    → Option ApiKey
    → Option ℕ
    → Credentials
    → Result ApiKey × Credentials
    → Type 0
IssueOutcome sec id scopes issuer tenant_id c (ok key, c') =
    IsIssued sec id scopes issuer tenant_id c key × Inserted key c c'
IssueOutcome sec id scopes issuer tenant_id c (raise _, c') = c' ≡ c

module _ (sec : Secrets) (id : ℕ) (now : Time) (label : String) (scopes : List String)
    (issuer : Option ApiKey) (tenant_id : Option ℕ) (c : Credentials)
    (fresh : find (λ (row : ApiKey). row.id == id) c.keys ≡ none) where
  -- Under an identifier that is new, an issuance that returns has inserted one key: in the tenant of its
  -- issuer, whom it names, or without an issuer in the tenant that the caller named and that is there;
  -- with the scopes asked for, all of them known, and with a hash that no other key has. One that raises
  -- changed nothing.
  pub create_api_key-Outcome :
      IssueOutcome sec id scopes issuer tenant_id c
        (create_api_key sec id now label scopes issuer tenant_id c)
  create_api_key-Outcome = elim (create-cases sec id now label scopes issuer tenant_id c) [
    | inl (x, e) ↦ rw e refl
    | inr (key, c', e, i, s) ↦ rw e (i, inserted key c' i s)
  ]
    where
      inserted :
          (key : ApiKey) (c' : Credentials)
          → IsIssued sec id scopes issuer tenant_id c key
          → Keys.save key c ≡ (ok tt, c')
          → Inserted key c c'
      inserted key c' i s = elim (save-cases key c) [
        | inl (x, s') ↦ cc
        | inr (d, s', inl ins) ↦
            let same : d ≡ c' = ap (λ (r : Result (Unit {0}) × Credentials). r.1) (sym s' ∙ s) in
            subst (λ d. Inserted key c d) same ins
        | inr (d, s', inr (row, there, _)) ↦
            let none_there : find (λ (row : ApiKey). row.id == key.id) c.keys ≡ none =
              subst (λ j. find (λ (row : ApiKey). row.id == j) c.keys ≡ none) (sym i.named) fresh in
            cc
      ]
