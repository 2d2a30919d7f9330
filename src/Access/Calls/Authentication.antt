-- ===== src/Access/Calls/Authentication.antt =====
-- Authentication: which credentials are accepted.
use text.Mathlib.Text.{◌==◌ as str_eq}
use aethergrid.Base.{
  ℕ, ◌≡◌, ◌⊎◌, inl, inr, refl, ap, true, false, some, String, map, any, any-Member, find-Member,
  Bool-cases, Option-cases, Result, ok, raise, Error, arith, pure, bind_ok, bind_raise,
  invalid_api_key, api_key_not_found,
}
use aethergrid.Domain.Resources.{Time}
use aethergrid.Access.ApiKey.{ApiKey, is_active}
use aethergrid.Access.Keys
use aethergrid.Access.Keys.{Credentials, is_key, used}
use aethergrid.Access.Calls.{authenticate}

mark_used-cases :
    (id t : ℕ) (now : Time) (c : Credentials)
    → ((x : Error) × (Keys.mark_used id t now c ≡ (raise x, c)))
      ⊎ (Keys.mark_used id t now c ≡ (ok tt, record c { keys = map (used id t now) c.keys }))
unfolding Keys.mark_used
mark_used-cases id t now c = elim (Bool-cases (any (is_key id t) c.keys)) [
  | inl e ↦ inr (rw (Keys.mark_used, e) refl)
  | inr e ↦ inl (api_key_not_found, rw (Keys.mark_used, e) refl)
]

mark_used-found :
    (hash : String) (now : Time) (c : Credentials) (key : ApiKey)
    → Keys.get_by_hash_across_tenants hash c ≡ some key
    → Keys.mark_used key.id key.tenant_id now c
      ≡ (ok tt, record c { keys = map (used key.id key.tenant_id now) c.keys })
unfolding Keys.mark_used Keys.get_by_hash_across_tenants
mark_used-found hash now c key f =
    let m : any (is_key key.id key.tenant_id) c.keys ≡ true =
      any-Member (is_key key.id key.tenant_id) key c.keys
        (find-Member (λ (row : ApiKey). str_eq row.key_hash hash) c.keys key f) (ground arith) in
    rw (Keys.mark_used, m) refl

-- An authentication changes nothing, or the time of the last use of an active key that it returns.
pub authenticate-cases :
    (hash_secret : String → String) (now : Time) (raw_key : String) (c : Credentials)
    → ((x : Error) × (authenticate hash_secret now raw_key c ≡ (raise x, c)))
      ⊎ ((key : ApiKey) × (authenticate hash_secret now raw_key c
            ≡ (ok key, record c { keys = map (used key.id key.tenant_id now) c.keys }))
          × (Keys.get_by_hash_across_tenants (hash_secret raw_key) c ≡ some key)
          × (is_active key ≡ true))
unfolding authenticate
authenticate-cases hash_secret now raw_key c = elim (Bool-cases (str_eq raw_key "")) [
  | inl e ↦ inl (invalid_api_key, rw (authenticate, e) refl)
  | inr e ↦ elim (Option-cases (Keys.get_by_hash_across_tenants (hash_secret raw_key) c)) [
    | inl n ↦ inl (invalid_api_key, rw (authenticate, e, n) refl)
    | inr (key, f) ↦ elim (Bool-cases (is_active key)) [
      | inr a ↦ inl (invalid_api_key, rw (authenticate, e, f, a) refl)
      | inl a ↦ elim (mark_used-cases key.id key.tenant_id now c) [
        | inl (x, m) ↦ inl (
          x,
          rw (authenticate, e, f, a)
              (bind_raise (Keys.mark_used key.id key.tenant_id now) c c x (λ _. pure key) m),
        )
        | inr m ↦ inr (
          key,
          rw (authenticate, e, f, a)
              (bind_ok (Keys.mark_used key.id key.tenant_id now) c
                (record c { keys = map (used key.id key.tenant_id now) c.keys }) tt (λ _. pure key)
                m),
          f,
          a,
        )
      ]
    ]
  ]
]

-- The credential of an active key is accepted.
pub authenticate-active :
    (hash_secret : String → String) (now : Time) (raw_key : String) (c : Credentials) (key : ApiKey)
    → str_eq raw_key "" ≡ false
    → Keys.get_by_hash_across_tenants (hash_secret raw_key) c ≡ some key
    → is_active key ≡ true
    → (authenticate hash_secret now raw_key c).0 ≡ ok key
unfolding authenticate
authenticate-active hash_secret now raw_key c key e f a =
    rw (authenticate, e, f, a)
      (ap (λ (r : Result ApiKey × Credentials). r.0)
        (bind_ok (Keys.mark_used key.id key.tenant_id now) c
          (record c { keys = map (used key.id key.tenant_id now) c.keys }) tt (λ _. pure key)
          (mark_used-found (hash_secret raw_key) now c key f)))
