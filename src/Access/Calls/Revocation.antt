-- ===== src/Access/Calls/Revocation.antt =====
-- Revocation: who may revoke a key, and that a key that was revoked is dead.
use aethergrid.Base.{
  ℕ, ◌≡◌, ◌⊎◌, inl, inr, refl, sym, subst, ap, true, false, Option, none, some, arith, find-none,
  any-Member, find-Member, ==_refl, ◌∙◌, map, any, find_passes, holds, ◌==◌, Bool-cases,
  Option-cases, Result, Result-cases, ok, raise, Error,
}
use aethergrid.Domain.Resources.{Time}
use aethergrid.Access.ApiKey
use aethergrid.Access.ApiKey.{ApiKey, Secrets, is_active, contains, keys_manage}
use aethergrid.Access.Keys
use aethergrid.Access.Keys.{Credentials, is_key, overwrite, used}
use aethergrid.Access.Calls.{revoke_api_key}
use aethergrid.Access.Keys.Writes.{IsKeyed, IsDead, save-cases, dead_overwrite, find-IsDead}

-- A key may revoke another of its tenant that it issued, or where it holds `keys:manage`.
abbrev pub MayRevoke : ApiKey → ApiKey → Type 0
MayRevoke caller key =
    (key.tenant_id ≡ caller.tenant_id)
    × ((contains keys_manage caller.scopes ≡ true) ⊎ (key.issued_by ≡ some caller.id))

-- A stored key that the caller may revoke, and what a revocation of it leaves.
pub record Revoked (now : Time) (id : ℕ) (caller : ApiKey) (c c' : Credentials) : Type 0 where
  pub key : ApiKey
  pub found : Keys.get_by_id id caller.tenant_id c ≡ some key
  pub allowed : MayRevoke caller key
  pub written :
      ((is_active key ≡ false) × (c' ≡ c))
      ⊎ (c' ≡ record c { keys = map (overwrite (record key { revoked_at = some now })) c.keys })

abbrev pub RevokeOutcome :
    Time → ℕ → ApiKey → Credentials → Result (Unit {0}) × Credentials → Type 0
RevokeOutcome now id caller c (ok _, c') = Revoked now id caller c c'
RevokeOutcome now id caller c (raise _, c') = c' ≡ c

-- Where the key was found, and what is saved has the same identifier, nothing is inserted.
save_found :
    (now : Time) (id t : ℕ) (key : ApiKey) (c : Credentials)
    → Keys.get_by_id id t c ≡ some key
    → ((e : Error) × (Keys.save (record key { revoked_at = some now }) c ≡ (raise e, c)))
      ⊎ (Keys.save (record key { revoked_at = some now }) c ≡ (
        ok tt,
        record c { keys = map (overwrite (record key { revoked_at = some now })) c.keys },
      ))
unfolding Keys.get_by_id
save_found now id t key c found = elim (save-cases (record key { revoked_at = some now }) c) [
  | inl (x, e) ↦ inl (x, e)
  | inr (c', e, inr (row, _, same)) ↦ inr (e ∙ ap (λ d. (ok tt, d)) same)
  | inr (c', e, inl i) ↦
      let none_there : any (λ (row : ApiKey). row.id == key.id) c.keys ≡ false =
        find-none (λ (row : ApiKey). row.id == key.id) c.keys i.fresh in
      let there : any (λ (row : ApiKey). row.id == key.id) c.keys ≡ true =
        any-Member (λ (row : ApiKey). row.id == key.id) key c.keys
          (find-Member (is_key id t) c.keys key found) (==_refl key.id) in
      cc
]

holds_issuer : (o : Option ℕ) (a : ℕ) → holds o a ≡ true → o ≡ some a
holds_issuer none a h = cc
holds_issuer (some b) a h = ground arith

may_revoke :
    (id : ℕ) (caller key : ApiKey) (c : Credentials)
    → Keys.get_by_id id caller.tenant_id c ≡ some key
    → ApiKey.authorize_key_revocation caller.scopes caller.id key.issued_by ≡ ok tt
    → MayRevoke caller key
unfolding Keys.get_by_id ApiKey.authorize_key_revocation
may_revoke id caller key c found e =
    let passes : is_key id caller.tenant_id key ≡ true =
      find_passes (is_key id caller.tenant_id) c.keys key found in
    let tenant : key.tenant_id ≡ caller.tenant_id = ground arith in
    (tenant, ground (arith, holds_issuer key.issued_by caller.id))

-- A revocation that returns was made by a key that may revoke the named one, which is in its tenant; it
-- wrote the time of the revocation on that one row, or nothing where the row was revoked before. One
-- that raises changed nothing.
pub revoke_api_key-Outcome :
    (now : Time) (id : ℕ) (caller : ApiKey) (c : Credentials)
    → RevokeOutcome now id caller c (revoke_api_key now id caller c)
unfolding revoke_api_key ApiKey.revoke ApiKey.authorize_key_revocation
revoke_api_key-Outcome now id caller c =
    elim (Option-cases (Keys.get_by_id id caller.tenant_id c)) [
      | inl n ↦ rw (revoke_api_key, n) refl
      | inr (key, found) ↦
          elim (Result-cases
            (ApiKey.authorize_key_revocation caller.scopes caller.id key.issued_by)) [
              | inr (x, e) ↦ rw (revoke_api_key, found, e) refl
              | inl (_, e) ↦
                  let allowed : MayRevoke caller key = may_revoke id caller key c found e in
                  elim (Bool-cases (is_active key)) [
                    | inr dead ↦
                        rw (revoke_api_key, found, e, ApiKey.revoke, dead)
                          (record {
                            key = key;
                            found = found;
                            allowed = allowed;
                            written = inl (dead, refl);
                          })
                    | inl live ↦ elim (save_found now id caller.tenant_id key c found) [
                      | inl (x, s) ↦ rw (revoke_api_key, found, e, ApiKey.revoke, live, s) refl
                      | inr s ↦
                          rw (revoke_api_key, found, e, ApiKey.revoke, live, s)
                            (record {
                              key = key;
                              found = found;
                              allowed = allowed;
                              written = inr refl;
                            })
                    ]
                  ]
            ]
    ]

-- What a revocation that returns leaves of the key.
pub revoked-IsDead :
    (now : Time) (id : ℕ) (caller : ApiKey) (c c' : Credentials)
    → IsKeyed c.keys
    → Revoked now id caller c c'
    → IsDead id c'.keys
unfolding Keys.get_by_id
revoked-IsDead now id caller c c' u r = elim r.written [
  | inl (dead, same) ↦
      subst (λ (d : Credentials). IsDead id d.keys) (sym same)
        (find-IsDead id caller.tenant_id r.key c.keys u r.found dead)
  | inr same ↦
      let passes : is_key id caller.tenant_id r.key ≡ true =
        find_passes (is_key id caller.tenant_id) c.keys r.key r.found in
      let at : r.key.id ≡ id = ground arith in
      subst (λ (d : Credentials). IsDead id d.keys) (sym same)
        (subst (λ j. IsDead j (map (overwrite (record r.key { revoked_at = some now })) c.keys)) at
          (dead_overwrite (record r.key { revoked_at = some now }) c.keys refl))
]
