-- ===== src/Access/Calls/Histories.antt =====
-- Calls of the services one after the other, and what they leave of a revoked key.
use text.Mathlib.Text.{◌==◌ as str_eq}
use aethergrid.Base.{
  ℕ, ◌≡◌, ◌≢◌, ◌⊎◌, inl, inr, refl, sym, subst, ap, ◌∙◌, false, Option, some, List, [], String, map,
  find-All, All, ◌∷◌, Result, Result-cases, ok, raise,
}
use aethergrid.Domain.Resources.{Time}
use aethergrid.Access.ApiKey.{ApiKey, Secrets, is_active}
use aethergrid.Access.Keys
use aethergrid.Access.Keys.{Credentials, is_key, overwrite, used}
use aethergrid.Access.Keys.Writes.{
  IsKeyed, IsDead, save-cases, overwrite-IsDead, append-IsDead, used-IsDead,
}
use aethergrid.Access.Calls.{create_api_key, authenticate, revoke_api_key}
use aethergrid.Access.Calls.Authentication.{authenticate-cases}
use aethergrid.Access.Calls.Issuance.{create-cases}
use aethergrid.Access.Calls.Revocation.{
  Revoked, RevokeOutcome, revoke_api_key-Outcome, revoked-IsDead,
}

pub data Call : Type 0 where
  creates :
      Secrets → (id : ℕ) → Time → (label : String) → List String → Option ApiKey → Option ℕ → Call
  authenticates : (String → String) → Time → (raw_key : String) → Call
  revokes : Time → (api_key_id : ℕ) → (caller : ApiKey) → Call

-- The state after a call, also where it raises.
unfoldable pub apply : Call → Credentials → Credentials
apply (creates sec id now label scopes issuer tenant_id) c =
    (create_api_key sec id now label scopes issuer tenant_id c).1
apply (authenticates hash_secret now raw_key) c = (authenticate hash_secret now raw_key c).1
apply (revokes now id caller) c = (revoke_api_key now id caller c).1

unfoldable pub run : List Call → Credentials → Credentials
unfolding apply
run [] c = c
run (e ∷ es) c = run es (apply e c)

-- A call that issues no key under this identifier.
abbrev pub Avoids : ℕ → Call → Type 0
Avoids id (creates _ new _ _ _ _ _) = new ≢ id
Avoids id _ = Unit

save-IsDead :
    (id : ℕ) (key : ApiKey) (c c' : Credentials)
    → Keys.save key c ≡ (ok tt, c')
    → key.id ≢ id
    → IsDead id c.keys
    → IsDead id c'.keys
save-IsDead id key c c' e n d = elim (save-cases key c) [
  | inl (x, s) ↦ cc
  | inr (b, s, w) ↦
      let same : b ≡ c' = ap (λ (r : Result (Unit {0}) × Credentials). r.1) (sym s ∙ e) in
      let kept : IsDead id b.keys = elim w [
        | inl ins ↦
            subst (λ (x : Credentials). IsDead id x.keys) (sym ins.same)
              (append-IsDead id key c.keys n d)
        | inr (_, _, s') ↦
            subst (λ (x : Credentials). IsDead id x.keys) (sym s')
              (overwrite-IsDead id key c.keys (inl n) d)
      ] in
      subst (λ (x : Credentials). IsDead id x.keys) same kept
]

-- What a revocation leaves, whatever it returns.
revoke-cases :
    (now : Time) (id : ℕ) (caller : ApiKey) (c : Credentials)
    → ((revoke_api_key now id caller c).1 ≡ c)
      ⊎ ((key : ApiKey) × ((revoke_api_key now id caller c).1
            ≡ record c { keys = map (overwrite (record key { revoked_at = some now })) c.keys }))
revoke-cases now id caller c = elim (Result-cases (revoke_api_key now id caller c).0) [
  | inr (x, e) ↦ inl (split (raise x) (revoke_api_key now id caller c).1 e)
  | inl (_, e) ↦
      let r : Revoked now id caller c (revoke_api_key now id caller c).1 =
        split (ok tt) (revoke_api_key now id caller c).1 e in
      elim r.written [ inl (_, same) ↦ inl same | inr same ↦ inr (r.key, same) ]
]
  where
    split :
        (r : Result (Unit {0})) (c' : Credentials)
        → (revoke_api_key now id caller c).0 ≡ r
        → RevokeOutcome now id caller c (r, (revoke_api_key now id caller c).1)
    split r c' e =
        subst (λ s. RevokeOutcome now id caller c (s, (revoke_api_key now id caller c).1)) e
          (revoke_api_key-Outcome now id caller c)

after :
    (id : ℕ) {r : Result ApiKey × Credentials} {x : Result ApiKey} {c : Credentials}
    → r ≡ (x, c)
    → IsDead id c.keys
    → IsDead id r.1.keys
after id e d = subst (λ (r : Result ApiKey × Credentials). IsDead id r.1.keys) (sym e) d

apply-IsDead :
    (id : ℕ) (e : Call) (c : Credentials)
    → Avoids id e
    → IsDead id c.keys
    → IsDead id (apply e c).keys
unfolding apply
apply-IsDead id (creates sec new now label scopes issuer tenant_id) c n d =
    elim (create-cases sec new now label scopes issuer tenant_id c) [
      | inl (x, e) ↦ after id e d
      | inr (key, c', e, i, s) ↦
          after id e (save-IsDead id key c c' s (λ same. n (sym i.named ∙ same)) d)
    ]
apply-IsDead id (authenticates hash_secret now raw_key) c _ d =
    elim (authenticate-cases hash_secret now raw_key c) [
      | inl (x, e) ↦ after id e d
      | inr (key, e, _, _) ↦ after id e (used-IsDead id key.id key.tenant_id now c.keys d)
    ]
apply-IsDead id (revokes now other caller) c _ d = elim (revoke-cases now other caller c) [
  | inl same ↦ subst (λ (x : Credentials). IsDead id x.keys) (sym same) d
  | inr (key, same) ↦
      subst (λ (x : Credentials). IsDead id x.keys) (sym same)
        (overwrite-IsDead id (record key { revoked_at = some now }) c.keys (inr refl) d)
]

run-IsDead :
    (id : ℕ) (es : List Call) (c : Credentials)
    → All (Avoids id) es
    → IsDead id c.keys
    → IsDead id (run es c).keys
unfolding run
run-IsDead id [] c h d = d
run-IsDead id (e ∷ es) c h d = run-IsDead id es (apply e c) h.1 (apply-IsDead id e c h.0 d)

ok_inj : {a b : ApiKey} → ok a ≡ ok b → a ≡ b
ok_inj e = cc

-- After a revocation that returned, whatever calls of the services follow, none of which issues a key
-- under the same identifier: no credential authenticates the revoked key.
pub revoke_api_key-final :
    (now later : Time) (id : ℕ) (caller : ApiKey) (c c' : Credentials) (es : List Call)
    (hash_secret : String → String) (raw_key : String) (key : ApiKey)
    → IsKeyed c.keys
    → revoke_api_key now id caller c ≡ (ok tt, c')
    → All (Avoids id) es
    → (authenticate hash_secret later raw_key (run es c')).0 ≡ ok key
    → key.id ≢ id
unfolding Keys.get_by_hash_across_tenants
revoke_api_key-final now later id caller c c' es hash_secret raw_key key u e h a same =
    let r : Revoked now id caller c c' =
      subst (RevokeOutcome now id caller c) e (revoke_api_key-Outcome now id caller c) in
    let dead : IsDead id (run es c').keys =
      run-IsDead id es c' h (revoked-IsDead now id caller c c' u r) in
    elim (authenticate-cases hash_secret later raw_key (run es c')) [
      | inl (x, e') ↦ cc
      | inr (k, e', f, live) ↦
          let is : k ≡ key = ok_inj (sym (ap (λ (r : Result ApiKey × Credentials). r.0) e') ∙ a) in
          let killed : is_active k ≡ false =
            find-All (λ (r : ApiKey). r.id ≡ id → is_active r ≡ false)
              (λ (row : ApiKey). str_eq row.key_hash (hash_secret raw_key)) (run es c').keys k dead
              f (ap (λ (r : ApiKey). r.id) is ∙ same) in
          cc
    ]
