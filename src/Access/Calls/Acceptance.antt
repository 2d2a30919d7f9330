-- ===== src/Access/Calls/Acceptance.antt =====
-- The plaintext of a key that was issued authenticates it.
use text.Mathlib.Text.{◌==◌ as str_eq}
use text.Mathlib.TextEquality.{eq_iff}
use aethergrid.Base.{
  ℕ, ◌≡◌, refl, subst, ap, ◌∙◌, true, false, Option, none, some, List, [], ◌∷◌, ◌++◌, String, any,
  find, ◌==◌, ok, arith,
}
use aethergrid.Domain.Resources.{Time}
use aethergrid.Access.ApiKey.{ApiKey, Secrets}
use aethergrid.Access.Keys
use aethergrid.Access.Keys.{Credentials, is_key, overwrite, used}
use aethergrid.Access.Calls.{create_api_key, authenticate}
use aethergrid.Access.Calls.Authentication.{authenticate-active}
use aethergrid.Access.Calls.Issuance.{IssueOutcome, create_api_key-Outcome}

-- The hash that is new finds the row that was appended.
find_new :
    (key : ApiKey) (rows : List ApiKey)
    → any (λ (row : ApiKey). str_eq row.key_hash key.key_hash) rows ≡ false
    → find (λ (row : ApiKey). str_eq row.key_hash key.key_hash) (rows ++ (key ∷ [])) ≡ some key
find_new key [] h =
    let same : str_eq key.key_hash key.key_hash ≡ true =
      (eq_iff key.key_hash key.key_hash).1 refl in
    rw same refl
find_new key (r ∷ rs) h = ground (arith, find_new key rs)

-- Under an identifier that is new, the plaintext of a key that was issued is a credential: it is
-- accepted right after and stands for the key that was issued.
pub authenticate-create_api_key :
    (sec : Secrets) (id : ℕ) (now later : Time) (label : String) (scopes : List String)
    (issuer : Option ApiKey) (tenant_id : Option ℕ) (c c' : Credentials) (key : ApiKey)
    → find (λ (row : ApiKey). row.id == id) c.keys ≡ none
    → str_eq sec.raw_key "" ≡ false
    → create_api_key sec id now label scopes issuer tenant_id c ≡ (ok key, c')
    → (authenticate sec.hash_secret later sec.raw_key c').0 ≡ ok key
unfolding Keys.get_by_hash_across_tenants
authenticate-create_api_key sec id now later label scopes issuer tenant_id c c' key fresh given e =
    let (i, ins) : IssueOutcome sec id scopes issuer tenant_id c (ok key, c') =
      subst (IssueOutcome sec id scopes issuer tenant_id c) e
        (create_api_key-Outcome sec id now label scopes issuer tenant_id c fresh) in
    let same : c'.keys ≡ c.keys ++ (key ∷ []) = ap (λ (x : Credentials). x.keys) ins.same in
    let at : find (λ (row : ApiKey). str_eq row.key_hash (sec.hash_secret sec.raw_key)) c'.keys
        ≡ some key =
      subst (λ hash. find (λ (row : ApiKey). str_eq row.key_hash hash) c'.keys ≡ some key) i.hash
        (ap (find (λ (row : ApiKey). str_eq row.key_hash key.key_hash)) same
          ∙ find_new key c.keys ins.hash) in
    authenticate-active sec.hash_secret later sec.raw_key c' key given at (rw i.active refl)
