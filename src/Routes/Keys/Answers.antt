-- ===== src/Routes/Keys/Answers.antt =====
-- What an answer of the route that revokes a key says of the keys.
use aethergrid.Base.{ℕ, ◌≡◌, refl, Option, none, some, Result, Error, ok, raise}
use aethergrid.Domain.Resources.{Time}
use aethergrid.Access.ApiKey.{ApiKey}
use aethergrid.Access.Keys.{Credentials}
use aethergrid.Access.Calls.{revoke_api_key}
use aethergrid.Access.Calls.Revocation.{Revoked, RevokeOutcome, revoke_api_key-Outcome}
use aethergrid.Routes.{Response, answered, refused, crashed, handle}
use aethergrid.Routes.Keys.{no_access, revoke_api_key_route}

-- The answer 204 of a key of the path that was revoked, or an error and nothing changed.
abbrev pub RevokeAnswer :
    Time → Option ℕ → ApiKey → Credentials → Response (Unit {0}) × Credentials → Type 0
RevokeAnswer now api_key_id caller c (answered status _, c') =
    (status ≡ 204) × (id : ℕ) × (api_key_id ≡ some id) × Revoked now id caller c c'
RevokeAnswer now api_key_id caller c (refused _, c') = c' ≡ c
RevokeAnswer now api_key_id caller c (crashed _, c') = c' ≡ c

handled :
    (now : Time) (id : ℕ) (caller : ApiKey) (c c' : Credentials) (status : Option ℕ) (x : Error)
    → c' ≡ c
    → RevokeAnswer now
        (some id)
        caller
        c
        (elim status as (λ _. Response (Unit {0})) [ some n ↦ refused n | none ↦ crashed x ], c')
handled now id caller c c' none x e = e
handled now id caller c c' (some n) x e = e

-- A revocation over HTTP that is answered 204 was made by a key that may revoke the one of the path, which is
-- in its tenant: it issued it or holds keys:manage; the time of the revocation was written on that one row, or
-- nothing where the row was revoked before. With any other answer nothing changed.
pub revoke_api_key_route-Answer :
    (now : Time) (api_key_id : Option ℕ) (caller : ApiKey) (c : Credentials)
    → RevokeAnswer now api_key_id caller c (revoke_api_key_route now api_key_id caller c)
unfolding revoke_api_key_route
revoke_api_key_route-Answer now none caller c = refl
revoke_api_key_route-Answer now (some id) caller c =
    decided (revoke_api_key now id caller c).0 (revoke_api_key now id caller c).1
      (revoke_api_key-Outcome now id caller c)
  where
    decided :
        (r : Result (Unit {0})) (c' : Credentials)
        → RevokeOutcome now id caller c (r, c')
        → RevokeAnswer now (some id) caller c (elim r as (λ _. Response (Unit {0}) × Credentials) [
          | ok a ↦ (answered 204 tt, c')
          | raise x ↦ (handle no_access x, c')
        ])
    decided (ok a) c' h = (refl, id, refl, h)
    decided (raise x) c' h = handled now id caller c c' (no_access x) x h
