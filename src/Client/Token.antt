-- ===== src/Client/Token.antt =====
-- The OAuth2 token of the client: `_get_access_token`.
use text.Mathlib.Text.{◌==◌ as str_eq}
use aethergrid.Base.{
  ◌+◌, ◌-◌, Bool, false, not, Option, none, some, String, ltb, ◌&&◌, if◌then◌else◌,
}
use aethergrid.Domain.Resources.{Time, Duration, seconds}
use aethergrid.Client.Config.{OAuth2Config}

-- The two attributes of the client. `0.0` is the first expiry.
pub record Token : Type 0 where
  pub value : Option String
  pub expiry : Time

-- What the token endpoint does: an error of httpx or a body that is no JSON, or a payload.
pub data TokenReply : Type 0 where
  unavailable : TokenReply
  payload : (access_token : Option String) (expires_in : Option Duration) → TokenReply

-- `if token`
abbrev pub is_given : Option String → Bool
is_given none = false
is_given (some text) = not (str_eq text "")

-- `payload.get("expires_in", 300)`
abbrev pub lifetime : Option Duration → Duration
lifetime none = seconds 300
lifetime (some d) = d

-- A new token, or `none` for AuthError. Subtraction stops at 0, as `max(…, 0)` does.
unfoldable pub fetch_token : OAuth2Config → Time → TokenReply → Option Token
fetch_token oauth now unavailable = none
fetch_token oauth now (payload access_token expires_in) =
    if is_given access_token
    then some
        (record { value = access_token; expiry = now + (lifetime expires_in - oauth.expiry_skew) })
    else none

-- `_get_access_token`: the client's token as it then is, or `none` for AuthError.
unfoldable pub get_access_token : OAuth2Config → Time → TokenReply → Token → Option Token
unfolding fetch_token
get_access_token oauth now reply token =
    if is_given token.value && ltb now token.expiry then some token else fetch_token oauth now reply
