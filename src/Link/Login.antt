-- ===== src/Link/Login.antt =====
-- core/internal/link/client.go: Login, the sign-in of a node whose identity is saved.
pub mod Accepted
use easyprivacy.Platform.{Platform}
use easyprivacy.Hex
use easyprivacy.Link.Request.{request}
use easyprivacy.Base.{
  not, ℕ, lit, Error, Text, Bool, Outcome, List, ◌++◌, [], some, false, true, failed, done,
}
use easyprivacy.Link.{
  Input, login_input, challenge_input, rejected, private_key, stopped, got, Identity, Result, Event,
  Web,
}

infixl 5 ◌>>=◌ ◌>>◌
-- A call whose result an error ends.
abbrev pub and_then {ℓ κ} :
    {A : Type ℓ} {B : Type κ}
    → List Event × Result A
    → (A → List Event → List Event × Result B)
    → List Event × Result B
and_then (h, got a) f = f a h
and_then (h, stopped e) f = (h, stopped e)
and_then (h, rejected c m) f = (h, rejected c m)

abbrev pub ◌>>=◌ {ℓ κ} :
    {A : Type ℓ} {B : Type κ}
    → (List Event → List Event × Result A)
    → (A → List Event → List Event × Result B)
    → List Event
    → List Event × Result B
◌>>=◌ m f h = and_then (m h) f

abbrev pub of_outcome {ℓ} : {A : Type ℓ} → Outcome A → List Event → List Event × Result A
of_outcome (done a) h = (h, got a)
of_outcome (failed e) h = (h, stopped e)

abbrev pub stop_if : Bool → Error → List Event → List Event × Result (Unit {0})
stop_if true e h = (h, stopped e)
stop_if false e h = (h, got tt)

abbrev pub ◌>>◌ {ℓ} :
    {B : Type ℓ}
    → (List Event → List Event × Result (Unit {0}))
    → (List Event → List Event × Result B)
    → List Event
    → List Event × Result B
m >> k = m >>= λ _. k

abbrev pub return {ℓ} : {A : Type ℓ} → A → List Event → List Event × Result A
return a h = (h, got a)

-- What is signed for a challenge.
unfoldable pub login_text : (pin device challenge : Text) → Text
login_text pin device challenge =
    lit "easyprivacy.device-login.v1\n" ++ pin ++ lit "\n" ++ device ++ lit "\n" ++ challenge

-- The input of the second call.
unfoldable pub signed_login : Web → (seed : Text) → Identity → (id : Text) → Input
signed_login w seed i id =
    login_input i.device_id id (w.ed25519_sign seed (login_text i.fingerprint i.device_id id))

-- json.Unmarshal into the outputs of the two calls: the field `challenge_id`, and `access_token`.
pub record LoginOutputs : Type 0 where
  pub challenge_id : Text → Outcome Text
  pub access_token : Text → Outcome Text

module _ (g : Platform) (w : Web) where
  -- Login; `now` and `later` are the times of the two handshakes.
  unfoldable pub client_login :
      LoginOutputs → (now later : ℕ) → Identity → List Event → List Event × Result Text
  client_login d now later i = do
    seed ← of_outcome (private_key g w i)
    id ←
        request g w d.challenge_id now i (lit "POST") (lit "/api/v1/device/challenge") []
          (some (challenge_input i.device_id))
    stop_if (not (Hex.valid_id id)) "invalid core challenge"
    token ←
        request g w d.access_token later i (lit "POST") (lit "/api/v1/device/login") []
          (some (signed_login w seed i id))
    stop_if (not (Hex.valid_id token)) "invalid core session"
    return token
