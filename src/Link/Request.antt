-- ===== src/Link/Request.antt =====
-- core/internal/link/client.go: Request, one call of the core over a connection to its pinned
-- certificate.
pub mod Policy
use easyprivacy.Platform.{Platform}
use easyprivacy.Hex
use easyprivacy.Strconv.{decimal}
use easyprivacy.Base.{
  length, Error, ltb, not, Option, is_empty, List, map, same, Outcome, ℕ, Bool, lit, Text, ◌++◌,
  ◌∷◌, [], some, none, ◌||◌, ◌&&◌, false, true, if◌then◌else◌, ◌==◌, failed, done,
}
use easyprivacy.Link.{
  sent, rejected, authority, valid_pin, dialed, got, Input, Event, Response, stopped, Identity,
  Call, Result, Certificate, Web,
}

abbrev pub start_path : Text
start_path = lit "/api/v1/pairing/start"

abbrev pub finish_path : Text
finish_path = lit "/api/v1/pairing/finish"

-- Without a pin, only the two public calls of the exchange, and no token.
unfoldable pub public_call : (method path token : Text) → Bool
public_call method path token =
    same method (lit "POST") && (same path start_path || same path finish_path) && is_empty token

module _ (g : Platform) where
  -- The pin of a certificate.
  unfoldable pub certificate_pin : Certificate → Text
  certificate_pin c = lit "SHA256:" ++ map Hex.upper (Hex.encode (g.sha256 c.raw))

  abbrev verified : (now : ℕ) (pin : Text) → Certificate → Bool
  verified now pin c =
      same pin (certificate_pin c) && not (ltb now c.not_before) && not (ltb c.not_after now)

  -- VerifyConnection
  unfoldable pub verify_connection : (now : ℕ) (pin : Text) → List Certificate → Bool
  verify_connection now [] cs = true
  verify_connection now (c ∷ pin) [] = false
  verify_connection now (c ∷ pin) (leaf ∷ cs) = verified now (c ∷ pin) leaf

module _ (w : Web) where
  -- What an error response says.
  unfoldable pub error_message : ℕ → Text → Text
  error_message status raw =
      let message = w.error_field raw in
      if is_empty message || ltb 300 (length message)
      then lit "core rejected the request (" ++ decimal status ++ lit ")"
      else message

  abbrev parsed {ℓ} : {A : Type ℓ} → Outcome A → Result A
  parsed (failed e) = stopped e
  parsed (done a) = got a

  abbrev read_body {ℓ} : {A : Type ℓ} → (Text → Outcome A) → ℕ → Option Text → Result A
  read_body parse status none = stopped "invalid core response"
  read_body parse status (some raw) =
      if ltb 65536 (length raw)
      then stopped "invalid core response"
      else if not (status == 200)
      then rejected status (error_message status raw)
      else parsed (parse raw)

  abbrev pub read_answer {ℓ} : {A : Type ℓ} → (Text → Outcome A) → Option Response → Result A
  read_answer parse none = stopped "could not reach or verify the core"
  read_answer parse (some a) = read_body parse a.status a.body

module _ (g : Platform) (w : Web) where
  abbrev over_connection {ℓ} :
      {A : Type ℓ}
      → (Text → Outcome A)
      → (now : ℕ) (pin : Text) → Call
      → Option (List Certificate)
      → List Event
      → List Event × Result A
  over_connection parse now pin c none h = (h, stopped "could not reach or verify the core")
  over_connection parse now pin c (some certificates) h =
      let t = dialed c.authority certificates ∷ h in
      if verify_connection g now pin certificates
      then (sent c (w.answers t c) ∷ t, read_answer w parse (w.answers t c))
      else (t, stopped "could not reach or verify the core")

  abbrev with_request {ℓ} :
      {A : Type ℓ}
      → (Text → Outcome A)
      → (now : ℕ) (pin : Text) → Call
      → Option Error
      → List Event
      → List Event × Result A
  with_request parse now pin c (some e) h = (h, stopped e)
  with_request parse now pin c none h = over_connection parse now pin c (w.presents h c.authority) h

  abbrev to_authority {ℓ} :
      {A : Type ℓ}
      → (Text → Outcome A)
      → (now : ℕ) (pin method path token : Text) → Option Input
      → Outcome Text
      → List Event
      → List Event × Result A
  to_authority parse now pin method path token input (failed e) h = (h, stopped e)
  to_authority parse now pin method path token input (done a) h =
      if is_empty pin && not (public_call method path token)
      then (h, stopped "verify the core before sending credentials")
      else if not (is_empty pin) && not (valid_pin pin)
      then (h, stopped "invalid saved core fingerprint")
      else with_request parse now pin
          (record { authority = a; method = method; path = path; token = token; input = input })
          (w.url_error (lit "https://" ++ a ++ path)) h

  -- Request; `parse` is json.Unmarshal into the output, and `now` the time of the handshake.
  unfoldable pub request {ℓ} :
      {A : Type ℓ}
      → (Text → Outcome A)
      → (now : ℕ) → Identity
      → (method path token : Text) → Option Input
      → List Event
      → List Event × Result A
  request parse now i method path token input h =
      to_authority parse now i.fingerprint method path token input (authority w i.address) h
