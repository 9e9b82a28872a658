-- ===== src/Vpn/Client.antt =====
-- core/internal/vpn/client.go: the client of the exit's control socket. What the socket answers may
-- depend on all that was asked, a list of the requests, the last first.
pub mod Absent
use easyprivacy.Vpn.Types.{Exit, Profile, ServiceProfile, Peer, Status, Control}
use easyprivacy.Hex.{valid_id}
use easyprivacy.Base.{
  length, ltb, is_empty, Bool, not, Error, lit, Option, Outcome, List, ℕ, Text, ◌++◌, ◌∷◌, [], some,
  none, ◌&&◌, false, true, if◌then◌else◌, ◌==◌, failed, done,
}

pub record Client : Type 0 where
  pub socket_path : Text
  pub config_marker : Text

-- A response: the body is nothing where reading it fails, which is done for 16385 bytes at most.
pub record Answer : Type 0 where
  pub status : ℕ
  pub body : Option Text

pub record Asked : Type 0 where
  pub method : Text
  pub path : Text
  pub input : Option Peer
  pub answer : Option Answer

-- What the client takes from Go's standard library and from the machine.
pub record Socket : Type 0 where
  -- the response to a request over the socket of a path, nothing where none comes
  pub answers : List Asked → (socket_path method path : Text) → Option Peer → Option Answer
  -- the error of http.NewRequest for a URL
  pub url_error : Text → Option Error
  -- os.Stat of a path gives os.ErrNotExist
  pub is_missing : List Asked → Text → Bool
  -- encoding/json: the field `error` of an object, empty where there is none, and the outputs
  pub error_field : Text → Text
  pub exit_of : Text → Outcome Exit
  pub exits_of : Text → Outcome (List Exit)
  pub profile_of : Text → Outcome Profile
  pub service_profile_of : Text → Outcome ServiceProfile
  pub status_of : Text → Outcome Status
  -- errors.New
  pub error_of : Text → Error

-- The Peer of a request, its other fields left at their zero values.
abbrev pub peer_input : (id key exit name management : Text) → Peer
peer_input id key exit name management = record {
  device_id = id;
  public_key = key;
  host = 0;
  exit_id = exit;
  service = false;
  name = name;
  management = management;
}

abbrev pub peer_path : Text → Text
peer_path id = lit "/peers/" ++ id

-- An operation that has no output.
abbrev pub no_output : Text → Outcome (Unit {0})
no_output raw = done tt

abbrev pub error_in : Outcome (Unit {0}) → Option Error
error_in (failed e) = some e
error_in (done v) = none

module _ (w : Socket) where
  -- What an error response says.
  unfoldable pub rejection : Text → Error
  rejection message =
      if not (is_empty message) && ltb (length message) 300
      then w.error_of message
      else "VPN service rejected the request"

  abbrev pub read_body {ℓ} : {A : Type ℓ} → (Text → Outcome A) → ℕ → Option Text → Outcome A
  read_body parse status none = failed "invalid VPN service response"
  read_body parse status (some raw) =
      if ltb 16384 (length raw)
      then failed "invalid VPN service response"
      else if not (status == 200)
      then failed (rejection (w.error_field raw))
      else parse raw

  abbrev pub read_answer {ℓ} : {A : Type ℓ} → (Text → Outcome A) → Option Answer → Outcome A
  read_answer parse none = failed "VPN service is unavailable; check easyprivacy-vpn.service"
  read_answer parse (some a) = read_body parse a.status a.body

  module _ (c : Client) where
    abbrev with_request {ℓ} :
        {A : Type ℓ}
        → (Text → Outcome A)
        → (method path : Text) → Option Peer
        → Option Error
        → List Asked
        → List Asked × Outcome A
    with_request parse method path input (some e) h = (h, failed e)
    with_request parse method path input none h =
        let answer = w.answers h c.socket_path method path input in
        (
          record { method = method; path = path; input = input; answer = answer } ∷ h,
          read_answer parse answer,
        )

    -- request; `parse` is json.Unmarshal into the output.
    unfoldable pub request {ℓ} :
        {A : Type ℓ}
        → (Text → Outcome A)
        → (method path : Text) → Option Peer
        → List Asked
        → List Asked × Outcome A
    request parse method path input h =
        with_request parse method path input (w.url_error (lit "http://local" ++ path)) h

    abbrev client_info : List Asked → List Asked × Outcome Exit
    client_info h = request w.exit_of (lit "GET") (lit "/exit") none h

    abbrev client_register_exit : (id key exit : Text) → List Asked → List Asked × Outcome Profile
    client_register_exit id key exit h =
        request w.profile_of (lit "POST") (lit "/peers") (some (peer_input id key exit [] [])) h

    abbrev client_register : (id key : Text) → List Asked → List Asked × Outcome Profile
    client_register id key h = client_register_exit id key (lit "vps") h

    abbrev client_exits : List Asked → List Asked × Outcome (List Exit)
    client_exits h = request w.exits_of (lit "GET") (lit "/exits") none h

    abbrev client_register_service :
        (id key name management : Text) → List Asked → List Asked × Outcome ServiceProfile
    client_register_service id key name management h =
        request w.service_profile_of (lit "POST") (lit "/service")
          (some (peer_input id key [] name management)) h

    -- The result of Remove, given that of its request.
    abbrev pub unless_absent : List Asked × Option Error → List Asked × Option Error
    unless_absent (h, none) = (h, none)
    unless_absent (h, some e) =
        if not (is_empty c.config_marker) && w.is_missing h c.config_marker
        then (h, none)
        else (h, some e)

    -- Remove
    unfoldable pub client_remove : (id : Text) → List Asked → List Asked × Option Error
    client_remove id h =
        if not (valid_id id)
        then (h, some "invalid device")
        else let (t, o) = request no_output (lit "DELETE") (peer_path id) none h in
          unless_absent (t, error_in o)

    -- Status
    unfoldable pub client_status : (id : Text) → List Asked → List Asked × Outcome Status
    client_status id h =
        if not (valid_id id)
        then (h, failed "invalid device")
        else request w.status_of (lit "GET") (peer_path id) none h

    -- The client as the exit of the core's server.
    unfoldable pub socket_control : Control (List Asked)
    socket_control = record {
      serves = true;
      info = client_info;
      register = client_register;
      remove = client_remove;
      status = client_status;
      exits = client_exits;
      register_exit = client_register_exit;
      register_service = client_register_service;
    }
