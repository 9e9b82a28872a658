-- ===== src/Windows/Pipe.antt =====
-- native/windows-vpn/main_windows.go: the commands that reach the supervisor by its pipe, and the check of the
-- pipe's owner. What answers may depend on all that has happened, a list of events, the last first.
pub mod Owner
use easyprivacy.Windows.Services.{ServiceState, is_running}
use easyprivacy.Windows.Supervisor.{TunnelStatus}
use easyprivacy.Base.{
  length, not, lit, ltb, fail_if, Error, List, Text, ℕ, Outcome, Option, Bool, ◌++◌, ◌∷◌, [], some,
  none, ◌||◌, false, suc, zero, if◌then◌else◌, ◌==◌, failed, done, ◌>>◌, ◌>>=◌,
}
use easyprivacy.Vpn.Shell.{Run}

-- What Windows says of a pipe that was opened: the process behind it, and the service EasyPrivacyVPN.
pub record Endpoint : Type 0 where
  pub has_handle : Bool
  pub server_process : Outcome ℕ
  pub manager_error : Option Error
  pub name_error : Option Error
  pub service_error : Option Error
  pub service_status : Outcome (ServiceState × ℕ)

abbrev pub none_of : Option Error → Outcome (Unit {0})
none_of none = done tt
none_of (some e) = failed e

-- verifyServicePipe
unfoldable pub verify_service_pipe : Endpoint → Outcome (Unit {0})
verify_service_pipe p = do
  fail_if (not p.has_handle) "cannot verify VPN helper endpoint"
  process ← p.server_process
  none_of p.manager_error
  none_of p.name_error
  none_of p.service_error
  status ← p.service_status
  fail_if (not (is_running status.0) || process == 0 || not (status.1 == process))
      "VPN pipe is not owned by the installed EasyPrivacy service"

pub record Response : Type 0 where
  pub status : ℕ
  pub body : Option Text

pub data Event : Type 0 where
  dialed : Endpoint → Event
  sent : (method path raw : Text) → Option Response → Event
  waits : Event

-- What the commands take from elsewhere: `opens_pipe` gives nothing where the pipe cannot be opened, `answers`
-- nothing where no response comes, and a response has no body where reading its first 4097 bytes fails.
pub record Client : Type 0 where
  pub url_error : Text → Option Error
  pub opens_pipe : List Event → Option Endpoint
  pub answers : List Event → (method path raw : Text) → Option Response
  -- the field `error` of a JSON object, empty where there is none, and errors.New of it
  pub error_field : Text → Text
  pub error_of : Text → Error
  -- json.Unmarshal and json.Marshal of a state
  pub status_of : Text → Option TunnelStatus
  pub status_text : TunnelStatus → Text

module _ (c : Client) where
  abbrev read_body : ℕ → Option Text → Outcome Text
  read_body status none = failed "invalid VPN helper response"
  read_body status (some raw) =
      if ltb 4096 (length raw)
      then failed "invalid VPN helper response"
      else if not (status == 200)
      then failed (c.error_of (c.error_field raw))
      else done raw

  abbrev read_answer : Option Response → Outcome Text
  read_answer none = failed "Install the EasyPrivacy VPN helper first"
  read_answer (some r) = read_body r.status r.body

  -- The pipe is open, and was checked with a result.
  abbrev pub on_checked : (method path raw : Text) → Outcome (Unit {0}) → Run (List Event) Text
  on_checked method path raw (failed e) h = (h, failed "Install the EasyPrivacy VPN helper first")
  on_checked method path raw (done u) h =
      let answer = c.answers h method path raw in
      (sent method path raw answer ∷ h, read_answer answer)

  abbrev pub over_pipe : (method path raw : Text) → Option Endpoint → Run (List Event) Text
  over_pipe method path raw none h = (h, failed "Install the EasyPrivacy VPN helper first")
  over_pipe method path raw (some p) h =
      on_checked method path raw (verify_service_pipe p) (dialed p ∷ h)

  abbrev pub with_request : (method path raw : Text) → Option Error → Run (List Event) Text
  with_request method path raw (some e) h = (h, failed e)
  with_request method path raw none h = over_pipe method path raw (c.opens_pipe h) h

  -- request
  unfoldable pub request : (method path raw : Text) → Run (List Event) Text
  request method path raw h =
      with_request method path raw (c.url_error (lit "http://local" ++ path)) h

  abbrev ready_status : Run (List Event) Text
  ready_status = request (lit "GET") (lit "/status") []

  -- The wait of --install, with what it prints.
  abbrev pub ready_or :
      Run (List Event) Text → List Event × Outcome Text → List Event × Outcome Text
  ready_or rest (h, done b) = (h, done b)
  ready_or rest (h, failed e) = rest (waits ∷ h)

  unfoldable pub await_ready : ℕ → Run (List Event) Text
  await_ready zero h = (h, failed "VPN helper did not become ready")
  await_ready (suc n) h = ready_or (await_ready n) (ready_status h)

  abbrev protocol_checked : Text → Option TunnelStatus → Outcome Text
  protocol_checked raw none = failed "invalid VPN service status"
  protocol_checked raw (some v) =
      if v.protocol == 2 then done raw else done (c.status_text (record v { installed = false }))

  abbrev pub shown_status : List Event × Outcome Text → List Event × Outcome Text
  shown_status (h, failed e) = (h, done (lit "{\"installed\":false,\"active\":false}"))
  shown_status (h, done raw) = (h, protocol_checked raw (c.status_of raw))

  abbrev pub with_input : Option Text → Run (List Event) Text
  with_input none h = (h, failed "invalid tunnel input")
  with_input (some raw) h =
      if ltb 4096 (length raw)
      then (h, failed "invalid tunnel input")
      else request (lit "POST") (lit "/connect") raw h

-- The commands of run that use the pipe: `elevation` is the error of elevate, and `input` what is read of the
-- first 4097 bytes of the standard input, nothing where reading fails.
pub data Command : Type 0 where
  installs : (elevation : Option Error) → Command
  shows_status : Command
  connects : (input : Option Text) → Command
  disconnects : Command

-- What a command prints, or its error.
unfoldable pub run_command : Client → Command → Run (List Event) Text
run_command c (installs (some e)) h = (h, failed e)
run_command c (installs none) h = await_ready c 30 h
run_command c shows_status h = shown_status c (request c (lit "GET") (lit "/status") [] h)
run_command c (connects input) h = with_input c input h
run_command c disconnects h = request c (lit "POST") (lit "/disconnect") [] h
