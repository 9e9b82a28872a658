-- ===== src/Tests/State.antt =====
-- core/internal/node/state.go and devices.go: runs of a state that is stored and of a store that is reopened.
use easyprivacy.Strconv.{decimal}
use easyprivacy.Tests.Fixtures.{platform, repeat}
use easyprivacy.Node.State.{
  check_certificate, save_new, rune_count, validate_password, valid_username, new_state,
  private_path, load, Issued, State,
}
use easyprivacy.Base.{arith, drop, lit, Text, [], some, true, refl, ◌≡◌, done}
use easyprivacy.Platform.{Decoder, Platform}
use easyprivacy.Tests.Codec
use easyprivacy.Tests.Codec.{codec-CodecLaws}
use easyprivacy.Node.Devices.Reopen.Histories.{run-Reopened, empty_store, Reopened}
use easyprivacy.Node.Devices.Invariant.{run}
use easyprivacy.Node.State.RoundTrip.{load-new_state}
use easyprivacy.Tests.Devices.{one_history}

abbrev addresses : Platform
addresses = record platform {
  split_host_port = λ t. some ([], drop 1 t);
  pbkdf2 = λ p s. some (repeat 32 9);
}

abbrev issued : Issued
issued = record { salt = done (repeat 16 7); certificate = done (lit "certificate", lit "key") }

abbrev password : Text
password = lit "correct horse battery"

abbrev new_core : State
new_core = record {
  schema_version = 1;
  name = lit "core";
  listen = lit ":7444";
  username = lit "owner";
  salt = repeat 16 7;
  password_hash = repeat 32 9;
  certificate_pem = lit "certificate";
  private_key_pem = lit "key";
}

abbrev codec : Decoder State
codec = record { decode = λ t. some (new_core, []); at_end = λ t. true }

load-new_state_example :
    load addresses codec 5 private_path private_path (done (lit "{}\n")) ≡ done new_core
unfolding new_state valid_username validate_password rune_count decimal save_new repeat
    check_certificate
load-new_state_example =
    load-new_state addresses codec 5 issued (lit "core") 7444 (lit "owner") password new_core
      (lit "{}") (lit "{}\n") [] refl refl refl refl refl refl refl (omega arith) refl refl

run-Reopened_example : Reopened platform Codec.codec (run platform empty_store one_history)
run-Reopened_example =
    run-Reopened platform Codec.codec codec-CodecLaws (λ t h. h) one_history
      (((λ e. absurd (omega arith)), omega arith), (tt, tt))
