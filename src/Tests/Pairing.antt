-- ===== src/Tests/Pairing.antt =====
-- core/internal/node/pairing.go: runs of the pairing.
use easyprivacy.Node.Devices.{add}
use easyprivacy.Node.Sessions.{password_matches}
use easyprivacy.Base.{lookup, text_discrete, lit, some, none, [], ◌∷◌, refl, List}
use easyprivacy.Tests.Fixtures.{
  repeat, no_exit, identity, owner, no_devices, key_bytes, platform, server,
}
use easyprivacy.Node.Pairing.{creator_active, StartInput}
use easyprivacy.Node.Enrollment.{
  enrollment_valid, commit_locked, enroll_finish, Ticket, FinishInput,
}
use easyprivacy.Node.Histories.{
  revokes, finishes, history-Budget, starts, history, makes_code, Event,
}
use easyprivacy.Node.Pairing.Budget.{Budget}
use easyprivacy.Node.Server.{Server, Enrollment, PairingCode}
use easyprivacy.Node.Enrollment.Access.{enroll_finish_sound, Closed, MayEnroll}

abbrev start_input : StartInput
start_input = record { name = lit "phone"; target = lit "core.example"; public_key = key_bytes }

abbrev finish_input : FinishInput
finish_input = record { id = lit "x"; message = []; proof = [] }

-- A code is made, an exchange begins, ends with a wrong proof, and the device that is known is revoked.
abbrev events : List (Event (Unit {0}))
events =
    makes_code 20000000000 (some 7) (lit "generation") []
    ∷ starts 20000000001 (lit "x") [] start_input
    ∷ finishes 20000000002 finish_input
    ∷ revokes no_exit none identity
    ∷ []

history-Budget_example : Budget (history platform server events)
history-Budget_example = history-Budget platform events server (refl)

abbrev a_code : PairingCode
a_code = record {
  code = lit "00000007";
  expires_at = 100;
  attempts = 1;
  generation = lit "generation";
  creator = [];
}

abbrev verified : Enrollment
verified = record {
  ref = 1;
  public_key = key_bytes;
  name = lit "phone";
  generation = lit "generation";
  expires_at = 90;
  proof_hash = [];
  attempts = 1;
}

abbrev pairing_server : Server (Unit {0})
pairing_server = record server {
  devices = no_devices;
  code = some a_code;
  enrollments = (lit "x", verified) ∷ [];
  next_ref = 2;
}

abbrev ticket : Ticket
ticket = record {
  input = record { id = lit "x"; proof = []; credentials = owner };
  pending = verified;
}

enroll_finish_sound_example :
    MayEnroll platform 5 ticket pairing_server
    × Closed platform (enroll_finish platform none 5 ticket pairing_server).0
unfolding enroll_finish password_matches text_discrete commit_locked lookup enrollment_valid
    creator_active add repeat
enroll_finish_sound_example =
    enroll_finish_sound platform none 5 ticket identity pairing_server refl
