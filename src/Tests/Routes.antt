-- ===== src/Tests/Routes.antt =====
-- core/internal/node/server.go: a request that revokes a device, by a device that is signed in.
use easyprivacy.Tests.Fixtures.{
  platform, no_exit, server, identity, first, token, with_token, session,
}
use easyprivacy.Node.Routes.{Decoders, Draws, handle_begin, finish}
use easyprivacy.Node.Routes
use easyprivacy.Node.Routes.Changes.{handle-Changed, Changed}
use easyprivacy.Node.Server.{Server}
use easyprivacy.Platform.{Decoder}
use easyprivacy.Base.{◌∷◌, [], some, none, true, ◌≡◌, ◌⊎◌}

-- A decoder that reads nothing.
abbrev refusing : {A : Type 0} → Decoder A
refusing = record { decode = λ t. none; at_end = λ t. true }

abbrev decoders : Decoders
decoders = record {
  credentials = refusing;
  start = refusing;
  finish = refusing;
  enrollment = refusing;
  challenge = refusing;
  device_login = refusing;
  peer = refusing;
  service = refusing;
}

abbrev draws : Draws
draws = record {
  now = 5;
  later = 6;
  last = 7;
  fresh = first;
  seed = first;
  raw = some first;
  drawn = some 12345678;
  fault = none;
}

abbrev by_device : Server (Unit {0})
by_device = record server { sessions = (token, record session { device_id = identity }) ∷ [] }

-- Behind the first section another device signs in.
abbrev by_then : Server (Unit {0})
by_then = record by_device { sessions = (first, session) ∷ by_device.sessions }

handle-Changed_example :
    let (t, p) =
      handle_begin platform no_exit decoders draws true
        (Routes.revoke identity)
        (with_token token)
        by_device in
    let u = (finish platform no_exit decoders draws p by_then).0 in
    (t.devices ≡ by_device.devices)
    × ((u.devices ≡ by_then.devices)
        ⊎ Changed platform no_exit decoders draws
            (Routes.revoke identity)
            (with_token token)
            by_device
            by_then
            u)
handle-Changed_example =
    handle-Changed platform no_exit decoders draws true (Routes.revoke identity) (with_token token)
      by_device by_then
