-- ===== src/Tests/Pass.antt =====
-- A pass of the server at concrete data.
use nsb_beta.Base.{
  ◌≡◌, Option, none, some, List, [], ◌∷◌, ◌==◌, if◌then◌else◌, Bytes, ℤ, pos, negsuc,
}
use nsb_beta.Wire.{Operation}
use nsb_beta.Daemon.Server.{Activity, no_connection, service}
use nsb_beta.Daemon.InOrder.{
  observed, with_channels, handle_each, requests, stayers, leavers, service_is_handle_each,
}
use nsb_beta.Tests.Wire.{plain_codec}
use nsb_beta.Tests.Data.{always, busy, send_request}

-- The third channel has a request, and the peer of the fourth is gone.
abbrev recvs : ℤ → Option (List Bytes)
recvs (pos n) =
    if n == 3
    then some (plain_codec.serialize (send_request Operation.send) ∷ [] ∷ [])
    else if n == 4
    then some ([] ∷ [])
    else none
recvs (negsuc n) = none

abbrev activity : Activity
activity = record { recvs = recvs; incoming = no_connection; writable = always }

abbrev channels : List ℤ
channels = pos 2 ∷ pos 3 ∷ pos 4 ∷ []

service_is_handle_each_example :
    observed (service plain_codec activity channels busy)
    ≡ with_channels
        (stayers activity channels)
        (leavers activity channels)
        (handle_each plain_codec always (requests activity channels) busy)
service_is_handle_each_example = service_is_handle_each plain_codec activity channels busy
