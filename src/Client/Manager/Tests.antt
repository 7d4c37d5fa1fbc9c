-- ===== src/Client/Manager/Tests.antt =====
-- The client manager's theorems at concrete inputs, and short runs of it.
use exaproxy.Common.{◌≡◌, refl, true, false, some, [], ◌∷◌, remove_first}
use exaproxy.Dict.{lookup, insert, remove}
use exaproxy.Util.TimeCache.{set_item, pop}
use exaproxy.Poller.Asked.{asked}
use exaproxy.Client.Manager.{
  ClientManager, create, complete, Written, step, http, http_connection, read_request, cleanup,
  reads_request, send_data, promoted,
}
use exaproxy.Client.Manager.Owned.{IsOwned, create-IsOwned, opening-IsOwned, asked-cleanup}
use exaproxy.Client.Manager.Steps.{step-IsOwned}

-- A client on socket 7, connected at time 100.
abbrev waiting : ClientManager
waiting = http_connection 100 7 "proxy" (create 30)

waiting-IsOwned : IsOwned waiting
unfolding http_connection
waiting-IsOwned = opening-IsOwned http 100 7 "proxy" (create 30) (create-IsOwned 30)

-- its request has come
abbrev served : ClientManager
served = (read_request 7 (complete (71 ∷ [])) waiting).1

served-IsOwned : IsOwned served
unfolding step
served-IsOwned =
    step-IsOwned (reads_request 7 (complete (71 ∷ []))) waiting served waiting-IsOwned refl

step-IsOwned_example : IsOwned served
unfolding step
step-IsOwned_example =
    step-IsOwned (reads_request 7 (complete (71 ∷ []))) waiting served waiting-IsOwned refl

served_tables :
    (asked served.calls "read_client" 7 ≡ true) × (asked served.calls "opening_client" 7 ≡ false)
unfolding read_request http_connection create promoted set_item pop lookup insert remove
served_tables = (refl, refl)

asked-cleanup_example :
    (asked (cleanup 7 1 served).calls "opening_client" 7 ≡ false)
    × (asked (cleanup 7 1 served).calls "read_client" 7 ≡ false)
    × (asked (cleanup 7 1 served).calls "write_client" 7 ≡ false)
asked-cleanup_example = asked-cleanup 7 1 served served-IsOwned 7

abbrev half_sent : Written
half_sent = record { buffered = true; had_buffer = false; sent4 = 3; sent6 = 0 }

buffers : (send_data 7 (some half_sent) served).2.buffered ≡ 7 ∷ []
unfolding send_data read_request http_connection create promoted set_item pop lookup insert remove
    remove_first
buffers = refl
