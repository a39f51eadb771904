-- ===== src/AppClient/Tests.antt =====
-- ws-client.ts: a connection that is lost and made again.
use reins.Base.{ℕ, ◌≡◌, refl, true, false, [], ◌∷◌}
use reins.AppClient.Connection.{
  Client, opens_socket, waits, connects, closed, reconnects, create, connect, disconnect, on_open,
  on_close, on_message, on_interval, on_timeout, on_reconnect, step, set_connected, stop_heartbeat,
  start_heartbeat, create_socket, schedule_reconnect,
}
use reins.AppClient.Reachable.{Reachable, begins, goes_on, IsSteady, Reachable-IsSteady}

run_client : Unit {0}
unfolding create connect disconnect on_open on_close on_message on_interval on_timeout on_reconnect
    step set_connected stop_heartbeat start_heartbeat create_socket schedule_reconnect
run_client = tt

abbrev asked : Client
asked = (step {M = ℕ} create connects).0

abbrev lost : Client
lost = (step {M = ℕ} asked closed).0

lost_waits : (step {M = ℕ} asked closed).1 ≡ waits 16000 ∷ []
unfolding run_client
lost_waits = refl

lost_longer : (step {M = ℕ} (step {M = ℕ} lost reconnects).0 closed).1 ≡ waits 24000 ∷ []
unfolding run_client
lost_longer = refl

-- `connect` during a pending reconnect: there are a socket and a timer, and the timer opens another.
lost_twice : (step {M = ℕ} (step {M = ℕ} lost connects).0 reconnects).1 ≡ opens_socket ∷ []
unfolding run_client
lost_twice = refl

lost-Reachable : Reachable ℕ true lost
unfolding run_client
lost-Reachable = goes_on true asked closed (goes_on false create connects begins refl) refl

Reachable-IsSteady_example : IsSteady true lost
Reachable-IsSteady_example = Reachable-IsSteady true lost lost-Reachable
