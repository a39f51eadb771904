-- ===== src/Link/Rpc/Heartbeat.antt =====
-- rpc.ts: the interval callback `beat`. `clearInterval` in `fail` stops it, so it runs on an open peer.
use reins.Base.{suc, Bool, false, List, [], ◌∷◌, leb, if◌then◌else◌}
use reins.Link.Rpc.Effects.{
  ping, Effect, wrote, HeartbeatOptions, Options, Peer, Sent, sent, too_large, broken, send, fail,
}

unfoldable pub after_ping : {V : Type 0} → Options V → Peer V → Sent → Peer V × List (Effect V)
after_ping o p sent = (p, wrote ping ∷ [])
after_ping o p too_large = fail o p
after_ping o p broken = fail o p

unfoldable pub beat :
    {V : Type 0} → Options V → HeartbeatOptions → Peer V → Bool → Peer V × List (Effect V)
beat o h p socket_ok =
    if p.heard
    then after_ping o (record p { missed = 0; heard = false }) (send o ping socket_ok)
    else if leb h.missed_intervals (suc p.missed)
    then fail o (record p { missed = suc p.missed })
    else after_ping o (record p { missed = suc p.missed; heard = false }) (send o ping socket_ok)
