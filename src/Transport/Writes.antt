-- ===== src/Transport/Writes.antt =====
-- internal/echonet/transport.go: how many datagrams a request writes.
use echonet_go.Base.{ℕ, suc, ◌≤◌, ◌≡◌, List}
use echonet_go.Base.Maps.{text_key}
use echonet_go.Base.Texts.{Text}
use echonet_go.Transport.Sending.{Network, Line, Socket}

-- `sent` counts the datagrams that were written: a call of `WriteToUDP` writes one at most, and nothing
-- else writes one.
pub record Counts (net : Network) (sent : net.W → ℕ) : Type 0 where
  pub write_one :
      (c : Socket) (req : List ℕ) (to : Text) (w : net.W)
      → sent (net.write c req to w).1 ≤ suc (sent w)
  pub resolve_none : (host : Text) (w : net.W) → sent (net.resolve host w).1 ≡ sent w
  pub open_none : (port : ℕ) (w : net.W) → sent (net.open_socket port w).1 ≡ sent w
  pub close_none : (c : Socket) (w : net.W) → sent (net.close c w) ≡ sent w
  pub events_none : (w : net.W) → sent (net.events w).1 ≡ sent w
  pub read_none : (c : Socket) (w : net.W) → sent (net.read c w).1 ≡ sent w

module _ (net : Network) (sent : net.W → ℕ) (counts : Counts net sent) where
  open net use {W}

  abbrev writes : Line net → ℕ
  writes l = sent l.world
