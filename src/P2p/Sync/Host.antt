-- ===== src/P2p/Sync/Host.antt =====
-- What p2p/sync.rs shares with the other tasks, and what it meets while it waits.
use vision_core.Prelude.{ℕ, Option, Result}
use vision_core.Prelude.Text.{Text}
use vision_core.Chain.Apply.{Node}
use vision_core.Mempool.{Pool}
use vision_core.Node.Recovery.{RecoveryState}
use vision_core.P2p.Protocol.{P2PMessage}
use vision_core.P2p.Peers.{PeerManager}

-- The state behind the locks; the pool and the recovery state are optional arguments of the code.
pub record Host (Db : Type 0) : Type 0 where
  pub node : Node Db
  pub pool : Option Pool
  pub peers : PeerManager
  pub recovery : Option RecoveryState

-- The end of one wait on the stream: the message, or the error of the send or the receive, the
-- changes that the other tasks made until the next lock is taken, and the clock then.
pub record Event (Db : Type 0) : Type 0 where
  pub received : Result P2PMessage Text
  pub others : Host Db → Host Db
  pub now : ℕ

-- The wall clock, and the changes of the other tasks, at each lock that an import takes.
pub record Schedule (Db : Type 0) : Type 0 where
  pub clock : ℕ → ℕ
  pub others : ℕ → Host Db → Host Db
