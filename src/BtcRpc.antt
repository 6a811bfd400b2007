-- ===== src/BtcRpc.antt =====
-- btcrpc/client.go: the replies of the node that the other packages read. Client.antt has the client.
pub mod Client
use fractal_block_sync.Prelude.{ℕ, Text}

pub record BlockchainInfo : Type 0 where
  pub blocks : ℕ
  pub headers : ℕ

pub record ChainTip : Type 0 where
  pub height : ℕ
  pub hash : Text
  pub status : Text

pub record BlockHeader : Type 0 where
  pub hash : Text
  pub height : ℕ
  pub previous_block_hash : Text
