-- ===== src/Gateway/Network.antt =====
-- crates/pool-domain/src/lib.rs: the network that a process works on.
use tig_mining_pool_public.Common.{Bool, true, false, if◌then◌else◌, Result, ok, err}
use tig_mining_pool_public.Common.Bytes.{Bytes, codes, same}

pub data Network : Type 0 where
  testnet mainnet : Network

abbrev pub as_str : Network → Bytes
as_str testnet = codes "testnet"
as_str mainnet = codes "mainnet"

unfoldable pub from_str : Bytes → Result Bytes Network
from_str s =
    if same s (codes "testnet")
    then ok testnet
    else (if same s (codes "mainnet") then ok mainnet else err s)

abbrev pub is_same : Network → Network → Bool
is_same testnet testnet = true
is_same testnet mainnet = false
is_same mainnet testnet = false
is_same mainnet mainnet = true
