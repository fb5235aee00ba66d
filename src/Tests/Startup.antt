-- ===== src/Tests/Startup.antt =====
-- A startup that rebuilds a chain of the genesis alone.
use vision_core.Prelude.{ℕ, ◌≡◌, ◌≤◌, refl, some, [], Result, ok, err}
use vision_core.Prelude.Text.{Text}
use vision_core.Prelude.Bytes.{Bytes}
use vision_core.Prelude.Map.{Map, get}
use vision_core.Prelude.Map.Total.{total}
use vision_core.External.{External}
use vision_core.Genesis.{genesis_block}
use vision_core.Chain.Apply.{Node}
use vision_core.Chain.Replay.Supply.{subsidies}
use vision_core.Chain.Step.Ledger.{HasLedger}
use vision_core.Node.Bootstrap.{block_for, rebuild_canonical_state_from_genesis}
use vision_core.Node.Bootstrap.Ledger.{rebuild-HasLedger}
use vision_core.Tests.Host
use vision_core.Tests.Host.{memory_store, write_batch, zero_digest}
use vision_core.Block.{compute_tx_root}
use vision_core.Store.{extension_batch, load_block, persist_canonical_extension}
use vision_core.Store.Decimal.{decimal}
use vision_core.Store.Reads.{load_text}
use vision_core.Chain.Accept.{accept_one}
use vision_core.Tests.Samples.{young_node}

-- Every stored block is the genesis.
instance abbrev genesis_host : External
genesis_host = record Host.host { deserialize_block = λ bytes. some genesis_block }

-- The store that the extension by the genesis leaves.
abbrev stored : Node (Map Bytes)
stored = record young_node {
  chain = record young_node.chain { db = write_batch [] (extension_batch genesis_block) };
}

found : block_for stored.chain.db 0 ≡ ok genesis_block
unfolding block_for genesis_block memory_store write_batch extension_batch load_text get decimal
    load_block
found = refl

abbrev node_of : Result (Node (Map Bytes) × ℕ) Text → Node (Map Bytes)
node_of (ok rebuilt) = rebuilt.0
node_of (err e) = young_node

abbrev rebuilt : Node (Map Bytes)
rebuilt = node_of (rebuild_canonical_state_from_genesis 1100 stored)

succeeds : rebuild_canonical_state_from_genesis 1100 stored ≡ ok (rebuilt, 0)
unfolding rebuild_canonical_state_from_genesis genesis_block memory_store write_batch
    extension_batch load_text get decimal load_block accept_one compute_tx_root
    persist_canonical_extension
succeeds = refl

rebuild-HasLedger_example :
    HasLedger rebuilt.chain × (total rebuilt.chain.balances ≤ subsidies rebuilt.chain.blocks)
rebuild-HasLedger_example = rebuild-HasLedger 1100 stored rebuilt 0 found succeeds
