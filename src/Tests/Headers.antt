-- ===== src/Tests/Headers.antt =====
-- Runs of the header layout and of the miner's candidate.
use vision_core.Prelude.{refl, arith}
use vision_core.Block.Layout.{IsHeader, Agree, canonical_bytes-injective}
use vision_core.Tests.Host.{host}
use vision_core.Tests.Samples.{genesis_block}

genesis-IsHeader : IsHeader genesis_block.header
genesis-IsHeader = record {
  number_fits = omega arith;
  timestamp_fits = omega arith;
  difficulty_fits = omega arith;
  nonce_fits = omega arith;
}

canonical_bytes-injective_example : Agree genesis_block.header genesis_block.header
canonical_bytes-injective_example =
    canonical_bytes-injective genesis_block.header genesis_block.header genesis-IsHeader
      genesis-IsHeader refl
