-- ===== src/Visionx/Params.antt =====
-- pow/visionx.rs: the parameters of the algorithm and their fingerprint.
use vision_core.Prelude.{ℕ, Bool, ◌&&◌, ◌/◌, ◌++◌, leb}
use vision_core.Prelude.Text.{Text, text}
use vision_core.External.{External}
use vision_core.Store.Decimal.{decimal}

pub record VisionXParams : Type 0 where
  pub dataset_mb : ℕ
  pub scratch_mb : ℕ
  pub mix_iters : ℕ
  pub reads_per_iter : ℕ
  pub write_every : ℕ
  pub epoch_blocks : ℕ

abbrev pub visionx_params : VisionXParams
visionx_params = record {
  dataset_mb = 256;
  scratch_mb = 32;
  mix_iters = 65536;
  reads_per_iter = 4;
  write_every = 4;
  epoch_blocks = 32;
}

-- The text that is hashed for the fingerprint.
unfoldable pub canonical : VisionXParams → Text
canonical p =
    text "visionx/v1 dataset_mb="
    ++ (decimal p.dataset_mb
        ++ (text " scratch_mb="
            ++ (decimal p.scratch_mb
                ++ (text " mix_iters="
                    ++ (decimal p.mix_iters
                        ++ (text " reads_per_iter="
                            ++ (decimal p.reads_per_iter
                                ++ (text " write_every="
                                    ++ (decimal p.write_every
                                        ++ (text " epoch_blocks="
                                            ++ decimal p.epoch_blocks))))))))))

unfoldable pub fingerprint : ⦃ext : External⦄ → VisionXParams → Text
unfolding canonical
fingerprint ⦃ext⦄ p = ext.hex_encode (ext.blake3 (canonical p))

-- The division is by 32 at the parameters in use; a count of 0 would panic.
unfoldable pub epoch : VisionXParams → ℕ → ℕ
epoch p height = height / p.epoch_blocks

unfoldable pub params_within_bounds : VisionXParams → Bool
params_within_bounds p =
    leb p.dataset_mb 512
    && leb p.scratch_mb 128
    && leb p.mix_iters 1000000
    && leb p.reads_per_iter 8
