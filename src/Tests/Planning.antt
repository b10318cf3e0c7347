-- ===== src/Tests/Planning.antt =====
-- The counts and sizes of a command at concrete inputs.
use par2cmdline_turbo.Prelude.{ℕ, ◌≡◌, ◌≤◌, ◌*◌, ◌⊎◌, refl, false, some, arith, ◌+◌, List, [], ◌∷◌}
use par2cmdline_turbo.Creator.BlockSize.{compute_block_size}
use par2cmdline_turbo.Creator.BlockSize.Least.{IsBest, compute_block_size-IsBest}
use par2cmdline_turbo.Creator.FileCount.{variable}
use par2cmdline_turbo.Creator.RecoveryCount.{
  compute_recovery_block_count, IsValid, compute_recovery_block_count-IsValid,
  compute_recovery_block_count_fits,
}

-- Five per cent of 100 blocks
compute_recovery_block_count-IsValid_example : IsValid 10 5 5
unfolding compute_recovery_block_count
compute_recovery_block_count-IsValid_example =
    compute_recovery_block_count-IsValid 0 100 4096 10 variable 0 false 5 0 0 5 refl

abbrev fitting : ℕ
fitting = 22

-- 100000 bytes for blocks of 4096 bytes, in two files
compute_recovery_block_count_fits_example : (fitting ≡ 1) ⊎ (fitting * (4096 + 70) ≤ 100000)
unfolding compute_recovery_block_count
compute_recovery_block_count_fits_example =
    compute_recovery_block_count_fits 0 100 4096 0 variable 2 100000 0 22 (omega arith) refl

abbrev file_sizes : List ℕ
file_sizes = 100 ∷ 333 ∷ 4096 ∷ []

compute_block_size-IsBest_example : IsBest 10 file_sizes (compute_block_size 0 10 file_sizes)
compute_block_size-IsBest_example =
    compute_block_size-IsBest 10 file_sizes (omega arith) (omega arith) (omega arith) (omega arith)

-- One file of one block, one of one, and eight blocks of the third
compute_block_size_run : compute_block_size 0 10 file_sizes ≡ some 512
unfolding compute_block_size
compute_block_size_run = refl
