-- ===== src/Operations/Blocks/Axes.antt =====
-- ngraph_creator/operations/src/ChannelShuffle.cpp: the axis of the shuffle.
use nn_hal.Prelude.{ℕ, ◌≡◌, ◌+◌, ◌^◌, ◌<◌, ◌≤◌, ◌⊎◌, true, arith}
use nn_hal.Operations.Blocks.{in_rank, counted_axis}

-- An axis that ChannelShuffle::validate accepts for dimensions of a rank up to four is counted by
-- createNode to a place below the rank: its own place if it is not negative, and else the place
-- that far from the end.
pub counted_axis_lem :
    (rank axis : ℕ)
    → rank ≤ 4
    → axis < 2 ^ 32
    → in_rank rank axis ≡ true
    → (counted_axis rank axis < rank)
      × (((axis < 2 ^ 31) × (counted_axis rank axis ≡ axis))
          ⊎ ((2 ^ 31 ≤ axis) × (counted_axis rank axis + 2 ^ 32 ≡ axis + rank)))
counted_axis_lem rank axis hr ha h = ground arith
