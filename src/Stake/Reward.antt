-- ===== src/Stake/Reward.antt =====
-- ctrlers/stake/reward.go: what an address has earned and withdrawn. A call with a height below
-- the recorded one panics.
use rigo_go.Base.{◌==◌, if◌then◌else◌}
use rigo_go.Base.Bytes.{Bytes}
use rigo_go.Base.Words.{Int64, UInt256, add256, sub256, slt}
use rigo_go.Base.Result.{Result, ok, err, panicked}

pub record Reward : Type 0 where
  pub address : Bytes
  pub issued : UInt256
  pub withdrawn : UInt256
  pub slashed : UInt256
  pub cumulated : UInt256
  pub height : Int64

unfoldable pub new_reward : Bytes → Reward
new_reward addr = record {
  address = addr;
  issued = 0;
  withdrawn = 0;
  slashed = 0;
  cumulated = 0;
  height = 0;
}

unfoldable pub issue : UInt256 → Int64 → Reward → Result Reward
unfolding slt add256
issue r h rwd =
    if slt rwd.height h
    then ok (record rwd { issued = r; height = h; cumulated = add256 rwd.cumulated r })
    else if rwd.height == h
    then ok (record rwd { issued = add256 rwd.issued r; cumulated = add256 rwd.cumulated r })
    else err panicked

unfoldable pub withdraw : UInt256 → Int64 → Reward → Result Reward
unfolding slt add256 sub256
withdraw r h rwd =
    if slt rwd.height h
    then ok (record rwd { withdrawn = r; height = h; cumulated = sub256 rwd.cumulated r })
    else if rwd.height == h
    then ok (record rwd { withdrawn = add256 rwd.withdrawn r; cumulated = sub256 rwd.cumulated r })
    else err panicked

unfoldable pub slash : UInt256 → Int64 → Reward → Result Reward
unfolding slt add256 sub256
slash r h rwd =
    if slt rwd.height h
    then ok (record rwd { slashed = r; height = h; cumulated = sub256 rwd.cumulated r })
    else if rwd.height == h
    then ok (record rwd { slashed = add256 rwd.slashed r; cumulated = sub256 rwd.cumulated r })
    else err panicked
