-- ===== src/Stake/Laws/Slashing.antt =====
-- What `DoSlash` of ctrlers/stake/delegatee.go leaves of the powers.
use rigo_go.Base.Bytes.{Bytes}
use rigo_go.Stake.Item.{Stake}
use rigo_go.Stake.Delegatee.{Delegatee}
use rigo_go.Stake.Laws.Powers.{AllTo}

-- Every stake of the delegatee is one to it.
abbrev pub IsOwn : Delegatee → Type 0
IsOwn d = AllTo d.addr d.stakes
