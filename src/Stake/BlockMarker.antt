-- ===== src/Stake/BlockMarker.antt =====
-- ctrlers/stake/block_marker.go: the heights at which a validator did not sign.
use rigo_go.Base.{
  ℕ, zero, suc, ◌+◌, ◌&&◌, Bool, true, false, not, Option, none, some, List, [], ◌∷◌, ◌++◌,
  if◌then◌else◌,
}
use rigo_go.Base.Lists.{drop}
use rigo_go.Base.Words.{Int64, slt}
use rigo_go.Base.Result.{Result, ok, err, ordinary}

pub record BlockMarker : Type 0 where
  pub block_heights : List Int64

unfoldable pub last_height : List Int64 → Option Int64
last_height [] = none
last_height (h ∷ []) = some h
last_height (h ∷ h' ∷ hs) = last_height (h' ∷ hs)

abbrev append_height : Int64 → BlockMarker → BlockMarker
append_height height bm = record { block_heights = bm.block_heights ++ height ∷ [] }

unfoldable pub mark : Int64 → BlockMarker → Result (Unit {0}) × BlockMarker
unfolding last_height slt
mark height bm = elim (last_height bm.block_heights) [
  | none ↦ (ok tt, append_height height bm)
  | some h ↦
      if not (slt h height)
      then (err (ordinary "height must bigger than last marked height"), bm)
      else (ok tt, append_height height bm)
]

-- The loop of `CountInWindow`: the count, and the index `preIdx`, none for -1.
unfoldable pub count_loop : Int64 → Int64 → ℕ → List Int64 → ℕ × Option ℕ → ℕ × Option ℕ
unfolding slt
count_loop h0 h1 i [] (count, pre) = (count, pre)
count_loop h0 h1 i (h ∷ hs) (count, pre) =
    let pre' = if slt h h0 then some i else pre in
    let count' = if not (slt h h0) && not (slt h1 h) then count + 1 else count in
    let rest = count_loop h0 h1 (suc i) hs (count', pre') in
    if not (slt h h1) then (count', pre') else rest

-- `preIdx > 0`
abbrev pub rewound : Bool → Option ℕ → List Int64 → List Int64
rewound false pre hs = hs
rewound true none hs = hs
rewound true (some zero) hs = hs
rewound true (some (suc i)) hs = drop (suc (suc i)) hs

unfoldable pub count_in_window : Int64 → Int64 → Bool → BlockMarker → ℕ × BlockMarker
unfolding count_loop slt
count_in_window h0 h1 rewin bm =
    if slt h1 h0
    then (0, bm)
    else (let (count, pre) = count_loop h0 h1 0 bm.block_heights (0, none) in
        (count, record { block_heights = rewound rewin pre bm.block_heights }))
