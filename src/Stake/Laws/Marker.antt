-- ===== src/Stake/Laws/Marker.antt =====
-- The marked heights of ctrlers/stake/block_marker.go, in order, and their count in a window.
use rigo_go.Base.{
  ℕ, zero, suc, ◌+◌, ◌≡◌, ◌&&◌, not, inl, inr, ◌⊎◌, Bool, true, false, Option, none, some, List, [],
  ◌∷◌, ◌++◌, arith, refl, ap, ◌∙◌, if◌then◌else◌, Bool-cases, Option-cases,
}
use rigo_go.Base.Lists.{drop}
use rigo_go.Base.Words.{Int64, slt}
use rigo_go.Base.Result.{ok, err, ordinary}
use rigo_go.Stake.BlockMarker.{BlockMarker, last_height, mark, count_loop, rewound, count_in_window}

-- Every height is above the given one, as int64s.
abbrev pub AllAbove : Int64 → List Int64 → Type 0
AllAbove b [] = Unit
AllAbove b (h ∷ hs) = (slt b h ≡ true) × AllAbove b hs

-- The heights increase, as int64s.
abbrev pub IsIncreasing : List Int64 → Type 0
IsIncreasing [] = Unit
IsIncreasing (h ∷ hs) = AllAbove h hs × IsIncreasing hs

abbrev pub in_window : Int64 → Int64 → Int64 → Bool
in_window h0 h1 h = not (slt h h0) && not (slt h1 h)

-- How many heights are in [h0, h1].
pub marked : Int64 → Int64 → List Int64 → ℕ
marked h0 h1 [] = 0
marked h0 h1 (h ∷ hs) = (if in_window h0 h1 h then 1 else 0) + marked h0 h1 hs

slt_trans : (a b c : Int64) → slt a b ≡ true → slt b c ≡ true → slt a c ≡ true
unfolding slt
slt_trans a b c p q = ground arith

later : (b h c : Int64) → slt b c ≡ false → slt b h ≡ true → slt h c ≡ false
unfolding slt
later b h c p q = ground arith

earlier : (a b c : Int64) → slt a b ≡ true → slt c b ≡ false → slt a c ≡ true
unfolding slt
earlier a b c p q = ground arith

AllAbove-trans : (a b : Int64) (hs : List Int64) → slt a b ≡ true → AllAbove b hs → AllAbove a hs
AllAbove-trans a b [] p q = tt
AllAbove-trans a b (h ∷ hs) p q = (slt_trans a b h p q.0, AllAbove-trans a b hs p q.1)

append-AllAbove :
    (b h : Int64) (hs : List Int64) → AllAbove b hs → slt b h ≡ true → AllAbove b (hs ++ h ∷ [])
append-AllAbove b h [] p q = (q, tt)
append-AllAbove b h (x ∷ xs) p q = (p.0, append-AllAbove b h xs p.1 q)

append-IsIncreasing :
    (h l : Int64) (hs : List Int64)
    → IsIncreasing hs
    → last_height hs ≡ some l
    → slt l h ≡ true
    → IsIncreasing (hs ++ h ∷ [])
unfolding last_height
append-IsIncreasing h l [] inc e lt = cc
append-IsIncreasing h l (x ∷ []) inc e lt = let x_l : x ≡ l = cc in ((rw x_l lt, tt), (tt, tt))
append-IsIncreasing h l (x ∷ y ∷ ys) inc e lt =
    let rest = append-IsIncreasing h l (y ∷ ys) inc.1 e lt in
    ((inc.0.0, AllAbove-trans x y (ys ++ h ∷ []) inc.0.0 rest.0), rest)

-- Above the window there is nothing to count.
marked-AllAbove :
    (h0 h1 b : Int64) (hs : List Int64) → slt b h1 ≡ false → AllAbove b hs → marked h0 h1 hs ≡ 0
unfolding marked slt
marked-AllAbove h0 h1 b [] p q = refl
marked-AllAbove h0 h1 b (h ∷ hs) p q = ground (arith, marked-AllAbove h0 h1 b hs p q.1)

last_height_some : (x : Int64) (xs : List Int64) → last_height (x ∷ xs) ≡ none → ⊥
unfolding last_height
last_height_some x [] e = cc
last_height_some x (y ∷ ys) e = last_height_some y ys e

first-IsIncreasing :
    (h : Int64) (hs : List Int64) → last_height hs ≡ none → IsIncreasing (hs ++ h ∷ [])
unfolding last_height
first-IsIncreasing h [] e = (tt, tt)
first-IsIncreasing h (x ∷ []) e = cc
first-IsIncreasing h (x ∷ y ∷ ys) e = absurd (last_height_some x (y ∷ ys) e)

-- `Mark` refuses a height that is not above the last one, changing nothing, and appends any other;
-- heights that increase stay so.
pub mark-IsIncreasing :
    (h : Int64) (bm : BlockMarker)
    → IsIncreasing bm.block_heights
    → IsIncreasing (mark h bm).1.block_heights
      × (((mark h bm).0 ≡ ok tt) × ((mark h bm).1.block_heights ≡ bm.block_heights ++ h ∷ [])
          ⊎ (l : Int64) × (last_height bm.block_heights ≡ some l)
            × (slt l h ≡ false)
            × (mark h bm ≡ (err (ordinary "height must bigger than last marked height"), bm)))
unfolding mark
mark-IsIncreasing h bm inc = elim (Option-cases (last_height bm.block_heights)) [
  | inl empty ↦
      let appended : mark h bm ≡ (ok tt, record { block_heights = bm.block_heights ++ h ∷ [] }) =
        rw (empty, mark) refl in
      rw appended (first-IsIncreasing h bm.block_heights empty, inl (refl, refl))
  | inr (l, last) ↦ elim (Bool-cases (slt l h)) [
    | inl above ↦
        let appended : mark h bm ≡ (ok tt, record { block_heights = bm.block_heights ++ h ∷ [] }) =
          rw (last, above, mark) refl in
        rw appended (append-IsIncreasing h l bm.block_heights inc last above, inl (refl, refl))
    | inr not_above ↦
        let refused : mark h bm
            ≡ (err (ordinary "height must bigger than last marked height"), bm) =
          rw (last, not_above, mark) refl in
        rw refused (inc, inr (l, last, not_above, refl))
  ]
]

count_loop-marked :
    (h0 h1 : Int64) (i : ℕ) (hs : List Int64) (c : ℕ) (pre : Option ℕ)
    → IsIncreasing hs
    → (count_loop h0 h1 i hs (c, pre)).0 ≡ c + marked h0 h1 hs
unfolding count_loop marked
count_loop-marked h0 h1 i [] c pre inc = omega arith
count_loop-marked h0 h1 i (h ∷ hs) c pre inc =
    let pre' : Option ℕ = if slt h h0 then some i else pre in
    let c' : ℕ = if in_window h0 h1 h then c + 1 else c in
    let rest = count_loop-marked h0 h1 (suc i) hs c' pre' inc.1 in
    elim (Bool-cases (slt h h1)) [
      | inl below ↦ ground (arith, rest, below)
      | inr reached ↦
          let none_left : marked h0 h1 hs ≡ 0 = marked-AllAbove h0 h1 h hs reached inc.0 in
          ground (arith, none_left, reached)
    ]

-- Once a height reaches the window, no later one moves the index before it.
count_loop-AllAbove :
    (h0 h1 b : Int64) (i : ℕ) (hs : List Int64) (c : ℕ) (pre : Option ℕ)
    → slt b h0 ≡ false
    → AllAbove b hs
    → (count_loop h0 h1 i hs (c, pre)).1 ≡ pre
unfolding count_loop
count_loop-AllAbove h0 h1 b i [] c pre p q = refl
count_loop-AllAbove h0 h1 b i (h ∷ hs) c pre p q =
    let before : slt h h0 ≡ false = later b h h0 p q.0 in
    let c' : ℕ = if in_window h0 h1 h then c + 1 else c in
    let rest = count_loop-AllAbove h0 h1 b (suc i) hs c' pre p q.1 in
    elim (Bool-cases (slt h h1)) [
      | inl below ↦ ground (arith, rest, below, before)
      | inr reached ↦ ground (arith, reached, before)
    ]

-- The index before the window is that of a height such that no height up to it is in a window that
-- starts no earlier.
count_loop-before :
    (h0 h1 : Int64) (i : ℕ) (hs : List Int64) (c : ℕ) (pre : Option ℕ) (k0 k1 : Int64)
    → IsIncreasing hs
    → slt k0 h0 ≡ false
    → ((count_loop h0 h1 i hs (c, pre)).1 ≡ pre)
      ⊎ (k : ℕ) × ((count_loop h0 h1 i hs (c, pre)).1 ≡ some (i + k))
        × (marked k0 k1 (drop (suc k) hs) ≡ marked k0 k1 hs)
unfolding count_loop marked
count_loop-before h0 h1 i [] c pre k0 k1 inc p = inl refl
count_loop-before h0 h1 i (h ∷ hs) c pre k0 k1 inc p =
    let c' : ℕ = if in_window h0 h1 h then c + 1 else c in
    elim (Bool-cases (slt h h0)) [
      | inr inside ↦
          let rest = count_loop-AllAbove h0 h1 h (suc i) hs c' pre inside inc.0 in
          inl (elim (Bool-cases (slt h h1)) [
            | inl below ↦ ground (arith, rest, below, inside)
            | inr reached ↦ ground (arith, reached, inside)
          ])
      | inl outside ↦
          let early : slt h k0 ≡ true = earlier h h0 k0 outside p in
          let skip : marked k0 k1 hs ≡ marked k0 k1 (h ∷ hs) = ground (arith, early) in
          inr (elim (Bool-cases (slt h h1)) [
            | inr reached ↦
                let stop : (count_loop h0 h1 i (h ∷ hs) (c, pre)).1 ≡ some i =
                  ground (arith, reached, outside) in
                (0, stop ∙ ap some (omega arith), skip)
            | inl below ↦
                let on : (count_loop h0 h1 i (h ∷ hs) (c, pre)).1
                    ≡ (count_loop h0 h1 (suc i) hs (c', some i)).1 =
                  ground (arith, below, outside) in
                elim (count_loop-before h0 h1 (suc i) hs c' (some i) k0 k1 inc.1 p) [
                  | inl stays ↦ (0, on ∙ stays ∙ ap some (omega arith), skip)
                  | inr (k, moved, same) ↦ (suc k, on ∙ moved ∙ ap some (omega arith), same ∙ skip)
                ]
          ])
    ]

marked-rewound :
    (r : Bool) (pre : Option ℕ) (hs : List Int64) (k0 k1 : Int64)
    → (pre ≡ none)
      ⊎ (k : ℕ) × (pre ≡ some (0 + k)) × (marked k0 k1 (drop (suc k) hs) ≡ marked k0 k1 hs)
    → marked k0 k1 (rewound r pre hs) ≡ marked k0 k1 hs
marked-rewound false pre hs k0 k1 h = refl
marked-rewound true none hs k0 k1 h = refl
marked-rewound true (some zero) hs k0 k1 h = refl
marked-rewound true (some (suc i)) hs k0 k1 (inl e) = cc
marked-rewound true (some (suc i)) hs k0 k1 (inr (k, e, same)) =
    let at : suc i ≡ 0 + k = cc in
    let k_i : suc i ≡ k = omega (arith, at) in
    ap (λ (j : ℕ). marked k0 k1 (drop (suc j) hs)) k_i ∙ same

-- Where the marked heights increase, `CountInWindow` counts those in [h0, h1], although its loop
-- stops early; and rewinding never changes a later count over a window that starts no earlier.
pub count_in_window_lem :
    (h0 h1 : Int64) (rewin : Bool) (bm : BlockMarker) (k0 k1 : Int64)
    → IsIncreasing bm.block_heights
    → slt h1 h0 ≡ false
    → slt k0 h0 ≡ false
    → ((count_in_window h0 h1 rewin bm).0 ≡ marked h0 h1 bm.block_heights)
      × (marked k0 k1 (count_in_window h0 h1 rewin bm).1.block_heights
          ≡ marked k0 k1 bm.block_heights)
unfolding count_in_window
count_in_window_lem h0 h1 rewin bm k0 k1 inc order no_earlier =
    let heights = bm.block_heights in
    let counted : count_in_window h0 h1 rewin bm ≡ (
      (count_loop h0 h1 0 heights (0, none)).0,
      record { block_heights = rewound rewin (count_loop h0 h1 0 heights (0, none)).1 heights },
    ) =
      rw (order, count_in_window) refl in
    rw counted (
      count_loop-marked h0 h1 0 heights 0 none inc ∙ omega arith,
      marked-rewound rewin (count_loop h0 h1 0 heights (0, none)).1 heights k0 k1
          (count_loop-before h0 h1 0 heights 0 none k0 k1 inc no_earlier),
    )
