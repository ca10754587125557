-- ===== src/Stake/Laws/Updates.antt =====
-- The updates that ctrlers/stake/ctrler.go reports to the consensus engine lead from the old
-- validators to the new ones.
use rigo_go.Base.{
  ℕ, zero, suc, ◌+◌, ◌≡◌, ◌≤◌, inl, inr, true, false, List, [], ◌∷◌, arith, refl, ap, ◌∙◌, ◌==◌,
  if◌then◌else◌, Bool-cases, sym,
}
use rigo_go.Base.Bytes.{
  Bytes, ◌=b◌, =b_iff, =b_refl, bytes_lt, bytes_lt_irrefl, bytes_lt_trans, bytes_lt-total,
}
use rigo_go.Base.Lists.{length}
use rigo_go.Stake.Delegatee.{Delegatee}
use rigo_go.Stake.Validators.{ValidatorUpdate, removal, arrival, merge, validator_updates}

-- The total power of the delegatee with the address, 0 for none.
pub power_in : Bytes → List Delegatee → ℕ
power_in a [] = 0
power_in a (d ∷ ds) = if d.addr =b a then d.total_power else power_in a ds

-- Every address is above the given one.
abbrev pub AllAfter : Bytes → List Delegatee → Type 0
AllAfter a [] = Unit
AllAfter a (d ∷ ds) = (bytes_lt a d.addr ≡ true) × AllAfter a ds

-- The addresses increase.
abbrev pub IsByAddress : List Delegatee → Type 0
IsByAddress [] = Unit
IsByAddress (d ∷ ds) = AllAfter d.addr ds × IsByAddress ds

differ : (a b : Bytes) → bytes_lt a b ≡ true → ((a =b b) ≡ false) × ((b =b a) ≡ false)
differ a b p =
    let irrefl = bytes_lt_irrefl a in
    let distinct : a ≡ b → ⊥ =
      λ e. let same : bytes_lt a a ≡ true = ap (λ (x : Bytes). bytes_lt a x) e ∙ p in cc in
    (ground (arith, =b_iff a b, distinct), ground (arith, =b_iff b a, distinct))

after_lem : (a b : Bytes) → bytes_lt a b ≡ false → (a =b b) ≡ false → bytes_lt b a ≡ true
after_lem a b p q = elim (Bool-cases (bytes_lt b a)) [
  | inl after ↦ after
  | inr not_after ↦ absurd (ground (arith, q, =b_iff a b, bytes_lt-total a b p not_after))
]

AllAfter-trans :
    (a b : Bytes) (ds : List Delegatee) → bytes_lt a b ≡ true → AllAfter b ds → AllAfter a ds
AllAfter-trans a b [] p q = tt
AllAfter-trans a b (d ∷ ds) p q = (bytes_lt_trans a b d.addr p q.0, AllAfter-trans a b ds p q.1)

power_in-AllAfter : (a : Bytes) (ds : List Delegatee) → AllAfter a ds → power_in a ds ≡ 0
unfolding power_in
power_in-AllAfter a [] p = refl
power_in-AllAfter a (d ∷ ds) p = rw (differ a d.addr p.0).1 (power_in-AllAfter a ds p.1)

module _ (address_of : Bytes → Bytes) where
  -- Every address is that of the public key.
  abbrev pub IsKeyed : List Delegatee → Type 0
  IsKeyed [] = Unit
  IsKeyed (d ∷ ds) = (address_of d.pub_key ≡ d.addr) × IsKeyed ds

  -- The power that the engine has for the address when it had `p` and makes the updates: it knows
  -- its validators by the addresses of their keys.
  pub updated : Bytes → List ValidatorUpdate → ℕ → ℕ
  updated a [] p = p
  updated a (u ∷ us) p = updated a us (if address_of u.pub_key =b a then u.power else p)

  updated-skip :
      (a : Bytes) (u : ValidatorUpdate) (us : List ValidatorUpdate) (p : ℕ) (b : Bytes)
      → address_of u.pub_key ≡ b
      → (b =b a) ≡ false
      → updated a (u ∷ us) p ≡ updated a us p
  unfolding updated
  updated-skip a u us p b e n = rw (e, n) refl

  updated-hit :
      (a : Bytes) (u : ValidatorUpdate) (us : List ValidatorUpdate) (p : ℕ)
      → address_of u.pub_key ≡ a
      → updated a (u ∷ us) p ≡ updated a us u.power
  unfolding updated
  updated-hit a u us p e = rw (e, =b_refl a) refl

  -- Updates of addresses above `a` leave its power.
  untouched :
      (a : Bytes) (f : ℕ) (es ns : List Delegatee) (p : ℕ)
      → AllAfter a es
      → AllAfter a ns
      → IsKeyed es
      → IsKeyed ns
      → updated a (merge f es ns) p ≡ p
  unfolding merge updated
  untouched a f [] [] p ae an ke kn = refl
  untouched a f [] (n ∷ ns) p ae an ke kn =
      updated-skip a (arrival n) (merge f [] ns) p n.addr kn.0 (differ a n.addr an.0).1
      ∙ untouched a f [] ns p ae an.1 ke kn.1
  untouched a f (e ∷ es) [] p ae an ke kn =
      updated-skip a (removal e) (merge f es []) p e.addr ke.0 (differ a e.addr ae.0).1
      ∙ untouched a f es [] p ae.1 an ke.1 kn
  untouched a zero (e ∷ es) (n ∷ ns) p ae an ke kn = refl
  untouched a (suc f) (e ∷ es) (n ∷ ns) p ae an ke kn =
      let came =
        updated-skip a (arrival n) (merge f (e ∷ es) ns) p n.addr kn.0 (differ a n.addr an.0).1
        ∙ untouched a f (e ∷ es) ns p ae an.1 ke kn.1 in
      let gone =
        updated-skip a (removal e) (merge f es (n ∷ ns)) p e.addr ke.0 (differ a e.addr ae.0).1
        ∙ untouched a f es (n ∷ ns) p ae.1 an ke.1 kn in
      let both = untouched a f es ns p ae.1 an.1 ke.1 kn.1 in
      let changed =
        updated-skip a (arrival n) (merge f es ns) p n.addr kn.0 (differ a n.addr an.0).1 ∙ both in
      elim (Bool-cases (bytes_lt e.addr n.addr)) [
        | inl before ↦ rw (before, merge) gone
        | inr not_before ↦ elim (Bool-cases (e.addr =b n.addr)) [
          | inr after ↦ rw (not_before, after, merge) came
          | inl same ↦ elim (Bool-cases (e.total_power == n.total_power)) [
            | inl equal ↦ rw (not_before, same, equal, merge) both
            | inr unequal ↦ rw (not_before, same, unequal, merge) changed
          ]
        ]
      ]

  -- the three rounds of the first loop, and those of the other two
  came_lem :
      (a : Bytes) (f : ℕ) (es ns : List Delegatee) (n : Delegatee) (p : ℕ)
      → AllAfter n.addr es
      → AllAfter n.addr ns
      → IsKeyed es
      → IsKeyed (n ∷ ns)
      → ((n.addr =b a) ≡ false → updated a (merge f es ns) p ≡ power_in a ns)
      → updated a (arrival n ∷ merge f es ns) p ≡ power_in a (n ∷ ns)
  unfolding power_in
  came_lem a f es ns n p ae an ke kn rest = elim (Bool-cases (n.addr =b a)) [
    | inl hit ↦
        let n_a : n.addr ≡ a = ground (arith, hit, =b_iff n.addr a) in
        let above : AllAfter a es = rw (sym n_a) ae in
        let above' : AllAfter a ns = rw (sym n_a) an in
        rw hit (
          updated-hit a (arrival n) (merge f es ns) p (kn.0 ∙ n_a)
          ∙ untouched a f es ns n.total_power above above' ke kn.1)
    | inr miss ↦ rw miss (updated-skip a (arrival n) (merge f es ns) p n.addr kn.0 miss ∙ rest miss)
  ]

  gone_lem :
      (a : Bytes) (f : ℕ) (es ns : List Delegatee) (e : Delegatee) (p : ℕ)
      → AllAfter e.addr es
      → IsKeyed (e ∷ es)
      → p ≡ power_in a (e ∷ es)
      → ((q : ℕ) → q ≡ power_in a es → updated a (merge f es ns) q ≡ power_in a ns)
      → updated a (removal e ∷ merge f es ns) p ≡ power_in a ns
  unfolding power_in
  gone_lem a f es ns e p ae ke at rest = elim (Bool-cases (e.addr =b a)) [
    | inl hit ↦
        let e_a : e.addr ≡ a = ground (arith, hit, =b_iff e.addr a) in
        let above : AllAfter a es = rw (sym e_a) ae in
        updated-hit a (removal e) (merge f es ns) p (ke.0 ∙ e_a)
        ∙ rest 0 (sym (power_in-AllAfter a es above))
    | inr miss ↦
        let at' : p ≡ power_in a es = ground (arith, miss, at) in
        updated-skip a (removal e) (merge f es ns) p e.addr ke.0 miss ∙ rest p at'
  ]

  same_lem :
      (a : Bytes) (f : ℕ) (es ns : List Delegatee) (e n : Delegatee) (p : ℕ)
      → e.addr ≡ n.addr
      → e.total_power ≡ n.total_power
      → AllAfter n.addr es
      → AllAfter n.addr ns
      → IsKeyed es
      → IsKeyed ns
      → p ≡ power_in a (e ∷ es)
      → ((n.addr =b a) ≡ false → updated a (merge f es ns) p ≡ power_in a ns)
      → updated a (merge f es ns) p ≡ power_in a (n ∷ ns)
  unfolding power_in
  same_lem a f es ns e n p e_n powers ae an ke kn at rest = elim (Bool-cases (n.addr =b a)) [
    | inl hit ↦
        let n_a : n.addr ≡ a = ground (arith, hit, =b_iff n.addr a) in
        let above : AllAfter a es = rw (sym n_a) ae in
        let above' : AllAfter a ns = rw (sym n_a) an in
        let hit' : (e.addr =b a) ≡ true = ap (λ (x : Bytes). x =b a) e_n ∙ hit in
        let p_n : p ≡ n.total_power = ground (arith, at, hit', powers) in
        rw hit (untouched a f es ns p above above' ke kn ∙ p_n)
    | inr miss ↦ rw miss (rest miss)
  ]

  merge_lem :
      (a : Bytes) (f : ℕ) (es ns : List Delegatee) (p : ℕ)
      → length es + length ns ≤ f
      → IsByAddress es
      → IsByAddress ns
      → IsKeyed es
      → IsKeyed ns
      → p ≡ power_in a es
      → updated a (merge f es ns) p ≡ power_in a ns
  unfolding merge power_in updated
  merge_lem a f [] [] p enough be bn ke kn at = at
  merge_lem a f [] (n ∷ ns) p enough be bn ke kn at =
      came_lem a f [] ns n p tt bn.0 tt kn
        (λ miss. merge_lem a f [] ns p (omega arith) tt bn.1 tt kn.1 at)
  merge_lem a f (e ∷ es) [] p enough be bn ke kn at =
      gone_lem a f es [] e p be.0 ke at
        (λ q at'. merge_lem a f es [] q (omega arith) be.1 tt ke.1 tt at')
  merge_lem a zero (e ∷ es) (n ∷ ns) p enough be bn ke kn at = absurd (omega arith)
  merge_lem a (suc f) (e ∷ es) (n ∷ ns) p enough be bn ke kn at =
      elim (Bool-cases (bytes_lt e.addr n.addr)) [
        | inl before ↦
            rw (before, merge)
              (gone_lem a f es (n ∷ ns) e p be.0 ke at
                (λ q at'. merge_lem a f es (n ∷ ns) q (omega arith) be.1 bn ke.1 kn at'))
        | inr not_before ↦ elim (Bool-cases (e.addr =b n.addr)) [
          | inr after ↦
              let n_e : bytes_lt n.addr e.addr ≡ true = after_lem e.addr n.addr not_before after in
              rw (not_before, after, merge)
                (came_lem a f (e ∷ es) ns n p (n_e, AllAfter-trans n.addr e.addr es n_e be.0) bn.0
                  ke kn (λ miss. merge_lem a f (e ∷ es) ns p (omega arith) be bn.1 ke kn.1 at))
          | inl same ↦
              let e_n : e.addr ≡ n.addr = ground (arith, same, =b_iff e.addr n.addr) in
              let es_after : AllAfter n.addr es = rw (sym e_n) be.0 in
              let rest : (n.addr =b a) ≡ false → updated a (merge f es ns) p ≡ power_in a ns =
                λ miss.
                  let miss' : (e.addr =b a) ≡ false = ap (λ (x : Bytes). x =b a) e_n ∙ miss in
                  let at' : p ≡ power_in a es = ground (arith, miss', at) in
                  merge_lem a f es ns p (omega arith) be.1 bn.1 ke.1 kn.1 at' in
              elim (Bool-cases (e.total_power == n.total_power)) [
                | inr unequal ↦
                    rw (not_before, same, unequal, merge)
                      (came_lem a f es ns n p es_after bn.0 ke.1 kn rest)
                | inl equal ↦
                    rw (not_before, same, equal, merge)
                      (same_lem a f es ns e n p e_n (ground (arith, equal)) es_after bn.0 ke.1 kn.1
                        at rest)
              ]
        ]
      ]

  -- From two lists by address, `validatorUpdates` makes updates that give each address the power it
  -- has in the new list, 0 if it is not there, when before it had its power in the old one.
  pub validator_updates_lem :
      (a : Bytes) (es ns : List Delegatee)
      → IsByAddress es
      → IsByAddress ns
      → IsKeyed es
      → IsKeyed ns
      → updated a (validator_updates es ns) (power_in a es) ≡ power_in a ns
  unfolding validator_updates
  validator_updates_lem a es ns be bn ke kn =
      merge_lem a (length es + length ns) es ns (power_in a es) (omega arith) be bn ke kn refl
