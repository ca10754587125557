-- ===== src/Stake/Laws/Powers.antt =====
-- The powers that a delegatee records are those of its stakes.
use rigo_go.Base.{
  ℕ, zero, suc, ◌+◌, ◌%◌, ◌^◌, ◌≡◌, ◌<◌, ◌⊎◌, inl, inr, false, Option, none, some, List, [], ◌∷◌,
  ◌++◌, arith, refl, ap, sym, ◌∙◌, leb, if◌then◌else◌, Bool-cases, Option-cases,
}
use rigo_go.Base.Bytes.{Bytes, ◌=b◌, =b_iff}
use rigo_go.Base.Lists.{length, get_elem?, remove_at}
use rigo_go.Base.Words.{sub64}
use rigo_go.Stake.Item.{Stake, is_self_stake}
use rigo_go.Stake.Delegatee.{
  Delegatee, add_powers, add_all_powers, add_stake, find_from, find_stake, del_stake_by_idx,
  sub_powers, del_stake_by_hash, del_stake, sub_all_powers, del_all_stakes, is_owner,
  sum_power_loop, sum_power_of,
}

-- The powers of the stakes of one owner, or of all, as a number without bound.
unfoldable pub powers : Option Bytes → List Stake → ℕ
powers owner [] = 0
powers owner (s ∷ ss) = (if is_owner owner s then s.power else 0) + powers owner ss

-- Every stake is one to the address.
abbrev pub AllTo : Bytes → List Stake → Type 0
AllTo addr [] = Unit
AllTo addr (s ∷ ss) = (s.to ≡ addr) × AllTo addr ss

-- The recorded powers are those of the stakes, modulo 2^64.
pub record IsConsistent (d : Delegatee) : Type 0 where
  pub total : d.total_power ≡ powers none d.stakes % 2 ^ 64
  pub self : d.self_power ≡ powers (some d.addr) d.stakes % 2 ^ 64
  pub all_to : AllTo d.addr d.stakes

powers-append :
    (o : Option Bytes) (xs ys : List Stake) → powers o (xs ++ ys) ≡ powers o xs + powers o ys
unfolding powers
powers-append o [] ys = omega arith
powers-append o (x ∷ xs) ys = omega (arith, powers-append o xs ys)

AllTo-append : (a : Bytes) (xs ys : List Stake) → AllTo a xs → AllTo a ys → AllTo a (xs ++ ys)
AllTo-append a [] ys h k = k
AllTo-append a (x ∷ xs) ys h k = (h.0, AllTo-append a xs ys h.1 k)

sum_power_loop_lem :
    (o : Option Bytes) (ss : List Stake) (p : ℕ)
    → sum_power_loop o ss (p % 2 ^ 64) ≡ (p + powers o ss) % 2 ^ 64
unfolding sum_power_loop powers
sum_power_loop_lem o [] p = omega arith
sum_power_loop_lem o (s ∷ ss) p = elim (Bool-cases (is_owner o s)) [
  | inl own ↦ rw own (sum_power_loop_lem o ss (p % 2 ^ 64 + s.power) ∙ omega arith)
  | inr other ↦ rw other (sum_power_loop_lem o ss p ∙ omega arith)
]

-- `sumPowerOf` adds up the powers of the owner's stakes, of all of them for nil, modulo 2^64.
pub sum_power_of_lem :
    (o : Option Bytes) (d : Delegatee) → sum_power_of o d ≡ powers o d.stakes % 2 ^ 64
unfolding sum_power_of
sum_power_of_lem o d = sum_power_loop_lem o d.stakes 0 ∙ omega arith

add_all_powers_lem :
    (ss : List Stake) (d : Delegatee) (t p : ℕ)
    → AllTo d.addr ss
    → d.total_power ≡ t % 2 ^ 64
    → d.self_power ≡ p % 2 ^ 64
    → let d' = add_all_powers ss d in
      (d'.total_power ≡ (t + powers none ss) % 2 ^ 64)
      × (d'.self_power ≡ (p + powers (some d.addr) ss) % 2 ^ 64)
      × (d'.stakes ≡ d.stakes)
      × (d'.addr ≡ d.addr)
unfolding add_all_powers powers
add_all_powers_lem [] d t p to ht hp = (omega arith, omega arith, refl, refl)
add_all_powers_lem (s ∷ ss) d t p to ht hp =
    let own = if d.addr =b s.from then s.power else 0 in
    let t' : (add_powers s d).total_power ≡ (t + s.power) % 2 ^ 64 = omega (arith, ht) in
    let p' : (add_powers s d).self_power ≡ (p + own) % 2 ^ 64 =
      ground (arith, =b_iff d.addr s.from, =b_iff s.from s.to, to.0, hp) in
    let rest = add_all_powers_lem ss (add_powers s d) (t + s.power) (p + own) to.1 t' p' in
    (omega (arith, rest.0), omega (arith, rest.1), rest.2, rest.3)

-- Adding stakes to the delegatee's own address keeps the recorded powers those of its stakes.
pub add_stake-IsConsistent :
    (ss : List Stake) (d : Delegatee)
    → IsConsistent d
    → AllTo d.addr ss
    → IsConsistent (add_stake ss d)
unfolding add_stake
add_stake-IsConsistent ss d c to =
    let d' = record d { stakes = d.stakes ++ ss } in
    let added =
      add_all_powers_lem ss d' (powers none d.stakes) (powers (some d.addr) d.stakes) to c.total
        c.self in
    let addr = added.3 in
    record {
      total = rw (added.2, powers-append) added.0;
      self = rw (added.2, added.3, powers-append) added.1;
      all_to = rw (added.2, added.3) (AllTo-append d.addr d.stakes ss c.all_to to);
    }

remove_at_lem :
    (i : ℕ) (ss : List Stake) (a : Bytes) (s : Stake)
    → get_elem? ss i ≡ some s
    → AllTo a ss
    → (powers none ss ≡ s.power + powers none (remove_at i ss))
      × (powers (some a) ss
          ≡ (if is_self_stake s then s.power else 0) + powers (some a) (remove_at i ss))
      × AllTo a (remove_at i ss)
unfolding powers is_self_stake
remove_at_lem i [] a s e to = cc
remove_at_lem zero (x ∷ xs) a s e to = ground (arith, =b_iff a s.from, =b_iff s.from s.to)
remove_at_lem (suc i) (x ∷ xs) a s e to = ground (arith, remove_at_lem i xs a s e to.1)

-- what `findStake` returns stands at the index that it returns
find_from_lem :
    (h : Bytes) (j : ℕ) (ss : List Stake) (i : ℕ) (s : Stake)
    → find_from h j ss ≡ some (i, s)
    → (k : ℕ) × (i ≡ j + k) × (get_elem? ss k ≡ some s) × (s.tx_hash ≡ h)
unfolding find_from
find_from_lem h j [] i s e = cc
find_from_lem h j (x ∷ xs) i s e = elim (Bool-cases (h =b x.tx_hash)) [
  | inl hit ↦
      let e' : Path (Option (ℕ × Stake)) (some (j, x)) (some (i, s)) = ground (arith, e, hit) in
      let j_i : j ≡ i = cc in
      let x_s : x ≡ s = cc in
      let hash : h ≡ x.tx_hash = ground (arith, hit, =b_iff h x.tx_hash) in
      (0, omega (arith, j_i), ap (λ (t : Stake). some t) x_s, cc)
  | inr miss ↦
      let e' : find_from h (suc j) xs ≡ some (i, s) = ground (arith, e, miss) in
      let (k, at, is_s, hash) = find_from_lem h (suc j) xs i s e' in
      (suc k, omega (arith, at), is_s, hash)
]

get_elem?_lt : {A : Type 0} (xs : List A) (i : ℕ) (x : A) → get_elem? xs i ≡ some x → i < length xs
get_elem?_lt [] i x e = cc
get_elem?_lt (y ∷ ys) zero x e = omega arith
get_elem?_lt (y ∷ ys) (suc i) x e = omega (arith, get_elem?_lt ys i x e)

del_stake_by_idx-get_elem? :
    (d : Delegatee) (k : ℕ) (s : Stake)
    → get_elem? d.stakes k ≡ some s
    → del_stake_by_idx k d ≡ (some s, record d { stakes = remove_at k d.stakes })
unfolding del_stake_by_idx
del_stake_by_idx-get_elem? d k s e =
    let lt : k < length d.stakes = get_elem?_lt d.stakes k s e in
    let not_past : leb (length d.stakes) k ≡ false = ground arith in rw (not_past, e) refl

remove-IsConsistent :
    (d : Delegatee) (k : ℕ) (s : Stake)
    → IsConsistent d
    → get_elem? d.stakes k ≡ some s
    → IsConsistent (sub_powers (some s, record d { stakes = remove_at k d.stakes })).1
unfolding sub64
remove-IsConsistent d k s c e =
    let removed = remove_at_lem k d.stakes d.addr s e c.all_to in
    record {
      total = omega (arith, removed.0, c.total);
      self = ground (arith, removed.1, c.self);
      all_to = removed.2;
    }

-- Where the recorded powers are those of the stakes, they still are after `DelStake`; and it
-- either changes nothing and gives back nothing, or removes a stake of the hash and gives it back.
pub del_stake-IsConsistent :
    (h : Bytes) (d : Delegatee)
    → IsConsistent d
    → IsConsistent (del_stake h d).1
      × ((del_stake h d ≡ (none, d))
          ⊎ (s : Stake) × (k : ℕ) × ((del_stake h d).0 ≡ some s)
            × (s.tx_hash ≡ h)
            × (get_elem? d.stakes k ≡ some s)
            × ((del_stake h d).1.stakes ≡ remove_at k d.stakes))
unfolding del_stake del_stake_by_hash find_stake
del_stake-IsConsistent h d c = elim (Option-cases (find_from h 0 d.stakes)) [
  | inl missing ↦
      let same : del_stake h d ≡ (none, d) =
        rw (missing, del_stake, del_stake_by_hash, find_stake) refl in
      rw same (c, inl refl)
  | inr ((i, s), found) ↦
      let (k, at, is_s, hash) = find_from_lem h 0 d.stakes i s found in
      let i_k : i ≡ k = omega (arith, at) in
      let removed : del_stake h d
          ≡ sub_powers (some s, record d { stakes = remove_at k d.stakes }) =
        rw (found, del_stake, del_stake_by_hash, find_stake)
          (ap (λ (j : ℕ). sub_powers (del_stake_by_idx j d)) i_k
            ∙ ap sub_powers (del_stake_by_idx-get_elem? d k s is_s)) in
      rw removed (remove-IsConsistent d k s c is_s, inr (s, k, refl, hash, is_s, refl))
]

sub_all_powers_lem :
    (ss : List Stake) (t : ℕ) → sub_all_powers ss ((powers none ss + t) % 2 ^ 64) ≡ t % 2 ^ 64
unfolding sub_all_powers powers sub64
sub_all_powers_lem [] t = omega arith
sub_all_powers_lem (s ∷ ss) t =
    ap (λ (p : ℕ). sub_all_powers ss p) (omega arith) ∙ sub_all_powers_lem ss t

-- `DelAllStakes` gives back every stake and, if the recorded total power was that of the stakes,
-- brings it to 0; the recorded self power stays what it was.
pub del_all_stakes_lem :
    (d : Delegatee)
    → IsConsistent d
    → let (ss, d') = del_all_stakes d in
      (ss ≡ d.stakes) × (d'.stakes ≡ []) × (d'.total_power ≡ 0) × (d'.self_power ≡ d.self_power)
unfolding del_all_stakes
del_all_stakes_lem d c = (
  refl,
  refl,
  ap (sub_all_powers d.stakes) (c.total ∙ omega arith) ∙ sub_all_powers_lem d.stakes 0,
  refl,
)

-- Where the stake of a hash is found, `DelStake` takes out just that one.
pub del_stake-found :
    (h : Bytes) (d : Delegatee) (i : ℕ) (s : Stake)
    → find_stake h d ≡ some (i, s)
    → (s.tx_hash ≡ h)
      × (get_elem? d.stakes i ≡ some s)
      × ((del_stake h d).1.stakes ≡ remove_at i d.stakes)
      × ((del_stake h d).1.addr ≡ d.addr)
unfolding del_stake del_stake_by_hash find_stake
del_stake-found h d i s found =
    let (k, at, is_s, hash) = find_from_lem h 0 d.stakes i s found in
    let k_i : k ≡ i = omega (arith, at) in
    let here : get_elem? d.stakes i ≡ some s =
      ap (λ (j : ℕ). get_elem? d.stakes j) (sym k_i) ∙ is_s in
    let removed : del_stake h d ≡ sub_powers (some s, record d { stakes = remove_at i d.stakes }) =
      rw (found, del_stake, del_stake_by_hash, find_stake)
        (ap sub_powers (del_stake_by_idx-get_elem? d i s here)) in
    (
      hash,
      here,
      ap (λ (x : Option Stake × Delegatee). x.1.stakes) removed,
      ap (λ (x : Option Stake × Delegatee). x.1.addr) removed,
    )
