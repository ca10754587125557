-- ===== src/Base/Sort.antt =====
-- `sort.Sort` of Go's library, as insertion sort by a `Less` function. On items of which no two
-- are equal under the order the result is the only sorted arrangement.
use mathlib.Core.List.{Permᴰ, Perm}
use mathlib.Core.Logic.{∥∥₁_elim}
use rigo_go.Base.Bytes.{Bytes, bytes_lt, bytes_lt-asymm, bytes_lt_trans, bytes_lt-total}
use rigo_go.Base.Booleans.{if◌then◌else◌}
use mathlib.Core.Path.{◌≡◌, refl, ◌∙◌}
use mathlib.Core.Bool.{Bool, true, false}
use mathlib.Core.List.{List, [], ◌∷◌}
use native.Mathlib.Omega.{arith}

module _ {A : Type 0} where
  unfoldable pub sort_insert : (A → A → Bool) → A → List A → List A
  sort_insert less x [] = x ∷ []
  sort_insert less x (y ∷ ys) = if less y x then y ∷ sort_insert less x ys else x ∷ y ∷ ys

  unfoldable pub sort : (A → A → Bool) → List A → List A
  unfolding sort_insert
  sort less [] = []
  sort less (x ∷ xs) = sort_insert less x (sort less xs)

-- A strict order in which two items that are not apart are equal.
pub record IsStrictTotal {A : Type 0} (less : A → A → Bool) : Type 0 where
  pub asymm : (a b : A) → less a b ≡ true → less b a ≡ false
  pub trans : (a b c : A) → less a b ≡ true → less b c ≡ true → less a c ≡ true
  pub total : (a b : A) → less a b ≡ false → less b a ≡ false → a ≡ b

module _ {A : Type 0} {less : A → A → Bool} (o : IsStrictTotal less) where
  sort_insert_comm :
      (a b : A) (l : List A)
      → sort_insert less a (sort_insert less b l) ≡ sort_insert less b (sort_insert less a l)
  unfolding sort_insert
  sort_insert_comm a b [] = ground (arith, o.asymm a b, o.total a b)
  sort_insert_comm a b (y ∷ ys) = ground (
    arith,
    o.asymm a b,
    o.total a b,
    o.trans y a b,
    o.trans y b a,
    o.trans a y b,
    o.trans b y a,
    o.asymm a y,
    o.asymm b y,
    o.asymm y a,
    o.asymm y b,
    sort_insert_comm a b ys,
    o.total a y,
    o.total b y,
  )

  sort_perm : {xs ys : List A} → Permᴰ xs ys → sort less xs ≡ sort less ys
  unfolding sort
  sort_perm Permᴰ.nil = refl
  sort_perm (Permᴰ.cons {a = a} e p) = cc (sort_perm p)
  sort_perm (Permᴰ.swap {a = a} {b = b} {l = l} e e') = cc (sort_insert_comm a b (sort less l))
  sort_perm (Permᴰ.trans p q) = sort_perm p ∙ sort_perm q

  -- Any two listings of the same items are sorted alike.
  pub sort-perm : IsSet (List A) → {xs ys : List A} → Perm xs ys → sort less xs ≡ sort less ys
  sort-perm set {xs} {ys} p = ∥∥₁_elim p (set _ _) sort_perm

-- `bytes.Compare(a, b) > 0`, the order of `LedgerKeyList`.
unfoldable pub bytes_gt : Bytes → Bytes → Bool
bytes_gt a b = bytes_lt b a

pub bytes_gt-IsStrictTotal : IsStrictTotal bytes_gt
unfolding bytes_gt
bytes_gt-IsStrictTotal = record {
  asymm = λ a b h. bytes_lt-asymm b a h;
  trans = λ a b c h k. bytes_lt_trans c b a k h;
  total = λ a b h k. bytes_lt-total a b k h;
}

pub Bytes-set : IsSet (List Bytes)
Bytes-set = hlevel
