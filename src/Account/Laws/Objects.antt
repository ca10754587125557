-- ===== src/Account/Laws/Objects.antt =====
-- Operations on the accounts outside a block (`exec` is false) work on objects of their own: those
-- that the cache of the checks holds, or new ones (ctrlers/account/ctrler.go).
use mathlib.Core.Path.{subst}
use rigo_go.Base.{
  ℕ, ◌≡◌, ◌<◌, ◌==◌, ◌||◌, Bool, true, false, Option, none, some, [], ◌∷◌, inl, inr, Option-cases,
  Bool-cases, refl, sym, ◌∙◌, arith,
}
use rigo_go.Base.Bytes.{Bytes, ◌=b◌}
use rigo_go.Base.Words.{UInt256}
use rigo_go.Base.Result.{Result, ok, err, Result-cases}
use rigo_go.Ledger.Map.{Map, elem, lookup, insert}
use rigo_go.Ledger.MemItems.{MemItems, set_got_item, set_updated_item, get_got_item, is_removed_key}
use rigo_go.Ledger.Tree.{TreeOps}
use rigo_go.Ledger.Simple.{to_ledger_key, get_item, read_item, set_item}
use rigo_go.Ledger.Simple
use rigo_go.Account.Struct.{Account, Sign}
use rigo_go.Account.Codec.{AcctCodec}
use rigo_go.Account.Heap.{AcctRef, Heap, alloc, write, credit, debit, move, acct_items}
use rigo_go.Account.Ctrler.{
  AcctCtrler, find_account, find_or_new_account, set_account_committable, reward, execute_trx,
  execute_after, execute_on_heap, set_receiver,
}
use rigo_go.Trx.{TrxContext, TrxType, transfer, setdoc}

-- An object is one of those that a cache holds.
unfoldable pub holds : ℕ → Map AcctRef → Bool
holds i [] = false
holds i ((k, r) ∷ m) = (r.id == i) || holds i m

lookup-holds :
    (i : ℕ) (k : Bytes) (r : AcctRef) (m : Map AcctRef)
    → lookup k m ≡ some r
    → holds i m ≡ false
    → (r.id == i) ≡ false
unfolding lookup holds
lookup-holds i k r [] e h = cc
lookup-holds i k r ((j, q) ∷ m) e h = elim (Bool-cases (j =b k)) [
  | inl hit ↦ ground (arith, hit, e, h)
  | inr miss ↦ lookup-holds i k r m (ground (arith, miss, e)) (ground (arith, h))
]

holds-insert :
    (i : ℕ) (k : Bytes) (r : AcctRef) (m : Map AcctRef)
    → holds i m ≡ false
    → (r.id == i) ≡ false
    → holds i (insert k r m) ≡ false
unfolding holds insert
holds-insert i k r [] h other = ground (arith, h, other)
holds-insert i k r ((j, q) ∷ m) h other = elim (Bool-cases (j =b k)) [
  | inl hit ↦ ground (arith, hit, h, other)
  | inr miss ↦ ground (arith, miss, h, other, holds-insert i k r m (ground (arith, h)) other)
]

-- An object in use, which is not one of those of the checks, and what is in it.
abbrev pub IsOutside : {Tree : Type 0} → ℕ → Account → AcctCtrler Tree → Type 0
IsOutside i acct s =
    (i < s.heap.next)
    × (s.heap.cell i ≡ acct)
    × (holds i s.acct_ledger.cached_items.got_items ≡ false)

-- a reference to another object, or none
abbrev pub IsOther : ℕ → Option AcctRef → Type 0
IsOther i none = Unit
IsOther i (some r) = (r.id == i) ≡ false

module _ {Tree : Type 0} (codec : AcctCodec) (trees : TreeOps Tree) (sign : UInt256 → Sign) where
  -- an object in use in a heap, and not one of a cache
  abbrev Apart : ℕ → Account → MemItems AcctRef → Heap → Type 0
  Apart i acct m h = (i < h.next) × (h.cell i ≡ acct) × (holds i m.got_items ≡ false)

  -- what a look-up gives
  abbrev IsFound : ℕ → Account → Result AcctRef × MemItems AcctRef × Heap → Type 0
  IsFound i acct (ok r, m, h) = ((r.id == i) ≡ false) × Apart i acct m h
  IsFound i acct (err e, m, h) = Apart i acct m h

  read_item-fresh :
      (i : ℕ) (k : Bytes) (t : Tree) (h : Heap) (x : AcctRef × Heap)
      → read_item (acct_items codec) trees k t h ≡ ok x
      → i < h.next
      → ((x.0.id == i) ≡ false) × (i < x.1.next) × (x.1.cell i ≡ h.cell i)
  unfolding read_item alloc
  read_item-fresh i k t h x e below = ground (arith, e, below)

  get_item-IsFound :
      (i : ℕ) (acct : Account) (k : Bytes) (t : Tree) (m : MemItems AcctRef) (h : Heap)
      → Apart i acct m h
      → IsFound i acct (get_item (acct_items codec) trees k t m h)
  unfolding get_item read_item get_got_item is_removed_key
  get_item-IsFound i acct k t m h o = elim (Bool-cases (elem k m.removed_keys)) [
    | inl removed ↦ rw removed o
    | inr kept ↦ elim (Option-cases (lookup k m.got_items)) [
      | inr (r, got) ↦ rw (kept, got, get_item) (lookup-holds i k r m.got_items got o.2, o)
      | inl missing ↦ elim (Result-cases (read_item (acct_items codec) trees k t h)) [
        | inr (x, failed) ↦ rw (kept, missing, failed, get_item) o
        | inl (x, read) ↦
            let (other, below, same) = read_item-fresh i k t h x read o.0 in
            rw (kept, missing, read, get_item)
              (other, (below, same ∙ o.1, holds-insert i _ x.0 m.got_items o.2 other))
      ]
    ]
  ]

  found_lem :
      (i : ℕ) (acct : Account) (out : Result AcctRef × MemItems AcctRef × Heap)
      → IsFound i acct out
      → IsOther i (elim out.0 [ ok r ↦ some r | err e ↦ none ]) × Apart i acct out.1 out.2
  found_lem i acct (ok r, m, h) found = found
  found_lem i acct (err e, m, h) found = (tt, found)

  pub find_account-Outside :
      (i : ℕ) (acct : Account) (addr : Bytes) (exec : Bool) (s : AcctCtrler Tree)
      → exec ≡ false
      → IsOutside i acct s
      → let out = find_account codec trees sign addr exec s in
        IsOther i out.0 × IsOutside i acct out.1
  unfolding find_account Simple.get
  find_account-Outside i acct addr true s e o = cc
  find_account-Outside i acct addr false s e o = found_lem i acct _ (
      get_item-IsFound i acct (to_ledger_key addr) s.acct_ledger.tree s.acct_ledger.cached_items
        s.heap o)

  pub set_account_committable-Outside :
      (i : ℕ) (acct : Account) (r : AcctRef) (exec : Bool) (s : AcctCtrler Tree)
      → exec ≡ false
      → (r.id == i) ≡ false
      → IsOutside i acct s
      → IsOutside i acct (set_account_committable codec trees sign r exec s)
  unfolding set_account_committable Simple.set set_item set_got_item set_updated_item
  set_account_committable-Outside i acct r true s e other o = cc
  set_account_committable-Outside i acct r false s e other o =
      (o.0, o.1, holds-insert i _ r s.acct_ledger.cached_items.got_items o.2 other)

  set_receiver-Outside :
      (i : ℕ) (acct : Account) (r : Option AcctRef) (exec : Bool) (s : AcctCtrler Tree)
      → exec ≡ false
      → IsOther i r
      → IsOutside i acct s
      → IsOutside i acct (set_receiver codec trees sign r exec s)
  set_receiver-Outside i acct none exec s e other o = o
  set_receiver-Outside i acct (some r) exec s e other o =
      set_account_committable-Outside i acct r exec s e other o

  -- The heap keeps an object.
  abbrev pub Keeps : ℕ → Account → Heap → Type 0
  Keeps i acct h = (i < h.next) × (h.cell i ≡ acct)

  pub debit-Keeps :
      (i : ℕ) (acct : Account) (amt : UInt256) (r : AcctRef) (h : Heap)
      → (r.id == i) ≡ false
      → Keeps i acct h
      → Keeps i acct (debit sign amt r h).1
  unfolding debit write
  debit-Keeps i acct amt r h other o = ground (arith, other, o)

  pub credit-Keeps :
      (i : ℕ) (acct : Account) (amt : UInt256) (r : AcctRef) (h : Heap)
      → (r.id == i) ≡ false
      → Keeps i acct h
      → Keeps i acct (credit sign amt r h).1
  unfolding credit write
  credit-Keeps i acct amt r h other o = ground (arith, other, o)

  move-Keeps :
      (i : ℕ) (acct : Account) (from to : AcctRef) (amt : UInt256) (h : Heap)
      → (from.id == i) ≡ false
      → (to.id == i) ≡ false
      → Keeps i acct h
      → Keeps i acct (move sign from to amt h).1
  unfolding move
  move-Keeps i acct from to amt h other other' o =
      let (r, h₁) = debit sign amt from h in
      let paid = debit-Keeps i acct amt from h other o in
      let got = credit-Keeps i acct amt to h₁ other' paid in
      let back = credit-Keeps i acct amt from (credit sign amt to h₁).1 other got in
      elim (Result-cases r) [
        | inr (x, e) ↦ rw (e, move) paid
        | inl (_, e) ↦ elim (Result-cases (credit sign amt to h₁).0) [
          | inl (_, e') ↦ rw (e, e', move) got
          | inr (x, e') ↦ rw (e, e', move) back
        ]
      ]

  -- The parties of a transaction are other objects.
  abbrev pub AreOthers : ℕ → TrxContext → Type 0
  AreOthers i ctx = ((ctx.sender.id == i) ≡ false) × IsOther i ctx.receiver

  execute_on_heap-Keeps :
      (i : ℕ) (acct : Account) (ctx : TrxContext) (type : TrxType) (receiver : Option AcctRef)
      (h : Heap)
      → ctx.tx.type ≡ type
      → ctx.receiver ≡ receiver
      → AreOthers i ctx
      → Keeps i acct h
      → Keeps i acct (execute_on_heap codec trees sign ctx h).1
  unfolding write
  execute_on_heap-Keeps i acct ctx transfer none h is to others o = rw (is, to) o
  execute_on_heap-Keeps i acct ctx transfer (some r) h is to others o =
      rw (is, to)
        (move-Keeps i acct ctx.sender r ctx.tx.amount h others.0
          (subst (λ x. IsOther i x) to others.1) o)
  execute_on_heap-Keeps i acct ctx setdoc receiver h is to others o =
      rw is (ground (arith, others.0, o))
  execute_on_heap-Keeps i acct ctx _ receiver h is to others o = rw is o

  execute_after-Outside :
      (i : ℕ) (acct : Account) (ctx : TrxContext) (s : AcctCtrler Tree)
      (out : Result (Unit {0}) × Heap)
      → ctx.exec ≡ false
      → AreOthers i ctx
      → IsOutside i acct s
      → Keeps i acct out.1
      → IsOutside i acct (execute_after codec trees sign ctx s out).1
  unfolding execute_after
  execute_after-Outside i acct ctx s (err x, h) e others o kept = (kept.0, kept.1, o.2)
  execute_after-Outside i acct ctx s (ok _, h) e others o kept =
      set_receiver-Outside i acct ctx.receiver ctx.exec _ e others.1 (
        set_account_committable-Outside i acct ctx.sender ctx.exec (record s { heap = h }) e
          others.0 (kept.0, kept.1, o.2))

  pub execute_trx-Outside :
      (i : ℕ) (acct : Account) (ctx : TrxContext) (s : AcctCtrler Tree)
      → ctx.exec ≡ false
      → AreOthers i ctx
      → IsOutside i acct s
      → IsOutside i acct (execute_trx codec trees sign ctx s).1
  unfolding execute_trx
  execute_trx-Outside i acct ctx s e others o =
      execute_after-Outside i acct ctx s _ e others o (
        execute_on_heap-Keeps i acct ctx ctx.tx.type ctx.receiver s.heap refl refl others
          (o.0, o.1))

  pub find_or_new_account-Outside :
      (i : ℕ) (acct : Account) (addr : Bytes) (exec : Bool) (s : AcctCtrler Tree)
      → exec ≡ false
      → IsOutside i acct s
      → let out = find_or_new_account codec trees sign addr exec s in
        ((out.0.id == i) ≡ false) × IsOutside i acct out.1
  unfolding find_or_new_account alloc
  find_or_new_account-Outside i acct addr exec s e o =
      let (found, s₁) = find_account codec trees sign addr exec s in
      let (other, o') = find_account-Outside i acct addr exec s e o in
      elim (Option-cases found) [
        | inr (r, is) ↦ rw (is, find_or_new_account) (subst (λ x. IsOther i x) is other, o')
        | inl missing ↦
            let fresh : (s₁.heap.next == i) ≡ false = ground (arith, o'.0) in
            let fresh' : (i == s₁.heap.next) ≡ false = ground (arith, o'.0) in
            rw (missing, find_or_new_account)
              (
                fresh,
                set_account_committable-Outside i acct _ exec _ e fresh
                    (omega (arith, o'.0), rw fresh' o'.1, o'.2),
              )
      ]

  pub reward-Outside :
      (i : ℕ) (acct : Account) (to : Bytes) (amt : UInt256) (exec : Bool) (s : AcctCtrler Tree)
      → exec ≡ false
      → IsOutside i acct s
      → IsOutside i acct (reward codec trees sign to amt exec s).1
  unfolding reward
  reward-Outside i acct to amt exec s e o =
      let (found, s₁) = find_account codec trees sign to exec s in
      let (other, o') = find_account-Outside i acct to exec s e o in
      elim (Option-cases found) [
        | inl missing ↦
            let run : (reward codec trees sign to amt exec s).1 ≡ s₁ = ground (arith, missing) in
            subst (λ x. IsOutside i acct x) (sym run) o'
        | inr (r, is) ↦
            let other' = subst (λ x. IsOther i x) is other in
            let (res, h) = credit sign amt r s₁.heap in
            let s₂ : AcctCtrler Tree = record s₁ { heap = h } in
            let kept = credit-Keeps i acct amt r s₁.heap other' (o'.0, o'.1) in
            let o₂ : IsOutside i acct s₂ = (kept.0, kept.1, o'.2) in
            elim (Result-cases res) [
              | inr (x, failed) ↦
                  let run : (reward codec trees sign to amt exec s).1 ≡ s₂ =
                    ground (arith, is, failed) in
                  subst (λ x. IsOutside i acct x) (sym run) o₂
              | inl (_, paid) ↦
                  let run : (reward codec trees sign to amt exec s).1
                      ≡ set_account_committable codec trees sign r exec s₂ =
                    ground (arith, is, paid) in
                  subst (λ x. IsOutside i acct x) (sym run)
                    (set_account_committable-Outside i acct r exec s₂ e other' o₂)
            ]
      ]
