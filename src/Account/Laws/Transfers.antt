-- ===== src/Account/Laws/Transfers.antt =====
-- Transfers and rewards by address, as a reader of the same mode sees them.
use rigo_go.Base.{
  ℕ, ◌+◌, ◌-◌, ◌%◌, ◌^◌, ◌≡◌, ◌≢◌, ◌<◌, inl, inr, Bool, true, false, Option, none, some, [], arith,
  refl, ap, ◌∙◌, if◌then◌else◌, Option-cases,
}
use mathlib.Core.Path.{subst}
use rigo_go.Base.Bytes.{Bytes, ◌=b◌, =b_iff}
use rigo_go.Base.Words.{UInt256}
use rigo_go.Base.Result.{Result-cases, ok}
use rigo_go.Ledger.Map.{lookup, insert, lookup-insert}
use rigo_go.Ledger.MemItems.{MemItems}
use rigo_go.Ledger.Tree.{TreeOps}
use rigo_go.Ledger.Simple.{to_ledger_key}
use rigo_go.Ledger.Finality.{FinalityLedger}
use rigo_go.Account.Struct.{Account, Sign, new_account_with_name}
use rigo_go.Account.Codec.{AcctCodec}
use rigo_go.Account.Heap.{AcctRef, alloc, key, array32, move}
use rigo_go.Account.Ctrler.{
  AcctCtrler, find_account, receiver_of, fresh, set_account_committable, transfer_by_addr,
}
use rigo_go.Account.Laws.Moves.{balance_at, move_balances}
use rigo_go.Account.Laws.Views.{IsOwned, seen, Found, get_item-Reads}

-- The cache of a mode: the block's, or that of `CheckTx`.
abbrev pub cache : {Tree : Type 0} → Bool → FinalityLedger Tree AcctRef → MemItems AcctRef
cache true l = l.finality_items
cache false l = l.cached_items

abbrev pub balance_of : Option Account → UInt256
balance_of none = 0
balance_of (some acct) = acct.balance

module _ {Tree : Type 0} (codec : AcctCodec) (trees : TreeOps Tree) where
  -- What a reader of the mode finds at a key.
  abbrev pub view : Bytes → Bool → AcctCtrler Tree → Option Account
  view k exec s = seen codec trees k s.acct_ledger.tree (cache exec s.acct_ledger) s.heap

module _ {Tree : Type 0} (codec : AcctCodec) (trees : TreeOps Tree) (sign : UInt256 → Sign) where
  abbrev Finds : Bytes → Bool → AcctCtrler Tree → Option AcctRef × AcctCtrler Tree → Type 0
  Finds k exec s (some r, s') =
      Found codec trees k s.acct_ledger.tree (cache exec s.acct_ledger) s.heap r
        (cache exec s'.acct_ledger) s'.heap
      × (s'.acct_ledger.tree ≡ s.acct_ledger.tree)
  Finds k exec s (none, s') =
      (cache exec s'.acct_ledger ≡ cache exec s.acct_ledger)
      × (s'.heap ≡ s.heap)
      × (view codec trees k exec s ≡ none)
      × (s'.acct_ledger.tree ≡ s.acct_ledger.tree)

  find_account-Finds :
      (addr : Bytes) (exec : Bool) (s : AcctCtrler Tree)
      → IsOwned (cache exec s.acct_ledger) s.heap
      → Finds (to_ledger_key addr) exec s (find_account codec trees sign addr exec s)
  unfolding find_account
  find_account-Finds addr true s o = ground (
    arith,
    get_item-Reads codec trees (to_ledger_key addr) s.acct_ledger.tree s.acct_ledger.finality_items
        s.heap o,
  )
  find_account-Finds addr false s o = ground (
    arith,
    get_item-Reads codec trees (to_ledger_key addr) s.acct_ledger.tree s.acct_ledger.cached_items
        s.heap o,
  )

  Finds-some :
      (k : Bytes) (exec : Bool) (s : AcctCtrler Tree) (p : Option AcctRef × AcctCtrler Tree)
      {r : AcctRef}
      → Finds k exec s p
      → p.0 ≡ some r
      → Finds k exec s (some r, p.1)
  Finds-some k exec s (some q, s') {r} f e =
      let same : q ≡ r = cc in subst (λ x. Finds k exec s (some x, s')) same f
  Finds-some k exec s (none, s') f e = cc

  set_committable-cache :
      (r : AcctRef) (exec : Bool) (s : AcctCtrler Tree)
      → let s' = set_account_committable codec trees sign r exec s in
        ((cache exec s'.acct_ledger).got_items
          ≡ insert (key r) r (cache exec s.acct_ledger).got_items)
        × ((cache exec s'.acct_ledger).removed_keys ≡ (cache exec s.acct_ledger).removed_keys)
        × (s'.heap ≡ s.heap)
        × (s'.acct_ledger.tree ≡ s.acct_ledger.tree)
  unfolding set_account_committable
  set_committable-cache r true s = (refl, refl, refl, refl)
  set_committable-cache r false s = (refl, refl, refl, refl)

  -- The receiver's object, found or made: no other key has it.
  record Receives (k : Bytes) (exec : Bool) (s : AcctCtrler Tree) (r : AcctRef)
      (s' : AcctCtrler Tree) : Type 0 where
    owned : IsOwned (cache exec s'.acct_ledger) s'.heap
    own_key : key r ≡ k
    allocated : r.id < s'.heap.next
    alone :
        (j : Bytes) (q : AcctRef)
        → lookup j (cache exec s'.acct_ledger).got_items ≡ some q
        → q.id ≡ r.id
        → j ≡ k
    shows : balance_of (view codec trees k exec s) ≡ balance_at r.id s'.heap
    lasting :
        (j : Bytes) (q : AcctRef)
        → lookup j (cache exec s.acct_ledger).got_items ≡ some q
        → lookup j (cache exec s'.acct_ledger).got_items ≡ some q
    same : (j : Bytes) → view codec trees j exec s' ≡ view codec trees j exec s

  -- `Account.Key` and `ToLedgerKey` pad an address alike.
  key-to_ledger_key : (addr : Bytes) → array32 addr ≡ to_ledger_key addr
  unfolding array32 to_ledger_key
  key-to_ledger_key addr = ground arith

  Found-Receives :
      (addr : Bytes) (exec : Bool) (s : AcctCtrler Tree) (r : AcctRef) (s' : AcctCtrler Tree)
      → Found codec trees
          (to_ledger_key addr)
          s.acct_ledger.tree
          (cache exec s.acct_ledger)
          s.heap
          r
          (cache exec s'.acct_ledger)
          s'.heap
      → s'.acct_ledger.tree ≡ s.acct_ledger.tree
      → Receives (to_ledger_key addr) exec s r s'
  Found-Receives addr exec s r s' f t =
      let k = to_ledger_key addr in
      record {
        owned = f.owned;
        own_key = f.owned.keyed k r f.cached;
        allocated = f.owned.bounded k r f.cached;
        alone = λ j q e same. f.owned.apart j k q r e f.cached same;
        shows = ap balance_of f.shows;
        lasting = f.lasting;
        same = λ j.
            ap (λ (x : Tree). seen codec trees j x (cache exec s'.acct_ledger) s'.heap) t
            ∙ f.same j;
      }

  fresh-Receives :
      (addr : Bytes) (exec : Bool) (s s' : AcctCtrler Tree)
      → IsOwned (cache exec s.acct_ledger) s.heap
      → cache exec s'.acct_ledger ≡ cache exec s.acct_ledger
      → s'.heap ≡ s.heap
      → view codec trees (to_ledger_key addr) exec s ≡ none
      → s'.acct_ledger.tree ≡ s.acct_ledger.tree
      → let (r, s'') = fresh codec trees sign (new_account_with_name addr []) s' in
        Receives (to_ledger_key addr) exec s r s''
  unfolding alloc key new_account_with_name
  fresh-Receives addr exec s s' o c h v t = record {
    owned = record {
      kept = λ j. ground (arith, o.kept j);
      keyed = λ j r e. ground (arith, o.keyed j r);
      bounded = λ j r e. ground (arith, o.bounded j r);
      apart = λ i j r q e e' same. ground (arith, o.apart i j r q);
    };
    own_key = key-to_ledger_key addr;
    allocated = omega arith;
    alone = λ j q e same. absurd (ground (arith, o.bounded j q));
    shows = ground arith;
    lasting = λ j q e. ground arith;
    same = λ j. elim (Option-cases (lookup j (cache exec s.acct_ledger).got_items)) [
      | inl e ↦ ground arith
      | inr (q, e) ↦ ground (arith, o.bounded j q e)
    ];
  }

  receiver_of-Receives :
      (addr : Bytes) (exec : Bool) (s : AcctCtrler Tree)
      → IsOwned (cache exec s.acct_ledger) s.heap
      → let (r, s') =
          receiver_of codec trees sign addr (find_account codec trees sign addr exec s) in
        Receives (to_ledger_key addr) exec s r s'
  receiver_of-Receives addr exec s o =
      go (find_account codec trees sign addr exec s) (find_account-Finds addr exec s o)
    where
      go :
          (p : Option AcctRef × AcctCtrler Tree)
          → Finds (to_ledger_key addr) exec s p
          → let (r, s') = receiver_of codec trees sign addr p in
            Receives (to_ledger_key addr) exec s r s'
      go (some r, s') (f, t) = Found-Receives addr exec s r s' f t
      go (none, s') (c, h, v, t) = fresh-Receives addr exec s s' o c h v t

  -- the two calls of `setAccountCommittable` that end a transfer
  abbrev set_both : AcctRef → AcctRef → Bool → AcctCtrler Tree → AcctCtrler Tree
  set_both r0 r1 exec s =
      set_account_committable codec trees sign r1 exec
        (set_account_committable codec trees sign r0 exec s)

  set_both-view :
      (j : Bytes) (r0 r1 : AcctRef) (exec : Bool) (s : AcctCtrler Tree)
      → view codec trees j exec (set_both r0 r1 exec s) ≡ (
          if key r1 =b j
          then some (s.heap.cell r1.id)
          else if key r0 =b j
          then some (s.heap.cell r0.id)
          else view codec trees j exec s)
  set_both-view j r0 r1 exec s =
      let s₁ = set_account_committable codec trees sign r0 exec s in
      let first = set_committable-cache r0 exec s in
      let second = set_committable-cache r1 exec s₁ in
      ground (
        arith,
        first,
        second,
        lookup-insert j (key r1) r1 (cache exec s₁.acct_ledger).got_items,
        lookup-insert j (key r0) r0 (cache exec s.acct_ledger).got_items,
      )

  moved-view :
      (j k : Bytes) (amt : UInt256) (exec : Bool) (s : AcctCtrler Tree) (r0 r1 : AcctRef)
      (s₂ : AcctCtrler Tree)
      → lookup k (cache exec s₂.acct_ledger).got_items ≡ some r0
      → Receives j exec s r1 s₂
      → k ≢ j
      → balance_at r0.id s₂.heap < 2 ^ 256
      → (move sign r0 r1 amt s₂.heap).0 ≡ ok tt
      → (i : Bytes)
      → balance_of (
          view codec trees i exec
            (set_both r0 r1 exec (record s₂ { heap = (move sign r0 r1 amt s₂.heap).1 })))
        ≡ (if k =b i
            then balance_at r0.id s₂.heap - amt
            else if j =b i
            then (balance_at r1.id s₂.heap + amt) % 2 ^ 256
            else balance_of (view codec trees i exec s))
  moved-view j k amt exec s r0 r1 s₂ at rcv apart word done i =
      let ne : r0.id ≢ r1.id = λ same. apart (rcv.alone k r0 at same) in
      let moved = λ (c : ℕ). move_balances sign r0 r1 amt s₂.heap c word ne done in
      let shown =
        set_both-view i r0 r1 exec (record s₂ { heap = (move sign r0 r1 amt s₂.heap).1 }) in
      elim (Option-cases (lookup i (cache exec s₂.acct_ledger).got_items)) [
        | inl e ↦ ground (
          arith,
          shown,
          =b_iff k i,
          =b_iff j i,
          moved r0.id,
          moved r1.id,
          rcv.own_key,
          rcv.owned.keyed k r0 at,
          rcv.same i,
        )
        | inr (q, e) ↦ ground (
          arith,
          shown,
          =b_iff k i,
          =b_iff j i,
          moved r0.id,
          moved r1.id,
          moved q.id,
          rcv.own_key,
          rcv.owned.keyed k r0 at,
          rcv.same i,
          rcv.owned.apart i k q r0 e at,
          rcv.alone i q e,
        )
      ]

  -- A transfer that succeeds between addresses of two different keys, where the cached accounts
  -- are distinct objects and the sender's balance is below 2^256, takes the amount from the
  -- sender's balance and adds it to the receiver's (0 if it had no account) modulo 2^256, and
  -- leaves every other balance alone, as the readers of its own mode see them.
  pub transfer_by_addr-views :
      (from to : Bytes) (amt : UInt256) (exec : Bool) (s : AcctCtrler Tree)
      → IsOwned (cache exec s.acct_ledger) s.heap
      → to_ledger_key from ≢ to_ledger_key to
      → balance_of (view codec trees (to_ledger_key from) exec s) < 2 ^ 256
      → (transfer_by_addr codec trees sign from to amt exec s).0 ≡ ok tt
      → (i : Bytes)
      → balance_of
          (view codec trees i exec (transfer_by_addr codec trees sign from to amt exec s).1)
        ≡ (if to_ledger_key from =b i
            then balance_of (view codec trees (to_ledger_key from) exec s) - amt
            else if to_ledger_key to =b i
            then (balance_of (view codec trees (to_ledger_key to) exec s) + amt) % 2 ^ 256
            else balance_of (view codec trees i exec s))
  unfolding transfer_by_addr
  transfer_by_addr-views from to amt exec s o apart word done i =
      let s₁ = (find_account codec trees sign from exec s).1 in
      elim (Option-cases (find_account codec trees sign from exec s).0) [
        | inl e ↦ ground arith
        | inr (r0, e) ↦
            let found =
              Finds-some (to_ledger_key from) exec s (find_account codec trees sign from exec s)
                (find_account-Finds from exec s o) e in
            let k = to_ledger_key from in
            let j = to_ledger_key to in
            let rcv = receiver_of-Receives to exec s₁ found.0.owned in
            let (r1, s₂) =
              receiver_of codec trees sign to (find_account codec trees sign to exec s₁) in
            let same = λ (x : Bytes).
              ap (λ (t : Tree). seen codec trees x t (cache exec s₁.acct_ledger) s₁.heap) found.1
              ∙ found.0.same x in
            let at = rcv.lasting k r0 found.0.cached in
            let funds : balance_at r0.id s₂.heap ≡ balance_of (view codec trees k exec s) =
              ground (arith, at, rcv.same k, same k) in
            elim (Result-cases (move sign r0 r1 amt s₂.heap).0) [
              | inr (x, refused) ↦ ground (arith, e, refused)
              | inl (u, moved) ↦
                  let views =
                    moved-view j k amt exec s₁ r0 r1 s₂ at rcv apart (omega (arith, funds)) moved
                      i in
                  ground (arith, e, moved, views, funds, rcv.shows, same j, same i)
            ]
      ]
