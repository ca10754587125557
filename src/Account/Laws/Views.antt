-- ===== src/Account/Laws/Views.antt =====
-- The balance that a mode of the controller shows at a key, and how the ledger's reads keep it.
use rigo_go.Base.{
  ◌≡◌, ◌<◌, ◌⊎◌, inl, inr, false, Option, none, some, arith, refl, sym, if◌then◌else◌, Bool-cases,
  Option-cases,
}
use rigo_go.Base.Bytes.{Bytes, ◌=b◌, =b_iff}
use rigo_go.Base.Result.{
  XError, Result, Result-cases, ok, err, from_error, ordinary, not_found_result,
}
use rigo_go.Ledger.Map.{lookup, insert, elem, lookup-insert}
use rigo_go.Ledger.MemItems.{MemItems, set_got_item}
use rigo_go.Ledger.Tree.{TreeOps}
use rigo_go.Ledger.Simple.{get_item, read_item}
use rigo_go.Account.Struct.{Account}
use rigo_go.Account.Codec.{AcctCodec, decode}
use rigo_go.Account.Heap.{AcctRef, Heap, alloc, key, array32, acct_items}

-- No account was ever deleted; the cached objects are allocated, and each key has its own.
pub record IsOwned (m : MemItems AcctRef) (h : Heap) : Type 0 where
  pub kept : (k : Bytes) → elem k m.removed_keys ≡ false
  pub keyed : (k : Bytes) (r : AcctRef) → lookup k m.got_items ≡ some r → key r ≡ k
  pub bounded : (k : Bytes) (r : AcctRef) → lookup k m.got_items ≡ some r → r.id < h.next
  pub apart :
      (k j : Bytes) (r q : AcctRef)
      → lookup k m.got_items ≡ some r
      → lookup j m.got_items ≡ some q
      → r.id ≡ q.id
      → k ≡ j

module _ {Tree : Type 0} (codec : AcctCodec) (trees : TreeOps Tree) where
  -- The account that the tree holds at a key.
  abbrev pub stored : Bytes → Tree → Option Account
  stored k t = elim (trees.get t k) [
    | ok (some bz) ↦ elim (decode codec bz) [
      | ok acct ↦ if k =b array32 acct.address then some acct else none
      | err e ↦ none
    ]
    | ok none ↦ none
    | err e ↦ none
  ]

  -- The account that a reader finds: the cached object, or else what the tree holds.
  abbrev pub seen : Bytes → Tree → MemItems AcctRef → Heap → Option Account
  seen k t m h = elim (lookup k m.got_items) [ some r ↦ some (h.cell r.id) | none ↦ stored k t ]

  -- A read of the tree allocates what it holds.
  read_item-cases :
      (k : Bytes) (t : Tree) (h : Heap)
      → ((acct : Account) × (stored k t ≡ some acct)
          × (read_item (acct_items codec) trees k t h ≡ ok (alloc acct h))
          × (array32 acct.address ≡ k))
        ⊎ ((e : XError) × (stored k t ≡ none) × (read_item (acct_items codec) trees k t h ≡ err e))
  unfolding read_item alloc key
  read_item-cases k t h = elim (Result-cases (trees.get t k)) [
    | inr (e, failed) ↦ inr (from_error e, ground arith, ground arith)
    | inl (none, absent) ↦ inr (not_found_result, ground arith, ground arith)
    | inl (some bz, present) ↦ elim (Result-cases (decode codec bz)) [
      | inr (e, failed) ↦ inr (from_error e, ground arith, ground arith)
      | inl (acct, decoded) ↦ elim (Bool-cases (k =b array32 acct.address)) [
        | inl own ↦
            inl (acct, ground arith, ground arith, sym ((=b_iff k (array32 acct.address)).0 own))
        | inr other ↦ inr (ordinary "the key is compromised", ground arith, ground arith)
      ]
    ]
  ]

  -- What a read that found an account did.
  pub record Found (k : Bytes) (t : Tree) (m : MemItems AcctRef) (h : Heap) (r : AcctRef)
      (m' : MemItems AcctRef) (h' : Heap) : Type 0 where
    pub owned : IsOwned m' h'
    pub cached : lookup k m'.got_items ≡ some r
    pub shows : seen k t m h ≡ some (h'.cell r.id)
    pub lasting :
        (j : Bytes) (q : AcctRef) → lookup j m.got_items ≡ some q → lookup j m'.got_items ≡ some q
    pub same : (j : Bytes) → seen j t m' h' ≡ seen j t m h

  abbrev pub Reads :
      Bytes → Tree → MemItems AcctRef → Heap → Result AcctRef × MemItems AcctRef × Heap → Type 0
  Reads k t m h (ok r, m', h') = Found k t m h r m' h'
  Reads k t m h (err e, m', h') = (m' ≡ m) × (h' ≡ h) × (seen k t m h ≡ none)

  -- A new object under its own key, which had none.
  added :
      (k : Bytes) (t : Tree) (acct : Account) (m : MemItems AcctRef) (h : Heap)
      → IsOwned m h
      → array32 acct.address ≡ k
      → lookup k m.got_items ≡ none
      → stored k t ≡ some acct
      → let (r, h') = alloc acct h in
        Found k t m h r (record m { got_items = insert (key r) r m.got_items }) h'
  unfolding alloc key
  added k t acct m h o own missed st =
      let new : AcctRef = record { addr = acct.address; id = h.next } in
      let put = λ (j : Bytes). lookup-insert j (array32 acct.address) new m.got_items in
      record {
        owned = record {
          kept = o.kept;
          keyed = λ j r e. ground (arith, put j, o.keyed j r, =b_iff (array32 acct.address) j);
          bounded = λ j r e. ground (arith, put j, o.bounded j r);
          apart = λ i j r q e e' same. ground (
            arith,
            put i,
            put j,
            o.bounded i r,
            o.bounded j q,
            o.apart i j r q,
            =b_iff (array32 acct.address) i,
            =b_iff (array32 acct.address) j,
          );
        };
        cached = ground (arith, put k, =b_iff (array32 acct.address) k);
        shows = ground arith;
        lasting = λ j q e. ground (arith, put j, =b_iff (array32 acct.address) j);
        same = λ j. elim (Option-cases (lookup j m.got_items)) [
          | inl e ↦ ground (arith, put j, =b_iff (array32 acct.address) j)
          | inr (q, e) ↦ ground (arith, put j, o.bounded j q e, =b_iff (array32 acct.address) j)
        ];
      }

  pub get_item-Reads :
      (k : Bytes) (t : Tree) (m : MemItems AcctRef) (h : Heap)
      → IsOwned m h
      → Reads k t m h (get_item (acct_items codec) trees k t m h)
  unfolding get_item set_got_item
  get_item-Reads k t m h o = elim (Option-cases (lookup k m.got_items)) [
    | inr (r, hit) ↦
        rw (o.kept k, hit)
          (record {
            owned = o;
            cached = hit;
            shows = ground arith;
            lasting = λ j q e. e;
            same = λ j. refl;
          })
    | inl missed ↦ elim (read_item-cases k t h) [
      | inl (acct, st, found, own) ↦
          rw (o.kept k, missed, found) (added k t acct m h o own missed st)
      | inr (e, st, failed) ↦ rw (o.kept k, missed, failed) (refl, refl, ground arith)
    ]
  ]
