-- ===== src/Ledger/Laws/Runs.antt =====
-- A ledger through any sequence of operations, as the controllers make them.
use rigo_go.Base.{inl, inr}
use rigo_go.Base.Bytes.{Bytes}
use rigo_go.Ledger.Tree.{TreeOps}
use rigo_go.Ledger.Simple
use rigo_go.Ledger.Simple.{ItemOps}
use rigo_go.Ledger.Finality.{
  FinalityLedger, opened, set_finality, cancel_set_finality, get_finality, del_finality,
  cancel_del_finality, commit,
}
use rigo_go.Ledger.Laws.Coherence.{
  IsCoherent, set_item-IsCoherent, cancel_set_item-IsCoherent, get_item-IsCoherent,
  del_item-IsCoherent, del_removed_key-IsCoherent, refresh-IsCoherent, reset-IsCoherent,
  new_mem_items-IsCoherent,
}
use rigo_go.Ledger.Laws.Commit.{commit-cases}

module _ {H T Tree : Type 0} (items : ItemOps H T) (trees : TreeOps Tree) where
  -- One call of the ledger; the heap is whatever the other code has made of it.
  pub data Step (l : FinalityLedger Tree T) : FinalityLedger Tree T → Type 0 where
    set : (item : T) → Step l (record l { simple = Simple.set items trees item l.simple })
    cancel_set :
        (k : Bytes) → Step l (record l { simple = Simple.cancel_set items trees k l.simple })
    get :
        (k : Bytes) (h : H) → Step l (record l { simple = (Simple.get items trees k l.simple h).1 })
    del :
        (k : Bytes) (h : H) → Step l (record l { simple = (Simple.del items trees k l.simple h).1 })
    cancel_del :
        (k : Bytes) → Step l (record l { simple = Simple.cancel_del items trees k l.simple })
    set_final : (item : T) → Step l (set_finality items trees item l)
    cancel_set_final : (k : Bytes) → Step l (cancel_set_finality items trees k l)
    get_final : (k : Bytes) (h : H) → Step l (get_finality items trees k l h).1
    del_final : (k : Bytes) (h : H) → Step l (del_finality items trees k l h).1
    cancel_del_final : (k : Bytes) → Step l (cancel_del_finality items trees k l)
    committed : (h : H) → Step l (commit items trees l h).1

  -- Any number of calls.
  pub data Reach (l : FinalityLedger Tree T) : FinalityLedger Tree T → Type 0 where
    here : Reach l l
    next : {l' l'' : FinalityLedger Tree T} → Reach l l' → Step l' l'' → Reach l l''

  pub record IsSound (l : FinalityLedger Tree T) : Type 0 where
    pub cached : IsCoherent items trees l.cached_items
    pub final : IsCoherent items trees l.finality_items

  pub Step-IsSound : {l l' : FinalityLedger Tree T} → Step l l' → IsSound l → IsSound l'
  unfolding Simple.set Simple.cancel_set Simple.get Simple.del Simple.cancel_del set_finality
      cancel_set_finality get_finality del_finality cancel_del_finality
  Step-IsSound {l} (set item) s = record {
    cached = set_item-IsCoherent items trees item l.cached_items s.cached;
    final = s.final;
  }
  Step-IsSound {l} (cancel_set k) s = record {
    cached = cancel_set_item-IsCoherent items trees k l.cached_items s.cached;
    final = s.final;
  }
  Step-IsSound {l} (get k h) s = record {
    cached = get_item-IsCoherent items trees k l.tree l.cached_items h s.cached;
    final = s.final;
  }
  Step-IsSound {l} (del k h) s = record {
    cached = del_item-IsCoherent items trees k l.tree l.cached_items h s.cached;
    final = s.final;
  }
  Step-IsSound {l} (cancel_del k) s = record {
    cached = del_removed_key-IsCoherent items trees k l.cached_items s.cached;
    final = s.final;
  }
  Step-IsSound {l} (set_final item) s = record {
    cached = s.cached;
    final = set_item-IsCoherent items trees item l.finality_items s.final;
  }
  Step-IsSound {l} (cancel_set_final k) s = record {
    cached = s.cached;
    final = cancel_set_item-IsCoherent items trees k l.finality_items s.final;
  }
  Step-IsSound {l} (get_final k h) s = record {
    cached = s.cached;
    final = get_item-IsCoherent items trees k l.tree l.finality_items h s.final;
  }
  Step-IsSound {l} (del_final k h) s = record {
    cached = del_item-IsCoherent items trees k l.tree l.cached_items h s.cached;
    final =
        del_item-IsCoherent items trees k l.tree l.finality_items
          (Simple.del items trees k l.simple h).2 s.final;
  }
  Step-IsSound {l} (cancel_del_final k) s = record {
    cached = s.cached;
    final = del_removed_key-IsCoherent items trees k l.finality_items s.final;
  }
  Step-IsSound {l} (committed h) s = elim (commit-cases items trees l h) [
    | inl (final, cached) ↦ record {
      cached = rw cached (reset-IsCoherent items trees l.cached_items);
      final = rw final (refresh-IsCoherent items trees l.finality_items s.final);
    }
    | inr (final, cached) ↦ record { cached = rw cached s.cached; final = rw final s.final }
  ]

  opened-IsSound : (t : Tree) → IsSound (opened t)
  opened-IsSound t = record {
    cached = new_mem_items-IsCoherent items trees;
    final = new_mem_items-IsCoherent items trees;
  }

  -- Through any calls, commits that fail included, a ledger that was opened on a tree keeps both
  -- caches coherent: items stand under their own keys, an updated item is the one that is read,
  -- and a key that was removed and not set again has no item.
  pub Reach-IsSound : (t : Tree) {l : FinalityLedger Tree T} → Reach (opened t) l → IsSound l
  Reach-IsSound t here = opened-IsSound t
  Reach-IsSound t (next r st) = Step-IsSound st (Reach-IsSound t r)
