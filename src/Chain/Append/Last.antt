-- ===== src/Chain/Append/Last.antt =====
-- A chain with its last item.
use librascal.Prelude.{
  ℕ, suc, ◌≡◌, sym, some, List, [], ◌∷◌, ◌++◌, length, All, All-append, get_elem?_last,
  length-append, arith,
}
use librascal.Chain.{DataChain, tail_item}
use librascal.Chain.Item.{DataChainItem, IsItem, new_item}
use librascal.Chain.Valid.{IsChain, last_place-snoc}

abbrev pub chain : List DataChainItem → DataChainItem → DataChain
chain pre it = record { items = pre ++ it ∷ []; tail = some (length pre) }

pub chain-IsChain :
    (pre : List DataChainItem) (it : DataChainItem)
    → All IsItem pre
    → IsItem it
    → IsChain (chain pre it)
chain-IsChain pre it p v = record {
  tail_last = sym (last_place-snoc pre it);
  marks = All-append IsItem pre (it ∷ []) p (v, tt);
}

tail_item-chain :
    (pre : List DataChainItem) (it : DataChainItem)
    → tail_item (chain pre it) ≡ some (length pre, it)
tail_item-chain pre it = rw (get_elem?_last pre it, tail_item)

pub new_item-IsItem : (m : ℕ → ℕ) → IsItem (new_item m)
new_item-IsItem m = omega arith

pub length-snoc :
    (pre : List DataChainItem) (it : DataChainItem) → length (pre ++ it ∷ []) ≡ suc (length pre)
length-snoc pre it = omega (arith, length-append pre (it ∷ []))
