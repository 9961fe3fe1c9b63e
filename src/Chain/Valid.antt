-- ===== src/Chain/Valid.antt =====
-- The representation invariant of a chain, and the bytes that it holds.
use librascal.Prelude.{
  ℕ, suc, ◌≡◌, refl, ap, sym, ◌∙◌, Option, none, some, List, [], ◌∷◌, ◌++◌, length, All,
  append_assoc, append-nil,
}
use librascal.Chain.{DataChain, empty_chain}
use librascal.Chain.Item.{DataChainItem, IsItem, live}

-- The bytes of the items, first to last.
abbrev pub live_bytes : List DataChainItem → List ℕ
live_bytes [] = []
live_bytes (it ∷ items) = live it ++ live_bytes items

abbrev pub contents : DataChain → List ℕ
contents c = live_bytes c.items

-- The place of the last item.
abbrev pub last_place : List DataChainItem → Option ℕ
last_place [] = none
last_place (it ∷ items) = some (length items)

-- `tail` is the last item, NULL exactly if `head` is; and each item's marks are in order.
pub record IsChain (c : DataChain) : Type 0 where
  pub tail_last : c.tail ≡ last_place c.items
  pub marks : All IsItem c.items

pub empty_chain-IsChain : IsChain empty_chain
empty_chain-IsChain = record { tail_last = refl; marks = tt }

pub live_bytes-append :
    (xs ys : List DataChainItem) → live_bytes (xs ++ ys) ≡ live_bytes xs ++ live_bytes ys
live_bytes-append [] ys = refl
live_bytes-append (x ∷ xs) ys =
    ap (◌++◌ (live x)) (live_bytes-append xs ys) ∙ sym (append_assoc (live x) _ _)

pub last_place-snoc :
    (pre : List DataChainItem) (it : DataChainItem)
    → last_place (pre ++ it ∷ []) ≡ some (length pre)
last_place-snoc [] it = refl
last_place-snoc (x ∷ pre) it = ap some (go pre)
  where
    go : (pre : List DataChainItem) → length (pre ++ it ∷ []) ≡ suc (length pre)
    go [] = refl
    go (y ∷ ys) = ap suc (go ys)

pub live_bytes-snoc :
    (pre : List DataChainItem) (it : DataChainItem)
    → live_bytes (pre ++ it ∷ []) ≡ live_bytes pre ++ live it
live_bytes-snoc pre it =
    live_bytes-append pre (it ∷ []) ∙ ap (◌++◌ (live_bytes pre)) (append-nil (live it))

-- A list of items is empty or ends in one.
pub snoc_cases :
    (it : DataChainItem) (items : List DataChainItem)
    → (pre : List DataChainItem) × (last : DataChainItem) × (it ∷ items ≡ pre ++ last ∷ [])
snoc_cases it [] = ([], it, refl)
snoc_cases it (x ∷ items) =
    let (pre, last, e) = snoc_cases x items in (it ∷ pre, last, ap (◌∷◌ it) e)
