-- ===== src/Tests/Chain.antt =====
-- Runs of `datachain` at small inputs, and its theorems there.
use librascal.Prelude.{◌≡◌, refl, some, [], ◌∷◌, get_or, All, arith}
use librascal.Chain.{DataChain, Allocator, append, remove, extract}
use librascal.Chain.Item.{DataChainItem}
use librascal.Chain.Valid.{IsChain, contents}
use librascal.Chain.Append.{Appended, append-Appended}
use librascal.Chain.Read.{HeadLive, remove-drop, extract-take-drop}
use librascal.Chain.Line.{gets}
use librascal.Chain.Line.Copy.{NoStale, read_line, gets_refines}

abbrev plenty : Allocator
plenty n = some (λ i. 0)

-- "hi\r\n" with its first byte read, then "yo".
abbrev hello : DataChainItem
hello = record { used = 4; dead = 1; bytes = λ i. get_or (104 ∷ 105 ∷ 13 ∷ 10 ∷ []) i 0 }

abbrev more : DataChainItem
more = record { used = 2; dead = 0; bytes = λ i. get_or (121 ∷ 111 ∷ []) i 0 }

abbrev sample : DataChain
sample = record { items = hello ∷ more ∷ []; tail = some 1 }

sample-IsChain : IsChain sample
sample-IsChain = record { tail_last = refl; marks = (omega arith, (omega arith, tt)) }

sample-NoStale : All NoStale sample.items
sample-NoStale = (omega arith, (omega arith, tt))

append-Appended_example :
    Appended plenty (105 ∷ 13 ∷ 10 ∷ 121 ∷ 111 ∷ []) (33 ∷ []) (append plenty sample (33 ∷ []))
append-Appended_example = append-Appended plenty sample (33 ∷ []) sample-IsChain

remove-drop_example :
    IsChain (remove sample 4)
    × (contents (remove sample 4) ≡ 111 ∷ [])
    × HeadLive (remove sample 4).items
remove-drop_example = remove-drop sample 4 sample-IsChain

extract-take-drop_example :
    ((extract sample 2).0 ≡ 105 ∷ 13 ∷ [])
    × (contents (extract sample 2).1 ≡ 10 ∷ 121 ∷ 111 ∷ [])
    × IsChain (extract sample 2).1
extract-take-drop_example = extract-take-drop sample 2 sample-IsChain

gets_refines_example :
    (let (line, c') = gets sample 8 0 in
      (line, contents c') ≡ read_line (105 ∷ 13 ∷ 10 ∷ 121 ∷ 111 ∷ []) 8 0)
    × IsChain (gets sample 8 0).1
gets_refines_example = gets_refines sample 8 0 sample-IsChain sample-NoStale (omega arith)
