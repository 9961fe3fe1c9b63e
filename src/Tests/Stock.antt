-- ===== src/Tests/Stock.antt =====
-- Runs of the table of ids, and its theorems there.
use librascal.Prelude.{ℕ, some, [], ◌∷◌, ◌≡◌, refl, arith}
use librascal.Stock.{Slot, Stock, get, no_id}
use librascal.Stock.Valid.{IsStock}
use librascal.Stock.Removal.{Removed, get-remove}
use librascal.Stock as Stock

-- A table of two slots, of which the second holds 7 under the key 0x30001.
abbrev sample : Stock ℕ
sample = record {
  slots = record { id = no_id; body = 0 } ∷ record { id = 0x3_0001; body = 7 } ∷ [];
  free = 0 ∷ [];
  pagesize = 2;
  idx_seed = 0x3_0000;
  rnd_seed = 0;
}

sample-IsStock : IsStock sample
sample-IsStock = record {
  plain = refl;
  paged = omega arith;
  small = omega arith;
  unused = ((record { id = no_id; body = 0 }, refl, refl), tt);
  distinct = (tt, tt);
}

get_test : get sample 0x3_0001 ≡ some 7
unfolding get Stock.find
get_test = refl

get-remove_example : Removed sample 0x3_0001 0x4_0000 (Stock.remove sample 0x3_0001)
get-remove_example = get-remove sample 0x3_0001 0x4_0000 sample-IsStock (omega arith) (omega arith)
