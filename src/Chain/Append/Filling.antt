-- ===== src/Chain/Append/Filling.antt =====
-- The inner loop of `append`, which fills an item.
use librascal.Prelude.{
  ℕ, suc, ◌+◌, ◌-◌, ◌≤◌, ◌<◌, ◌≡◌, refl, ap, ap₂, sym, append-nil, ◌∙◌, inl, inr, List, [], ◌∷◌,
  ◌++◌, length, Bool-cases, append_assoc, arith, ◌==◌,
}
use librascal.Chain.{copy_in}
use librascal.Chain.Item.{
  DataChainItem, IsItem, capacity, update, slice, live, slice-snoc, slice-update,
}

abbrev put_byte : DataChainItem → ℕ → DataChainItem
put_byte it b = record it { bytes = update it.bytes it.used b; used = it.used + 1 }

put_byte-live : (it : DataChainItem) (b : ℕ) → IsItem it → live (put_byte it b) ≡ live it ++ b ∷ []
put_byte-live it b v =
    let n = it.used - it.dead in
    let f = update it.bytes it.used b in
    let e : it.used + 1 - it.dead ≡ suc n = omega arith in
    let d : it.dead + n ≡ it.used = omega arith in
    let w : f it.used ≡ b = ground arith in
    ap (slice f it.dead) e
    ∙ slice-snoc f it.dead n
    ∙ ap₂ (λ xs y. xs ++ y ∷ []) (slice-update it.bytes it.dead n it.used b (omega arith))
        (ap f d ∙ w)

-- What the inner loop leaves: a sound item that has grown by a first part of the bytes, and the rest.
pub record Copied (it : DataChainItem) (src : List ℕ) (out : DataChainItem × List ℕ) : Type 0 where
  pub sound : IsItem out.0
  pub taken : List ℕ
  pub split : taken ++ out.1 ≡ src
  pub grows : live out.0 ≡ live it ++ taken
  pub shrinks : length out.1 ≤ length src

pub copy_in-Copied :
    (it : DataChainItem) (src : List ℕ) → IsItem it → Copied it src (copy_in it src)
unfolding copy_in
copy_in-Copied it [] v = record {
  sound = v;
  taken = [];
  split = refl;
  grows = sym (append-nil _);
  shrinks = omega arith;
}
copy_in-Copied it (b ∷ src) v = elim (Bool-cases (it.used == capacity)) [
  | inl full ↦ rw full (record {
    sound = v;
    taken = [];
    split = refl;
    grows = sym (append-nil _);
    shrinks = omega arith;
  })
  | inr room ↦
      let s : IsItem (put_byte it b) = ground arith in
      let r = copy_in-Copied (put_byte it b) src s in
      rw room (record {
        sound = r.sound;
        taken = b ∷ r.taken;
        split = ap (λ xs. b ∷ xs) r.split;
        grows =
            r.grows
            ∙ ap (λ xs. xs ++ r.taken) (put_byte-live it b v)
            ∙ append_assoc (live it) (b ∷ []) r.taken;
        shrinks = omega (arith, r.shrinks);
      })
]

pub copy_in-progress :
    (it : DataChainItem) (b : ℕ) (src : List ℕ)
    → IsItem it
    → it.used < capacity
    → length (copy_in it (b ∷ src)).1 ≤ length src
unfolding copy_in
copy_in-progress it b src v h =
    let s : IsItem (put_byte it b) = ground arith in
    let r = copy_in-Copied (put_byte it b) src s in ground (arith, r.shrinks)
