-- ===== src/Chain/Read.antt =====
-- `peek`, `remove` and `extract` against the bytes that the chain holds.
use librascal.Prelude.{
  ℕ, zero, suc, ◌+◌, ◌-◌, ◌%◌, ◌^◌, ◌<◌, ◌≡◌, refl, ap, ap₂, sym, ◌∙◌, min, some, List, [], ◌∷◌,
  ◌++◌, length, take, drop, All, take-append, drop-append, take_nil, drop_nil, length-append,
  Bool-cases, inl, inr, ◌==◌, arith,
}
use librascal.Chain.{
  DataChain, peek_items, peek, pop_head, mark_dead, trim, remove, extract, size_from, get_size,
}
use librascal.Chain.Item.{DataChainItem, IsItem, slice, live, slice-take, slice-drop, length-slice}
use librascal.Chain.Valid.{IsChain, live_bytes, contents, last_place}

peek_items-take :
    (items : List DataChainItem) (size : ℕ) → peek_items items size ≡ take size (live_bytes items)
unfolding peek_items
peek_items-take [] size = sym (take_nil size)
peek_items-take (it ∷ items) size =
    let n = it.used - it.dead in
    let e : size - min n size ≡ size - length (live it) =
      omega (arith, length-slice it.bytes it.dead n) in
    ap₂ ◌++◌ (slice-take it.bytes it.dead n size)
      (ap (peek_items items) e ∙ peek_items-take items (size - length (live it)))
    ∙ sym (take-append size (live it) (live_bytes items))

-- `peek` copies the first `size` bytes, or all if there are fewer.
pub peek-take : (c : DataChain) (size : ℕ) → peek c size ≡ take size (contents c)
unfolding peek
peek-take c size = peek_items-take c.items size

pub drop_taken {ℓ} : {A : Type ℓ} (n : ℕ) (xs : List A) → drop (length (take n xs)) xs ≡ drop n xs
drop_taken zero xs = refl
drop_taken (suc n) [] = refl
drop_taken (suc n) (x ∷ xs) = drop_taken n xs

-- Marking keeps the items sound, keeps their number, and drops the first bytes.
pub record Marked (items : List DataChainItem) (size : ℕ) (out : List DataChainItem) : Type 0 where
  pub sound : All IsItem out
  pub count : length out ≡ length items
  pub bytes : live_bytes out ≡ drop size (live_bytes items)

pub mark_dead-Marked :
    (items : List DataChainItem) (size : ℕ)
    → All IsItem items
    → Marked items size (mark_dead items size)
unfolding mark_dead
mark_dead-Marked [] size v = record { sound = tt; count = refl; bytes = sym (drop_nil size) }
mark_dead-Marked (it ∷ items) size v = elim (Bool-cases (size == 0)) [
  | inl z ↦
      let e : size ≡ 0 = ground arith in
      rw (e, mark_dead) (record { sound = v; count = refl; bytes = refl })
  | inr nz ↦
      let n = it.used - it.dead in
      let sub = min size n in
      let r = mark_dead-Marked items (size - sub) v.1 in
      let d : size - sub ≡ size - length (live it) =
        omega (arith, length-slice it.bytes it.dead n) in
      let m : it.used - (it.dead + sub) ≡ n - sub = omega arith in
      rw nz (record {
        sound = (omega (arith, v.0.dead_in, v.0.used_in), r.sound);
        count = ap suc r.count;
        bytes =
            ap₂ ◌++◌ (ap (slice it.bytes (it.dead + sub)) m ∙ slice-drop it.bytes it.dead n size)
              (r.bytes ∙ ap (λ k. drop k (live_bytes items)) d)
            ∙ sym (drop-append size (live it) (live_bytes items));
      })
]

pub tail-pop_head :
    (it : DataChainItem) (items : List DataChainItem)
    → (pop_head (record { items = it ∷ items; tail = some (length items) }) items).tail
      ≡ last_place items
tail-pop_head it [] = refl
tail-pop_head it (x ∷ items) = refl

pub live-exhausted : (it : DataChainItem) → it.used ≡ it.dead → live it ≡ []
live-exhausted it e = let z : it.used - it.dead ≡ 0 = omega arith in rw z

-- The first item, if there is one, has a byte to read.
abbrev pub HeadLive : List DataChainItem → Type 0
HeadLive [] = Unit
HeadLive (it ∷ items) = it.dead < it.used

trim-IsChain :
    (items : List DataChainItem)
    → All IsItem items
    → IsChain (trim items (last_place items))
      × (contents (trim items (last_place items)) ≡ live_bytes items)
      × HeadLive (trim items (last_place items)).items
unfolding trim
trim-IsChain [] v = (record { tail_last = refl; marks = tt }, refl, tt)
trim-IsChain (it ∷ items) v = elim (Bool-cases (it.used == it.dead)) [
  | inl z ↦
      let e : it.used ≡ it.dead = ground arith in
      rw (z, tail-pop_head it items, live-exhausted it e) (trim-IsChain items v.1)
  | inr nz ↦ rw nz (record { tail_last = refl; marks = v }, refl, ground (arith, v.0.dead_in))
]

pub last_place-length :
    (xs ys : List DataChainItem) → length xs ≡ length ys → last_place xs ≡ last_place ys
last_place-length [] [] e = refl
last_place-length [] (y ∷ ys) e = absurd (omega arith)
last_place-length (x ∷ xs) [] e = absurd (omega arith)
last_place-length (x ∷ xs) (y ∷ ys) e = let d : length xs ≡ length ys = omega arith in ap some d

-- `remove` keeps a chain valid, takes the first `size` bytes off (all, if there are fewer), and
-- leaves no exhausted item at the head.
pub remove-drop :
    (c : DataChain) (size : ℕ)
    → IsChain c
    → IsChain (remove c size)
      × (contents (remove c size) ≡ drop size (contents c))
      × HeadLive (remove c size).items
unfolding remove
remove-drop c size v =
    let m = mark_dead-Marked c.items size v.marks in
    let t = trim-IsChain (mark_dead c.items size) m.sound in
    let e : c.tail ≡ last_place (mark_dead c.items size) =
      v.tail_last ∙ last_place-length c.items (mark_dead c.items size) (sym m.count) in
    rw e (t.0, t.1 ∙ m.bytes, t.2)

-- `extract` returns the first `size` bytes and leaves the others, in a valid chain.
pub extract-take-drop :
    (c : DataChain) (size : ℕ)
    → IsChain c
    → ((extract c size).0 ≡ take size (contents c))
      × (contents (extract c size).1 ≡ drop size (contents c))
      × IsChain (extract c size).1
unfolding extract
extract-take-drop c size v =
    let e = peek-take c size in
    let r = remove-drop c (length (peek c size)) v in
    (e, r.1 ∙ ap (λ xs. drop (length xs) (contents c)) e ∙ drop_taken size (contents c), r.0)

size_from-length :
    (items : List DataChainItem) (count : ℕ)
    → count + length (live_bytes items) < 2 ^ 32
    → size_from count items ≡ count + length (live_bytes items)
unfolding size_from
size_from-length [] count h = omega arith
size_from-length (it ∷ items) count h =
    let n = it.used - it.dead in
    let l = length-slice it.bytes it.dead n in
    let a = length-append (live it) (live_bytes items) in
    let e : (count + n) % 2 ^ 32 ≡ count + n = omega (arith, l, a) in
    rw e (omega (arith, size_from-length items (count + n), l, a))

-- Below 2^32 bytes `get_size` is the number of bytes held.
pub get_size-length :
    (c : DataChain) → length (contents c) < 2 ^ 32 → get_size c ≡ length (contents c)
unfolding get_size
get_size-length c h = size_from-length c.items 0 (omega arith) ∙ omega arith
