-- ===== src/Stock.antt =====
-- common/util/stock.h: the table that maps ids to objects.
pub mod Valid
pub mod Lookup
pub mod Adding
pub mod Removal
use Prim.Native.Nat.{bit_or, bit_xor}
use librascal.Prelude.{
  ℕ, zero, suc, ◌+◌, ◌-◌, ◌*◌, ◌/◌, ◌%◌, ◌^◌, ◌&&◌, ◌||◌, Bool, true, false, Option, none, some,
  List, [], ◌∷◌, ◌++◌, length, get_elem?, set, replicate, ◌==◌, if◌then◌else◌,
}

-- The id of an unused slot, -1 as a pattern of 32 bits.
abbrev pub no_id : ℕ
no_id = 0xffff_ffff

pub record Slot {ℓ} (A : Type ℓ) : Type ℓ where
  pub id : ℕ
  pub body : A

-- `cnt_data` is the length of `slots`; `free` is `ptr_free` with the last entry first, and
-- `cnt_free` its length.
pub record Stock {ℓ} (A : Type ℓ) : Type ℓ where
  pub slots : List (Slot A)
  pub free : List ℕ
  pub pagesize : ℕ
  pub idx_seed : ℕ
  pub rnd_seed : ℕ

-- `ptr_free[cnt_free++] = …` for the n indexes from i on.
unfoldable pub push_indexes : ℕ → ℕ → List ℕ → List ℕ
push_indexes i zero free = free
push_indexes i (suc n) free = push_indexes (suc i) n (i ∷ free)

-- `(idx_seed + 0x10000) & 0x7fff0000`
abbrev pub next_seed : ℕ → ℕ
next_seed seed = (seed + 2 ^ 16) / 2 ^ 16 % 2 ^ 15 * 2 ^ 16

module _ {ℓ} {A : Type ℓ} where
  -- `stock::stock`, which does not set `idx_seed`.
  unfoldable pub new_stock : ℕ → ℕ → Stock A
  new_stock pgsz found = record {
    slots = [];
    free = [];
    pagesize = pgsz;
    idx_seed = found;
    rnd_seed = 0;
  }

  -- `stock::size`
  unfoldable pub size : Stock A → ℕ
  size s = length s.slots - length s.free

  -- The block under `if (cnt_free == 0)`, once both arrays have grown; `found` is what the memory
  -- of a new body holds.
  unfoldable pub grow : A → Stock A → Stock A
  grow found s = record s {
    slots = s.slots ++ replicate s.pagesize (record { id = no_id; body = found });
    free = push_indexes (length s.slots) s.pagesize s.free;
  }

  -- The rest of `add`, with an unused slot at hand: the key, and the table.
  unfoldable pub occupy : A → Stock A → ℕ → List ℕ → ℕ × Stock A
  occupy obj s i rest =
      let seed = next_seed s.idx_seed in
      let key = bit_xor (bit_or seed i) s.rnd_seed in
      (
        key,
        record s {
          slots = set s.slots i (record { id = key; body = obj });
          free = rest;
          idx_seed = seed;
        },
      )

  -- The table where `add` returns -1. An array that `realloc` has taken over is gone, and its
  -- pointer dangles: `none`. In a table without slots both pointers are null, and stay so.
  unfoldable pub refuse : Bool → Bool → Stock A → Option (Stock A)
  refuse data_grows free_grows s = elim s.slots [
    | [] ↦ some s
    | slot ∷ rest ↦ if data_grows || free_grows then none else some s
  ]

  -- `stock::add`: the key, and the table unless an array is lost. The two Booleans say which
  -- `realloc` has memory. `none` as a whole is a read before the start of `ptr_free`, at a page
  -- size of 0.
  unfoldable pub add : Bool → Bool → A → A → Stock A → Option (ℕ × Option (Stock A))
  add data_grows free_grows found obj s = elim s.free [
    | i ∷ rest ↦ let out = occupy obj s i rest in some (out.0, some out.1)
    | [] ↦
        if data_grows && free_grows
        then elim (grow found s).free [
          | [] ↦ none
          | i ∷ rest ↦ let out = occupy obj (grow found s) i rest in some (out.0, some out.1)
        ]
        else some (no_id, refuse data_grows free_grows s)
  ]

  -- `ptr_data + ((idx ^ rnd_seed) & 0xffff)`
  abbrev pub place : Stock A → ℕ → ℕ
  place s idx = bit_xor idx s.rnd_seed % 2 ^ 16

  -- The slot of a key, as `get`, `remove` and `find` look for it.
  unfoldable pub find : Stock A → ℕ → Option (Slot A)
  find s idx = elim (get_elem? s.slots (place s idx)) [
    | none ↦ none
    | some slot ↦ if slot.id == idx then some slot else none
  ]

  -- `stock::get`
  unfoldable pub get : Stock A → ℕ → Option A
  get s idx = elim (find s idx) [ none ↦ none | some slot ↦ some slot.body ]

  -- `stock::remove`
  unfoldable pub remove : Stock A → ℕ → Bool × Stock A
  remove s idx = elim (find s idx) [
    | none ↦ (false, s)
    | some slot ↦ (
      true,
      record s {
        slots = set s.slots (place s idx) (record slot { id = no_id });
        free = (idx % 2 ^ 16) ∷ s.free;
      },
    )
  ]
