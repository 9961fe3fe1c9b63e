-- ===== src/Object.antt =====
-- common/object.h, common/object.cc, common/rascal_cancel.cc and common/rascal_wait.cc: objects with
-- reference counts, found by their ids.
pub mod Lifetime
use librascal.Prelude.{
  ℕ, zero, suc, ◌+◌, ◌-◌, ◌%◌, ◌^◌, Bool, true, false, ◌&&◌, not, Option, none, some, List, [], ◌∷◌,
  ◌==◌, if◌then◌else◌,
}
use librascal.Stock.{Slot, Stock, no_id}
use librascal.Stock as Stock

-- An object's own members; `type` stands for the address of its class's name.
pub record Object : Type 0 where
  pub refc : ℕ
  pub cancelled : Bool
  pub id : ℕ
  pub type : ℕ

-- The constructor, with the id that `stock::add` gave.
abbrev pub new_object : ℕ → ℕ → Object
new_object id type = record { refc = 0; cancelled = false; id = id; type = type }

-- `object::incref`
abbrev pub incref : Object → Object
incref o = record o { refc = (o.refc + 1) % 2 ^ 32 }

-- The `--refc` of `object::decref`, and its `signal` and `killme`.
abbrev pub less_one : Object → Object
less_one o = record o { refc = (o.refc + (2 ^ 32 - 1)) % 2 ^ 32 }

abbrev pub signals : Object → Bool
signals o = ((less_one o).refc == 1) && o.cancelled

abbrev pub kills : Object → Bool
kills o = ((less_one o).refc == 0) && o.cancelled

-- `object::decref`: whether it wakes the waiters, and the object unless it is deleted.
unfoldable pub decref : Object → Bool × Option Object
decref o = (signals o, if kills o then none else some (less_one o))

-- `object::cancel`
abbrev pub cancel : Object → Object
cancel o = record o { cancelled = true }

-- The test under which `object::wait` returns.
abbrev pub wait_over : Object → Bool
wait_over o = (o.refc == 1) && o.cancelled

-- `object::list`: the loop over the slots, with the room left in `arr`; `accepts` is the filter.
unfoldable pub list_objects {ℓ} : {A : Type ℓ} → (A → Bool) → ℕ → List (Slot A) → List A
list_objects accepts size [] = []
list_objects accepts zero (slot ∷ slots) = []
list_objects accepts (suc size) (slot ∷ slots) =
    let taken = list_objects accepts size slots in
    let skipped = list_objects accepts (suc size) slots in
    if not (slot.id == no_id) && accepts slot.body then slot.body ∷ taken else skipped

-- `get_class_ot()` of `object` itself.
abbrev pub any_type : ℕ
any_type = 0

-- The heap: an object by its address, none once it is deleted.
abbrev pub Heap : Type 0
Heap = ℕ → Option Object

abbrev pub put : Heap → ℕ → Option Object → Heap
put heap at o addr = if addr == at then o else heap addr

-- What a `pobject` holds: NULL, or the address of an object. `fault` is an access to a deleted one.
pub data Lookup : Type 0 where
  missing : Lookup
  held : (at : ℕ) → Heap → Lookup
  fault : Lookup

-- `object::_lookup`
unfoldable pub lookup : Stock ℕ → Heap → ℕ → ℕ → Lookup
lookup s heap id type = elim (Stock.get s id) [
  | none ↦ missing
  | some at ↦ elim (heap at) [
    | none ↦ fault
    | some o ↦
        if not (type == any_type) && not (o.type == type)
        then missing
        else held at (put heap at (some (incref o)))
  ]
]

-- `object::_release` of an object held: whether it wakes the waiters, the table and the heap; none
-- at a deleted one. A deletion removes the id.
unfoldable pub release : Stock ℕ → Heap → ℕ → Option (Bool × Stock ℕ × Heap)
release s heap at = elim (heap at) [
  | none ↦ none
  | some o ↦
      some (signals o, (if kills o then (Stock.remove s o.id).1 else s), put heap at (decref o).1)
]

abbrev pub rec_invalid_handle : ℕ
rec_invalid_handle = 0xe000_0002

-- `rascal_cancel`, for an object whose class does not override `cancel`: the code returned, the
-- table and the heap; none at a deleted object.
unfoldable pub rascal_cancel : Stock ℕ → Heap → ℕ → Option (ℕ × Stock ℕ × Heap)
rascal_cancel s heap rid = elim (lookup s heap rid any_type) [
  | missing ↦ some (rec_invalid_handle, s, heap)
  | fault ↦ none
  | held at heap' ↦ elim (heap' at) [
    | none ↦ none
    | some o ↦ elim (release s (put heap' at (some (cancel o))) at) [
      | none ↦ none
      | some (woken, s', heap'') ↦ some (0, s', heap'')
    ]
  ]
]
