-- ===== src/Options.antt =====
-- common/rascal_options.cc and common/rascal_get_errmsg.cc: the options and the text of an error.
pub mod Policy
use librascal.Prelude.{
  ℕ, Bool, false, Option, none, some, List, [], ◌∷◌, get_elem?, set, ◌==◌, if◌then◌else◌,
}

-- Return codes as patterns of 32 bits.
abbrev pub rec_success : ℕ
rec_success = 0

abbrev pub rec_invalid_argument : ℕ
rec_invalid_argument = 0xe000_0003

abbrev pub rec_option_readonly : ℕ
rec_option_readonly = 0xe000_000e

abbrev pub ro_thread_policy : ℕ
ro_thread_policy = 3

-- A `long int` is kept as the pattern of its bits.
pub record Setting : Type 0 where
  pub value : ℕ
  pub readonly : Bool

-- The table at the start; the value of RIP_WORKER_SINGLE is an argument.
abbrev pub start_options : ℕ → List Setting
start_options worker_single =
    record { value = 0; readonly = false }
    ∷ record { value = 2500; readonly = false }
    ∷ record { value = 4; readonly = false }
    ∷ record { value = worker_single; readonly = false }
    ∷ record { value = 5; readonly = false }
    ∷ []

-- `rascal_set_option`: the code returned, what `old_value` is set to, and the table.
unfoldable pub set_option : List Setting → ℕ → ℕ → ℕ × Option ℕ × List Setting
set_option options optid value = elim (get_elem? options optid) [
  | none ↦ (rec_invalid_argument, none, options)
  | some opt ↦ if opt.readonly then (rec_option_readonly, some opt.value, options) else (
    rec_success,
    some opt.value,
    set options optid (record { value = value; readonly = optid == ro_thread_policy }),
  )
]

-- `rascal_get_option`: the code returned, and what `value` is set to.
unfoldable pub get_option : List Setting → ℕ → ℕ × Option ℕ
get_option options optid = elim (get_elem? options optid) [
  | none ↦ (rec_invalid_argument, none)
  | some opt ↦ (rec_success, some opt.value)
]
