-- ===== src/Messages.antt =====
-- common/rascal_get_errmsg.cc, the texts of the error codes, and `get_event_name` of common/rascal.cc.
pub mod Known
use Prim.Native.String.{String}
use Prim.Native.Char.{code}
use librascal.Prelude.{
  ℕ, zero, suc, ◌+◌, ◌*◌, ◌/◌, ◌%◌, ◌^◌, Bool, true, false, ◌||◌, Option, none, some, List, [], ◌∷◌,
  get_elem?, leb, ◌==◌, if◌then◌else◌,
}
use librascal.Srv.{isok}
use librascal.Util.Copy.{strlcpy}

-- The bytes of a text in ASCII.
abbrev pub codes : String → List ℕ
codes String.[] = []
codes (String.◌∷◌ c s) = code c ∷ codes s

-- `rmsgs`
unfoldable pub rmsgs : List (ℕ × List ℕ)
rmsgs =
    (0, codes "the command completed successfully")
    ∷ (0xe0000001, codes "the function is not implemented")
    ∷ (0xe0000002, codes "invalid handle")
    ∷ (0xe0000003, codes "invalid argument")
    ∷ (0xe0000004, codes "unknown error")
    ∷ (0xe0000005, codes "the requested subsystem is unavailable")
    ∷ (0xe0000006, codes "initialization failure (asynchronous subsystem)")
    ∷ (0xe0000007, codes "initialization failure (outgoing connections)")
    ∷ (0xe0000008, codes "initialization failure (domain name resolution)")
    ∷ (0xe0000009, codes "could not spawn worker threads")
    ∷ (0xe000000a, codes "service is unavailable for the domain")
    ∷ (0xe000000b, codes "service not found (not configured)")
    ∷ (0xe000000c, codes "there is no data in the connection's incoming buffer")
    ∷ (0xe000000d, codes "nameserver unavailable")
    ∷ (0xe000000e, codes "attempting to change a read-only option")
    ∷ (0xe000000f, codes "connection timed out")
    ∷ (0xe0000010, codes "the operation was cancelled")
    ∷ (0xe0000011, codes "the specified protocol could not be used")
    ∷ []

-- The loop over `rmsgs`.
unfoldable pub find_message : ℕ → List (ℕ × List ℕ) → Option (List ℕ)
find_message rid [] = none
find_message rid ((id, msg) ∷ rest) =
    let later = find_message rid rest in if id == rid then some msg else later

-- The message chosen for a code that is not a success other than 0, if the library has one.
unfoldable pub chosen : ℕ → Option (List ℕ)
chosen id = elim (find_message id rmsgs) [
  | some msg ↦ some msg
  | none ↦
      if id / 2 ^ 29 % 8 == 7
      then some (codes "error message unavailable (bad error code)")
      else none
]

-- `if (rascal_isok(rid)) rid = REC_SUCCESS;`
abbrev pub message_of : ℕ → Option (List ℕ)
message_of rid = chosen (if isok rid then 0 else rid)

-- `get_os_errmsg`, where `strerror_r` gives the text that it writes to a buffer of a size, or fails.
unfoldable pub get_os_errmsg : (ℕ → ℕ → Option (List ℕ)) → ℕ → ℕ → List ℕ
get_os_errmsg strerror_r rid size = elim (strerror_r (rid % 2 ^ 31) size) [
  | none ↦ []
  | some text ↦ text
]

-- What becomes of the buffer: nothing, a text, or a write before it.
pub data Told : Type 0 where
  untouched : Told
  text : List ℕ → Told
  fault : Told

-- `rascal_get_errmsg`; its loop and the zero byte are as in `strlcpy`.
unfoldable pub rascal_get_errmsg : (ℕ → ℕ → Option (List ℕ)) → ℕ → ℕ → Told
rascal_get_errmsg strerror_r rid zero = untouched
rascal_get_errmsg strerror_r rid (suc size) = elim (message_of rid) [
  | none ↦ text (get_os_errmsg strerror_r rid (suc size))
  | some msg ↦ elim (strlcpy msg (suc size)) [ none ↦ fault | some out ↦ text out ]
]

-- `get_event_name`, for an int as its pattern of bits: a negative one is 2 ^ 31 or more, behind the
-- names too.
unfoldable pub get_event_name : ℕ → List ℕ
get_event_name id =
    elim (get_elem?
      (codes "rop_accept"
        ∷ codes "rop_close"
        ∷ codes "rop_connect"
        ∷ codes "rop_read"
        ∷ codes "rop_write"
        ∷ [])
      id) [ none ↦ codes "rop_BADID" | some name ↦ name ]
