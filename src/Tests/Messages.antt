-- ===== src/Tests/Messages.antt =====
-- Texts of codes, and the theorem on them there.
use librascal.Prelude.{ℕ, ◌^◌, ◌≤◌, ◌<◌, ◌≡◌, refl, Option, none, some, List, take, arith, ◌⊎◌}
use librascal.Messages.{
  codes, rmsgs, find_message, chosen, message_of, get_os_errmsg, text, rascal_get_errmsg,
  get_event_name,
}
use librascal.Messages.Known.{rascal_get_errmsg-Told}

abbrev no_text : ℕ → ℕ → Option (List ℕ)
no_text errno size = none

rascal_get_errmsg-Told_example :
    ((2 ^ 31 ≤ 0xe000_000f)
      × (0xe000_000f < 0xe000_0000)
      × (rascal_get_errmsg no_text 0xe000_000f 11 ≡ text (get_os_errmsg no_text 0xe000_000f 11)))
    ⊎ (((0xe000_000f < 2 ^ 31) ⊎ (0xe000_0000 ≤ 0xe000_000f))
        × ((msg : List ℕ) × (message_of 0xe000_000f ≡ some msg)
            × (rascal_get_errmsg no_text 0xe000_000f 11 ≡ text (take 10 msg))))
rascal_get_errmsg-Told_example = rascal_get_errmsg-Told no_text 0xe000_000f 10 (omega arith)

timed_out : message_of 0xe000_000f ≡ some (codes "connection timed out")
unfolding chosen find_message rmsgs
timed_out = refl

-- The event rop_listen has the number 5, behind the names.
listen_name : get_event_name 5 ≡ codes "rop_BADID"
unfolding get_event_name
listen_name = refl
