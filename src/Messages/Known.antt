-- ===== src/Messages/Known.antt =====
-- Which codes have a text of the library, and which go to the system.
use librascal.Prelude.{
  ℕ, suc, ◌/◌, ◌%◌, ◌^◌, ◌≤◌, ◌<◌, ◌≡◌, ◌≢◌, refl, sym, ap, ◌∙◌, Bool, true, false, ◌||◌, Option,
  none, some, List, [], ◌∷◌, All, take, leb, ltb, ◌==◌, if◌then◌else◌, if_true, if_false, arith,
  Bool-cases, inl, inr, ◌⊎◌,
}
use librascal.Srv.{isok}
use librascal.Util.Copy.{strlcpy}
use librascal.Util.Copy.Bounds.{copies-take}
use librascal.Messages.{
  codes, rmsgs, find_message, chosen, message_of, get_os_errmsg, text, fault, rascal_get_errmsg,
}

-- The codes of the table: success, and those with the three highest bits set.
abbrev IsOwn : ℕ × List ℕ → Type 0
IsOwn row = leb 0xe000_0000 row.0 || (row.0 == 0) ≡ true

rmsgs-IsOwn : All IsOwn rmsgs
unfolding rmsgs
rmsgs-IsOwn = (
  refl,
  (
    refl,
    (
      refl,
      (
        refl,
        (
          refl,
          (
            refl,
            (
              refl,
              (
                refl,
                (refl, (refl, (refl, (refl, (refl, (refl, (refl, (refl, (refl, (refl, tt)))))))))),
              ),
            ),
          ),
        ),
      ),
    ),
  ),
)

find_message-absent :
    (rid : ℕ) (rows : List (ℕ × List ℕ))
    → All IsOwn rows
    → 0 < rid
    → rid < 0xe000_0000
    → find_message rid rows ≡ none
unfolding find_message
find_message-absent rid [] a h k = refl
find_message-absent rid ((id, msg) ∷ rows) (o, a) h k =
    if_false (id == rid) (some msg) (find_message rid rows) (differs id o)
    ∙ find_message-absent rid rows a h k
  where
    differs : (m : ℕ) → (leb 0xe000_0000 m || (m == 0)) ≡ true → (m == rid) ≡ false
    differs m o = ground arith

success_chosen : (msg : List ℕ) × (chosen 0 ≡ some msg)
unfolding chosen find_message rmsgs
success_chosen = (_, refl)

chosen-none : (id : ℕ) → chosen id ≡ none → (id / 2 ^ 29 % 8 == 7) ≡ false
unfolding chosen
chosen-none id e = go (find_message id rmsgs) (id / 2 ^ 29 % 8 == 7) e
  where
    go :
        (found : Option (List ℕ)) (bad : Bool)
        → (elim found [
          | some msg ↦ some msg
          | none ↦ if bad then some (codes "error message unavailable (bad error code)") else none
        ])
          ≡ none
        → bad ≡ false
    go none true e = absurd cc
    go none false e = refl
    go (some msg) bad e = absurd cc

-- A code without a message has the highest bit set, and not the two behind it both.
message_of-none :
    (rid : ℕ) → rid < 2 ^ 32 → message_of rid ≡ none → (2 ^ 31 ≤ rid) × (rid < 0xe000_0000)
message_of-none rid h e = elim (Bool-cases (isok rid)) [
  | inl k ↦
      let (msg, q) = success_chosen in
      let p : chosen 0 ≡ none = ap chosen (sym (if_true (isok rid) 0 rid k)) ∙ e in
      absurd (clash msg (sym q ∙ p))
  | inr k ↦
      let p : chosen rid ≡ none = ap chosen (sym (if_false (isok rid) 0 rid k)) ∙ e in
      (high rid h k, low rid h k (chosen-none rid p))
]
  where
    clash : (msg : List ℕ) → some msg ≢ none
    clash msg = λ e. cc

    high : (n : ℕ) → n < 2 ^ 32 → (n / 2 ^ 31 % 2 == 0) ≡ false → 2 ^ 31 ≤ n
    high n h k = ground arith

    low :
        (n : ℕ)
        → n < 2 ^ 32
        → (n / 2 ^ 31 % 2 == 0) ≡ false
        → (n / 2 ^ 29 % 8 == 7) ≡ false
        → n < 0xe000_0000
    low n h k q = ground arith

-- An error of the system has no message.
message_of_system : (rid : ℕ) → 2 ^ 31 ≤ rid → rid < 0xe000_0000 → message_of rid ≡ none
unfolding chosen
message_of_system rid h k =
    ap chosen (if_false (isok rid) 0 rid (not_ok rid h k))
    ∙ go (find_message rid rmsgs) (rid / 2 ^ 29 % 8 == 7)
        (find_message-absent rid rmsgs rmsgs-IsOwn (omega arith) k) (not_bad rid k)
  where
    not_ok : (n : ℕ) → 2 ^ 31 ≤ n → n < 0xe000_0000 → (n / 2 ^ 31 % 2 == 0) ≡ false
    not_ok n h k = ground arith

    not_bad : (n : ℕ) → n < 0xe000_0000 → (n / 2 ^ 29 % 8 == 7) ≡ false
    not_bad n k = ground arith

    go :
        (found : Option (List ℕ)) (bad : Bool)
        → found ≡ none
        → bad ≡ false
        → (elim found [
          | some msg ↦ some msg
          | none ↦ if bad then some (codes "error message unavailable (bad error code)") else none
        ])
          ≡ none
    go none true e f = absurd cc
    go none false e f = refl
    go (some msg) bad e f = absurd cc

told_system :
    (strerror_r : ℕ → ℕ → Option (List ℕ)) (rid size : ℕ)
    → message_of rid ≡ none
    → rascal_get_errmsg strerror_r rid (suc size) ≡ text (get_os_errmsg strerror_r rid (suc size))
unfolding rascal_get_errmsg
told_system strerror_r rid size e =
    ap
      (λ (o : Option (List ℕ)). elim o [
        | none ↦ text (get_os_errmsg strerror_r rid (suc size))
        | some msg ↦ elim (strlcpy msg (suc size)) [ none ↦ fault | some out ↦ text out ]
      ])
      e

told_own :
    (strerror_r : ℕ → ℕ → Option (List ℕ)) (rid size : ℕ) (msg : List ℕ)
    → message_of rid ≡ some msg
    → rascal_get_errmsg strerror_r rid (suc size) ≡ text (take size msg)
unfolding rascal_get_errmsg
told_own strerror_r rid size msg e =
    ap
      (λ (o : Option (List ℕ)). elim o [
        | none ↦ text (get_os_errmsg strerror_r rid (suc size))
        | some msg ↦ elim (strlcpy msg (suc size)) [ none ↦ fault | some out ↦ text out ]
      ])
      e
    ∙ ap (λ (o : Option (List ℕ)). elim o [ none ↦ fault | some out ↦ text out ])
        (copies-take msg [] size).0

-- A code of 32 bits, into a buffer of size + 1 bytes: it is an error of the system, with the highest
-- bit set but not all three highest, and `rascal_get_errmsg` gives what `strerror_r` makes of its
-- other bits; or it is no such code and has a message of the library, of which the buffer gets the
-- first size bytes.
pub rascal_get_errmsg-Told :
    (strerror_r : ℕ → ℕ → Option (List ℕ)) (rid size : ℕ)
    → rid < 2 ^ 32
    → ((2 ^ 31 ≤ rid)
        × (rid < 0xe000_0000)
        × (rascal_get_errmsg strerror_r rid (suc size)
            ≡ text (get_os_errmsg strerror_r rid (suc size))))
      ⊎ (((rid < 2 ^ 31) ⊎ (0xe000_0000 ≤ rid))
          × ((msg : List ℕ) × (message_of rid ≡ some msg)
              × (rascal_get_errmsg strerror_r rid (suc size) ≡ text (take size msg))))
rascal_get_errmsg-Told strerror_r rid size h = go (message_of rid) refl
  where
    clash : (msg : List ℕ) → some msg ≢ none
    clash msg = λ e. cc

    ends : (n : ℕ) → (ltb n (2 ^ 31) || leb 0xe000_0000 n) ≡ true → (n < 2 ^ 31) ⊎ (0xe000_0000 ≤ n)
    ends n k = ground arith

    above : (n : ℕ) → (ltb n (2 ^ 31) || leb 0xe000_0000 n) ≡ false → 2 ^ 31 ≤ n
    above n k = ground arith

    below : (n : ℕ) → (ltb n (2 ^ 31) || leb 0xe000_0000 n) ≡ false → n < 0xe000_0000
    below n k = ground arith

    outside : (msg : List ℕ) → message_of rid ≡ some msg → (rid < 2 ^ 31) ⊎ (0xe000_0000 ≤ rid)
    outside msg e = elim (Bool-cases (ltb rid (2 ^ 31) || leb 0xe000_0000 rid)) [
      | inl k ↦ ends rid k
      | inr k ↦ absurd (clash msg (sym e ∙ message_of_system rid (above rid k) (below rid k)))
    ]

    go :
        (o : Option (List ℕ))
        → message_of rid ≡ o
        → ((2 ^ 31 ≤ rid)
            × (rid < 0xe000_0000)
            × (rascal_get_errmsg strerror_r rid (suc size)
                ≡ text (get_os_errmsg strerror_r rid (suc size))))
          ⊎ (((rid < 2 ^ 31) ⊎ (0xe000_0000 ≤ rid))
              × ((msg : List ℕ) × (message_of rid ≡ some msg)
                  × (rascal_get_errmsg strerror_r rid (suc size) ≡ text (take size msg))))
    go none e =
        let (p, q) = message_of-none rid h e in inl (p, q, told_system strerror_r rid size e)
    go (some msg) e = inr (outside msg e, (msg, e, told_own strerror_r rid size msg e))
