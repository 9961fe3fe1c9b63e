-- ===== src/Util/Ftspec/Sums.antt =====
-- Time stamps as numbers of milliseconds.
use librascal.Prelude.{
  ℕ, ◌+◌, ◌-◌, ◌*◌, ◌%◌, ◌^◌, ◌≤◌, ◌<◌, ◌≡◌, ltb, leb, arith, Bool-cases, inl, inr,
}
use librascal.Util.Ftspec.{Ftspec, add, sub, before}

-- The milliseconds that a time stamp stands for, without a bound.
abbrev pub value : Ftspec → ℕ
value a = a.sec * 1000 + a.msec

-- Fields as the constructor from milliseconds makes them.
pub record IsNormal (a : Ftspec) : Type 0 where
  pub below : a.msec < 1000
  pub word : a.sec < 2 ^ 32

sums :
    (a b : Ftspec)
    → a.msec < 1000
    → b.msec < 1000
    → a.sec + b.sec + 1 < 2 ^ 32
    → (value (add a b) ≡ value a + value b) × IsNormal (add a b)
unfolding add
sums a b p q h =
    let s : (a.sec + b.sec) % 2 ^ 32 ≡ a.sec + b.sec = omega arith in
    let m : (a.msec + b.msec) % 2 ^ 32 ≡ a.msec + b.msec = omega arith in
    elim (Bool-cases (leb 1000 (a.msec + b.msec))) [
      | inl e ↦
          rw (s, m, add) (rw e (ground arith, record { below = ground arith; word = ground arith }))
      | inr e ↦
          rw (s, m, add) (rw e (ground arith, record { below = ground arith; word = ground arith }))
    ]

differences :
    (a b : Ftspec)
    → a.msec < 1000
    → b.msec < 1000
    → a.sec < 2 ^ 32
    → b.sec < 2 ^ 32
    → value b ≤ value a
    → (value (sub a b) ≡ value a - value b) × IsNormal (sub a b)
unfolding sub
differences a b p q n k d = elim (Bool-cases (ltb a.msec b.msec)) [
  | inl e ↦ rw e (ground arith, record { below = ground arith; word = ground arith })
  | inr e ↦ rw e (ground arith, record { below = ground arith; word = ground arith })
]

orders : (a b : Ftspec) → a.msec < 1000 → b.msec < 1000 → before a b ≡ ltb (value a) (value b)
unfolding before
orders a b p q = ground arith

-- At normal time stamps `+=` adds and `-=` subtracts the milliseconds that they stand for, as long
-- as the seconds fit into 32 bits and the difference is not negative, and the results are normal;
-- `<` compares those milliseconds.
pub arithmetic-value :
    (a b : Ftspec)
    → IsNormal a
    → IsNormal b
    → a.sec + b.sec + 1 < 2 ^ 32
    → value b ≤ value a
    → ((value (add a b) ≡ value a + value b) × IsNormal (add a b))
      × ((value (sub a b) ≡ value a - value b) × IsNormal (sub a b))
      × (before a b ≡ ltb (value a) (value b))
arithmetic-value a b n k h d = (
  sums a b n.below k.below h,
  differences a b n.below k.below n.word k.word d,
  orders a b n.below k.below,
)
