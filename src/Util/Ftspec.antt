-- ===== src/Util/Ftspec.antt =====
-- common/util/ftspec.cc: time stamps of seconds and milliseconds, two unsigned numbers of 32 bits.
pub mod Sums
use librascal.Prelude.{
  ℕ, ◌+◌, ◌-◌, ◌*◌, ◌/◌, ◌%◌, ◌^◌, Bool, true, false, ◌&&◌, ltb, leb, ◌==◌, if◌then◌else◌,
}

pub record Ftspec : Type 0 where
  pub sec : ℕ
  pub msec : ℕ

-- `operator += (const ftspec &)`
unfoldable pub add : Ftspec → Ftspec → Ftspec
add a src =
    let sec = (a.sec + src.sec) % 2 ^ 32 in
    let msec = (a.msec + src.msec) % 2 ^ 32 in
    if leb 1000 msec
    then record { sec = (sec + msec / 1000) % 2 ^ 32; msec = msec % 1000 }
    else record { sec = sec; msec = msec }

-- `operator -= (const ftspec &)`
unfoldable pub sub : Ftspec → Ftspec → Ftspec
sub a src =
    let sec = (a.sec + 2 ^ 32 - src.sec) % 2 ^ 32 in
    if ltb a.msec src.msec
    then record {
      sec = (sec + 2 ^ 32 - 1) % 2 ^ 32;
      msec = ((a.msec + 1000) % 2 ^ 32 + 2 ^ 32 - src.msec) % 2 ^ 32;
    }
    else record { sec = sec; msec = a.msec - src.msec }

-- `operator <` and `operator >`
unfoldable pub before : Ftspec → Ftspec → Bool
before a src =
    if ltb a.sec src.sec
    then true
    else (if (a.sec == src.sec) && ltb a.msec src.msec then true else false)

unfoldable pub after : Ftspec → Ftspec → Bool
after a src =
    if ltb src.sec a.sec
    then true
    else (if (a.sec == src.sec) && ltb src.msec a.msec then true else false)

-- `operator = (unsigned int)`
abbrev pub of_msec : ℕ → Ftspec
of_msec msec = record { sec = msec / 1000; msec = msec % 1000 }

-- The constructor of a number of milliseconds, which takes the clock's time `now` for ~0.
unfoldable pub new_ftspec : Ftspec → ℕ → Ftspec
new_ftspec now msec = if msec == 0xffff_ffff then now else of_msec msec

-- `operator + (unsigned int)`, which makes a time stamp of the number.
unfoldable pub add_msec : Ftspec → Ftspec → ℕ → Ftspec
add_msec now a msec = add a (new_ftspec now msec)

unfoldable pub mseconds : Ftspec → ℕ
mseconds a = (a.sec * 1000 + a.msec) % 2 ^ 32
