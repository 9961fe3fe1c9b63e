-- ===== src/Socket/Same.antt =====
-- When `==` holds of two `sock_t`, and what comes back from the form for the system.
use librascal.Prelude.{
  ℕ, zero, suc, ◌^◌, ◌≤◌, ◌<◌, ◌≡◌, refl, sym, ap, ap₂, ◌∙◌, ◌↔◌, Bool, true, false, ◌&&◌, not,
  List, [], ◌∷◌, take, drop, get_or, length, ◌==◌, ==_iff, if◌then◌else◌, arith,
}
use librascal.Address.{Addr}
use librascal.Socket.{Sock, put, get, same_bytes, same_sock}

==-refl : (n : ℕ) → (n == n) ≡ true
==-refl n = ground arith

and_both : (a b : Bool) → (a && b) ≡ true → (a ≡ true) × (b ≡ true)
and_both true b e = (refl, e)
and_both false b e = absurd cc

same_bytes_refl : (n : ℕ) (xs : List ℕ) → same_bytes n xs xs ≡ true
unfolding same_bytes
same_bytes_refl zero xs = refl
same_bytes_refl (suc n) xs =
    ap₂ (λ a b. a && b) (==-refl (get_or xs 0 0)) (same_bytes_refl n (drop 1 xs))

same_bytes-take :
    (n : ℕ) (xs ys : List ℕ)
    → n ≤ length xs
    → n ≤ length ys
    → same_bytes n xs ys ≡ true
    → take n xs ≡ take n ys
unfolding same_bytes
same_bytes-take zero xs ys h k e = refl
same_bytes-take (suc n) [] ys h k e = absurd (omega arith)
same_bytes-take (suc n) (x ∷ xs) [] h k e = absurd (omega arith)
same_bytes-take (suc n) (x ∷ xs) (y ∷ ys) h k e =
    let (p, q) = and_both (x == y) (same_bytes n xs ys) e in
    ap₂ (λ a l. a ∷ l) ((==_iff x y).0 p) (same_bytes-take n xs ys (omega arith) (omega arith) q)

take-same_bytes :
    (n : ℕ) (xs ys : List ℕ)
    → n ≤ length xs
    → n ≤ length ys
    → take n xs ≡ take n ys
    → same_bytes n xs ys ≡ true
unfolding same_bytes
take-same_bytes zero xs ys h k e = refl
take-same_bytes (suc n) [] ys h k e = absurd (omega arith)
take-same_bytes (suc n) (x ∷ xs) [] h k e = absurd (omega arith)
take-same_bytes (suc n) (x ∷ xs) (y ∷ ys) h k e =
    ap₂ (λ a b. a && b) ((==_iff x y).1 (ap (λ l. get_or l 0 0) e))
      (take-same_bytes n xs ys (omega arith) (omega arith) (ap (λ l. drop 1 l) e))

-- The same length, port and bytes of the address as far as they count.
abbrev pub IsSame : Sock → Sock → Type 0
IsSame s t =
    (s.addr.size ≡ t.addr.size)
    × (s.port ≡ t.port)
    × (take t.addr.size s.addr.octets ≡ take t.addr.size t.addr.octets)

-- Where the arrays hold the bytes that count, `==` holds of two `sock_t` exactly if they have the
-- same length, the same port and the same bytes of the address as far as they count.
pub same_sock_iff :
    (s t : Sock)
    → t.addr.size ≤ length s.addr.octets
    → t.addr.size ≤ length t.addr.octets
    → (same_sock s t ≡ true) ↔ IsSame s t
unfolding same_sock
same_sock_iff s t h k = (forth, back)
  where
    tests : Bool → Bool → Bool → Bool
    tests a b c = if not a then false else if not b then false else c

    all_three : (a b c : Bool) → tests a b c ≡ true → (a ≡ true) × (b ≡ true) × (c ≡ true)
    all_three true true c e = (refl, refl, e)
    all_three true false c e = absurd cc
    all_three false b c e = absurd cc

    three : (a b c : Bool) → a ≡ true → b ≡ true → c ≡ true → tests a b c ≡ true
    three a b c p q r = ap (λ x. tests x b c) p ∙ ap (λ x. tests true x c) q ∙ r

    forth : same_sock s t ≡ true → IsSame s t
    forth e =
        let (p, q, r) =
          all_three (s.addr.size == t.addr.size) (s.port == t.port)
            (same_bytes t.addr.size t.addr.octets s.addr.octets) e in
        (
          (==_iff s.addr.size t.addr.size).0 p,
          (==_iff s.port t.port).0 q,
          sym (same_bytes-take t.addr.size t.addr.octets s.addr.octets k h r),
        )

    back : IsSame s t → same_sock s t ≡ true
    back (p, q, r) =
        three (s.addr.size == t.addr.size) (s.port == t.port)
          (same_bytes t.addr.size t.addr.octets s.addr.octets)
          ((==_iff s.addr.size t.addr.size).1 p) ((==_iff s.port t.port).1 q)
          (take-same_bytes t.addr.size t.addr.octets s.addr.octets k h (sym r))

-- An address of four bytes, with what stands behind them in the array.
abbrev pub four_bytes : ℕ → ℕ → ℕ → ℕ → List ℕ → Addr
four_bytes a b c d rest = record { octets = a ∷ b ∷ c ∷ d ∷ rest; size = 4 }

-- An address of four bytes with a port of 16 bits is `==` to what `put` and then `get` make of it,
-- over any `sock_t`: a datagram from the peer passes the test of its sender.
pub get-put :
    (a b c d port : ℕ) (rest : List ℕ) (old : Sock)
    → port < 2 ^ 16
    → same_sock
        (record { addr = four_bytes a b c d rest; port = port })
        (get old (put (record { addr = four_bytes a b c d rest; port = port })))
      ≡ true
unfolding put get
get-put a b c d port rest old h =
    (same_sock_iff (record { addr = four_bytes a b c d rest; port = port }) _ (omega arith)
        (omega arith)).1
      (refl, omega arith, refl)
