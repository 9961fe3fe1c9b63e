-- ===== src/Dns/Answers/Safe.antt =====
-- `get_addrs` stays in the packet and in `addrv`.
use librascal.Prelude.{
  ℕ, zero, suc, ◌+◌, ◌-◌, ◌≤◌, ◌<◌, ◌≡◌, refl, ap, ap₂, sym, ◌∙◌, ◌⊎◌, true, false, Option, none,
  some, [], ◌∷◌, inl, inr, length, All, ◌==◌, arith, Bool-cases, Option-cases, not, ◌||◌,
}
use librascal.Chain.Item.{slice, length-slice}
use librascal.Dns.Cursor.{Cursor, Memory, advance, get_u16, get_u32}
use librascal.Dns.Header.{Header}
use librascal.Dns.Name.{skip_name, skip_echo}
use librascal.Dns.Name.Skip.{
  SameBelow, end_of, end_of-get_u16, end_of-skip_name, end_of-skip_echo, get_u16-local,
  end_of-get_u32, get_u32-local, skip_name-local, skip_echo-local,
}
use librascal.Dns.Answers.{
  Answer, ◌>>=◌, or_break, read_answer, is_address, address_loop, get_addrs,
}

bind_cong {ℓ κ} :
    {A : Type ℓ} {B : Type κ} {x x' : Option A} {f g : A → Option B}
    → x ≡ x'
    → ((a : A) → x' ≡ some a → f a ≡ g a)
    → (x >>= f) ≡ (x' >>= g)
bind_cong {x' = x'} {f = f} {g = g} e h = rw e (go x' h)
  where
    go : (y : Option _) → ((a : _) → y ≡ some a → f a ≡ g a) → (y >>= f) ≡ (y >>= g)
    go none k = refl
    go (some a) k = k a refl

end_of-or_break :
    (m : Memory) (c : Cursor) {c' : Cursor}
    → or_break (skip_name m c) ≡ some c'
    → end_of c' ≡ end_of c
end_of-or_break m c e = ground (arith, end_of-skip_name m c)

-- A record that is read has its data in the packet.
read_answer_within :
    (m : Memory) (c : Cursor) (a : Answer) (c' : Cursor)
    → read_answer m c ≡ some (a, c')
    → (end_of c' ≡ end_of c) × (a.length ≤ c'.size)
unfolding read_answer get_u16 get_u32
read_answer_within m c a c' e = ground (arith, end_of-skip_name m c)

read_answer-local :
    (m m' : Memory) (c : Cursor) → SameBelow (end_of c) m m' → read_answer m c ≡ read_answer m' c
unfolding read_answer
read_answer-local m m' c h = bind_cong (ap or_break (skip_name-local m m' c h)) (λ c₁ e₁.
    let n₁ : end_of c₁ ≡ end_of c = end_of-or_break m' c e₁ in
    bind_cong (get_u16-local m m' c₁ (below n₁)) (λ p₂ e₂.
      let n₂ = end_of-get_u16 m' c₁ e₂ ∙ n₁ in
      bind_cong (get_u16-local m m' p₂.1 (below n₂)) (λ p₃ e₃.
        let n₃ = end_of-get_u16 m' p₂.1 e₃ ∙ n₂ in
        bind_cong (get_u32-local m m' p₃.1 (below n₃)) (λ p₄ e₄.
          let n₄ = end_of-get_u32 m' p₃.1 e₄ ∙ n₃ in
          bind_cong (get_u16-local m m' p₄.1 (below n₄)) (λ p₅ e₅. refl)))))
  where
    below : {n : ℕ} → n ≡ end_of c → SameBelow n m m'
    below e = λ i p. h i (omega arith)

slice-local :
    (m m' : Memory) (e p n : ℕ) → SameBelow e m m' → p + n ≤ e → slice m p n ≡ slice m' p n
slice-local m m' e p zero h k = refl
slice-local m m' e p (suc n) h k =
    ap₂ ◌∷◌ (h p (omega arith)) (slice-local m m' e (suc p) n h (omega arith))

module _ (m : Memory) (n : ℕ) (c : Cursor) (room : ℕ) where
  -- A round of the loop: it breaks, it stores an address, or it passes a record over.
  address_loop-break : read_answer m c ≡ none → address_loop m (suc n) c room ≡ []
  unfolding address_loop
  address_loop-break z = rw (z, address_loop)

  address_loop-hit :
      (a : Answer) (c' : Cursor)
      → read_answer m c ≡ some (a, c')
      → is_address a room ≡ true
      → address_loop m (suc n) c room
        ≡ slice m c'.pos 4 ∷ address_loop m n (advance a.length c') (room - 1)
  unfolding address_loop
  address_loop-hit a c' z hit = rw (z, address_loop) (rw hit)

  address_loop-miss :
      (a : Answer) (c' : Cursor)
      → read_answer m c ≡ some (a, c')
      → is_address a room ≡ false
      → address_loop m (suc n) c room ≡ address_loop m n (advance a.length c') room
  unfolding address_loop
  address_loop-miss a c' z miss = rw (z, address_loop) (rw miss)

address_loop-local :
    (m m' : Memory) (answers : ℕ) (c : Cursor) (room : ℕ)
    → SameBelow (end_of c) m m'
    → address_loop m answers c room ≡ address_loop m' answers c room
address_loop-local m m' zero c room h = unfold address_loop in refl
address_loop-local m m' (suc answers) c room h =
    let l = read_answer-local m m' c h in
    elim (Option-cases (read_answer m' c)) [
      | inl z ↦
          address_loop-break m answers c room (l ∙ z) ∙ sym (address_loop-break m' answers c room z)
      | inr ((a, c'), z) ↦
          let w = read_answer_within m' c a c' z in
          let s : SameBelow (end_of (advance a.length c')) m m' =
            λ i p. h i (omega (arith, w.0, w.1)) in
          elim (Bool-cases (is_address a room)) [
            | inl hit ↦
                let l : a.length ≡ 4 = ground arith in
                address_loop-hit m answers c room a c' (l' z) hit
                ∙ ap₂ ◌∷◌ (slice-local m m' (end_of c) c'.pos 4 h (omega (arith, w.0, w.1)))
                    (address_loop-local m m' answers (advance a.length c') (room - 1) s)
                ∙ sym (address_loop-hit m' answers c room a c' z hit)
            | inr miss ↦
                address_loop-miss m answers c room a c' (l' z) miss
                ∙ address_loop-local m m' answers (advance a.length c') room s
                ∙ sym (address_loop-miss m' answers c room a c' z miss)
          ]
    ]
  where
    l' : {o : Option (Answer × Cursor)} → read_answer m' c ≡ o → read_answer m c ≡ o
    l' z = read_answer-local m m' c h ∙ z

-- `get_addrs` depends on no byte behind the packet: two memories that hold the same packet give
-- the same addresses, whatever the packet says.
pub get_addrs-local :
    (m m' : Memory) (h : Header) (c : Cursor) (addrc : ℕ)
    → ((i : ℕ) → i < c.pos + c.size → m i ≡ m' i)
    → get_addrs m h c addrc ≡ get_addrs m' h c addrc
unfolding get_addrs
get_addrs-local m m' h c addrc s = rw (
  skip_echo-local m m' h.qdcount c s,
  address_loop-local m m' h.ancount (skip_echo m' h.qdcount c).2 addrc
      (λ i p. s i (omega (arith, end_of-skip_echo m' h.qdcount c))),
)

address_loop_bounds :
    (m : Memory) (answers : ℕ) (c : Cursor) (room : ℕ)
    → (length (address_loop m answers c room) ≤ room)
      × (length (address_loop m answers c room) ≤ answers)
      × All (λ a. length a ≡ 4) (address_loop m answers c room)
address_loop_bounds m zero c room = unfold address_loop in (omega arith, omega arith, tt)
address_loop_bounds m (suc answers) c room = elim (Option-cases (read_answer m c)) [
  | inl z ↦ rw (address_loop-break m answers c room z) (omega arith, omega arith, tt)
  | inr ((a, c'), z) ↦ elim (Bool-cases (is_address a room)) [
    | inl hit ↦
        let ih = address_loop_bounds m answers (advance a.length c') (room - 1) in
        let p : 0 < room = ground arith in
        rw (address_loop-hit m answers c room a c' z hit)
          (omega (arith, ih.0), omega (arith, ih.1), (length-slice m c'.pos 4, ih.2))
    | inr miss ↦
        let ih = address_loop_bounds m answers (advance a.length c') room in
        rw (address_loop-miss m answers c room a c' z miss) (ih.0, omega (arith, ih.1), ih.2)
  ]
]

-- Whatever the packet says, `get_addrs` stores no more addresses than `addrv` has room for, nor
-- more than the header counts answers, each of four bytes, and none if the reply has an error code.
pub get_addrs_bounds :
    (m : Memory) (h : Header) (c : Cursor) (addrc : ℕ)
    → (length (get_addrs m h c addrc) ≤ addrc)
      × (length (get_addrs m h c addrc) ≤ h.ancount)
      × All (λ a. length a ≡ 4) (get_addrs m h c addrc)
      × ((h.rcode ≡ 0) ⊎ (get_addrs m h c addrc ≡ []))
unfolding get_addrs
get_addrs_bounds m h c addrc =
    let e = skip_echo m h.qdcount c in
    let b = address_loop_bounds m h.ancount e.2 addrc in
    elim (Bool-cases ((h.ancount == 0) || not (h.rcode == 0))) [
      | inl z ↦ rw z (omega arith, omega arith, tt, inr refl)
      | inr z ↦
          let r : h.rcode ≡ 0 = ground arith in
          elim (Bool-cases e.0) [
            | inl f ↦ rw (z, f) (b.0, b.1, b.2, inl r)
            | inr f ↦ rw (z, f) (omega arith, omega arith, tt, inl r)
          ]
    ]
