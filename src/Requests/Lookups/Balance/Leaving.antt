-- ===== src/Requests/Lookups/Balance/Leaving.antt =====
-- What leaves and enters the queue of requests.
use librascal.Prelude.{
  ℕ, zero, suc, ◌≡◌, ◌≢◌, refl, sym, ap, subst, ◌∙◌, Bool, true, false, Option, some, List, [], ◌∷◌,
  ◌++◌, length, get_elem?, All, All-append, ◌==◌, ==_iff, if_true, if_false, Bool-cases, inl, inr,
}
use librascal.Requests.{Request, without, pick, flush, sent_to}

-- The requests of the queue are listed objects at different addresses.
abbrev pub IsQueue : List Request → Type 0
IsQueue [] = Unit
IsQueue (r ∷ rest) = (r.listed ≡ true) × All (λ (x : Request). x.self ≢ r.self) rest × IsQueue rest

differs : (m n : ℕ) → m ≢ n → (m == n) ≡ false
differs m n k = elim (Bool-cases (m == n)) [ inl e ↦ absurd (k ((==_iff m n).0 e)) | inr e ↦ e ]

-- What `without` does with the head of the queue.
pub without_keeps :
    (self : ℕ) (x : Request) (rest : List Request)
    → x.self ≢ self
    → without self (x ∷ rest) ≡ x ∷ without self rest
unfolding without
without_keeps self x rest k = if_false (x.self == self) _ _ (differs x.self self k)

pub without_drops :
    (self : ℕ) (x : Request) (rest : List Request)
    → x.self ≡ self
    → without self (x ∷ rest) ≡ without self rest
unfolding without
without_drops self x rest e = if_true (x.self == self) _ _ ((==_iff x.self self).1 e)

pub without-absent :
    (self : ℕ) (q : List Request) → All (λ (x : Request). x.self ≢ self) q → without self q ≡ q
unfolding without
without-absent self [] a = refl
without-absent self (r ∷ rest) (n, a) =
    without_keeps self r rest n ∙ ap (λ l. r ∷ l) (without-absent self rest a)

-- A request put at the end and taken out again.
pub without-appended :
    (self : ℕ) (q : List Request) (r : Request)
    → All (λ (x : Request). x.self ≢ self) q
    → r.self ≡ self
    → without self (q ++ r ∷ []) ≡ q
without-appended self [] r a e = without_drops self r [] e ∙ without-absent self [] tt
without-appended self (x ∷ rest) r (n, a) e =
    without_keeps self x (rest ++ r ∷ []) n ∙ ap (λ l. x ∷ l) (without-appended self rest r a e)

some_injective : (a b : Request) → Path (Option Request) (some a) (some b) → a ≡ b
some_injective a b e = cc

pub get-All :
    (P : Request → Type 0) (q : List Request) (i : ℕ) (r : Request)
    → All P q
    → get_elem? q i ≡ some r
    → P r
get-All P [] i r a e = absurd cc
get-All P (x ∷ rest) zero r (p, a) e = subst P (some_injective x r e) p
get-All P (x ∷ rest) (suc i) r (p, a) e = get-All P rest i r a e

without-All :
    (P : Request → Type 0) (self : ℕ) (q : List Request) → All P q → All P (without self q)
unfolding without
without-All P self [] a = tt
without-All P self (x ∷ rest) (p, a) = elim (Bool-cases (x.self == self)) [
  | inl e ↦ subst (All P) (sym (if_true (x.self == self) _ _ e)) (without-All P self rest a)
  | inr e ↦ subst (All P) (sym (if_false (x.self == self) _ _ e)) (p, without-All P self rest a)
]

pub without-IsQueue : (self : ℕ) (q : List Request) → IsQueue q → IsQueue (without self q)
unfolding without
without-IsQueue self [] v = tt
without-IsQueue self (x ∷ rest) (l, a, v) = elim (Bool-cases (x.self == self)) [
  | inl e ↦ subst IsQueue (sym (if_true (x.self == self) _ _ e)) (without-IsQueue self rest v)
  | inr e ↦
      subst IsQueue (sym (if_false (x.self == self) _ _ e))
        (l, without-All _ self rest a, without-IsQueue self rest v)
]

-- One request goes.
pub length-without :
    (q : List Request) (i : ℕ) (r : Request)
    → IsQueue q
    → get_elem? q i ≡ some r
    → suc (length (without r.self q)) ≡ length q
length-without [] i r v e = absurd cc
length-without (x ∷ rest) zero r (l, a, v) e =
    let same = ap (λ (y : Request). y.self) (some_injective x r e) in
    ap (λ l. suc (length l))
      (without_drops r.self x rest same
        ∙ without-absent r.self rest (subst (λ n. All (λ (y : Request). y.self ≢ n) rest) same a))
length-without (x ∷ rest) (suc i) r (l, a, v) e =
    let apart = get-All (λ (y : Request). y.self ≢ x.self) rest i r a e in
    ap (λ l. suc (length l)) (without_keeps r.self x rest (λ k. apart (sym k)))
    ∙ ap suc (length-without rest i r v e)

-- `pick` gives a request of the queue.
pub pick-get :
    (id : ℕ) (q : List Request) (r : Request)
    → pick id q ≡ some r
    → (i : ℕ) × (get_elem? q i ≡ some r)
unfolding pick
pick-get id [] r e = absurd cc
pick-get id (x ∷ rest) r e = elim (Bool-cases (x.id == id)) [
  | inl h ↦ (0, sym (if_true (x.id == id) _ _ h) ∙ e)
  | inr h ↦
      let (i, g) = pick-get id rest r (sym (if_false (x.id == id) (some x) (pick id rest) h) ∙ e) in
      (suc i, g)
]

-- A new request at the end.
pub IsQueue-append :
    (q : List Request) (r : Request)
    → IsQueue q
    → r.listed ≡ true
    → All (λ (x : Request). x.self ≢ r.self) q
    → IsQueue (q ++ r ∷ [])
IsQueue-append [] r v l a = (l, tt, tt)
IsQueue-append (x ∷ rest) r (k, b, v) l (n, a) =
    (k, All-append _ rest _ b ((λ e. n (sym e)), tt), IsQueue-append rest r v l a)

pub flush_keeps :
    (dumped : Bool) (servers : List (ℕ × ℕ)) (r : Request)
    → (((flush dumped servers r).2).self ≡ r.self)
      × (((flush dumped servers r).2).listed ≡ r.listed)
unfolding flush
flush_keeps false servers r = (refl, refl)
flush_keeps true servers r = elim (Bool-cases (sent_to servers == 0)) [
  | inl h ↦ rw h (refl, refl)
  | inr h ↦ rw h (refl, refl)
]
