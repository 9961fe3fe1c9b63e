-- ===== src/Dns/Name/Wire.antt =====
-- A host name as text and in a packet, and that `put` takes the one to the other.
use librascal.Prelude.{
  ℕ, zero, suc, ◌+◌, ◌-◌, ◌≤◌, ◌<◌, ◌≡◌, refl, sym, ap, ap₂, subst, ◌∙◌, false, ◌||◌, Option, some,
  List, [], ◌∷◌, ◌++◌, append-nil, append_assoc, length, length-append, drop, All, ltb, ◌==◌,
  if_false, arith,
}
use librascal.Chain.Item.{slice}
use librascal.Dns.Cursor.{Memory, Writer}
use librascal.Dns.Name.{dot, label_of, skip_dot, put_labels}

-- A label: one to 63 bytes, none of them a dot.
abbrev pub IsPlain : ℕ → Type 0
IsPlain b = (b == dot) ≡ false

abbrev pub IsLabel : List ℕ → Type 0
IsLabel l = (0 < length l) × (length l < 64) × All IsPlain l

-- A host name as text, with a dot between two labels, and in a packet.
abbrev pub text : List (List ℕ) → List ℕ
text [] = []
text (l ∷ []) = l
text (l ∷ k ∷ ls) = l ++ dot ∷ text (k ∷ ls)

abbrev pub wire : List (List ℕ) → List ℕ
wire [] = 0 ∷ []
wire (l ∷ ls) = length l ∷ l ++ wire ls

-- The memory from a place on.
abbrev pub Holds : Memory → ℕ → List ℕ → Type 0
Holds m pos [] = Unit
Holds m pos (b ∷ bs) = (m pos ≡ b) × Holds m (suc pos) bs

pub Holds-append :
    (m : Memory) (pos : ℕ) (xs ys : List ℕ)
    → Holds m pos (xs ++ ys)
    → (Holds m pos xs) × Holds m (pos + length xs) ys
Holds-append m pos [] ys h = (tt, subst (λ p. Holds m p ys) (omega arith) h)
Holds-append m pos (x ∷ xs) ys h =
    let r = Holds-append m (suc pos) xs ys h.1 in
    ((h.0, r.0), subst (λ p. Holds m p ys) (omega arith) r.1)

pub slice-Holds :
    (m : Memory) (pos : ℕ) (xs : List ℕ) → Holds m pos xs → slice m pos (length xs) ≡ xs
slice-Holds m pos [] h = refl
slice-Holds m pos (x ∷ xs) h = ap₂ ◌∷◌ h.0 (slice-Holds m (suc pos) xs h.1)

-- Labels are cut off at their dots.
label_of-alone : (l : List ℕ) → All IsPlain l → label_of l ≡ l
unfolding label_of
label_of-alone [] p = refl
label_of-alone (b ∷ l) p = if_false (b == dot) _ _ p.0 ∙ ap (◌∷◌ b) (label_of-alone l p.1)

label_of-dot : (l rest : List ℕ) → All IsPlain l → label_of (l ++ dot ∷ rest) ≡ l
unfolding label_of
label_of-dot [] rest p = refl
label_of-dot (b ∷ l) rest p = if_false (b == dot) _ _ p.0 ∙ ap (◌∷◌ b) (label_of-dot l rest p.1)

drop-length : (l rest : List ℕ) → drop (length l) (l ++ rest) ≡ rest
drop-length [] rest = refl
drop-length (b ∷ l) rest = drop-length l rest

-- What is behind the first label, its dot taken off.
first_label : (l : List ℕ) (ls : List (List ℕ)) → All IsPlain l → label_of (text (l ∷ ls)) ≡ l
first_label l [] p = label_of-alone l p
first_label l (k ∷ ls) p = label_of-dot l (text (k ∷ ls)) p

next_text : (l : List ℕ) (ls : List (List ℕ)) → skip_dot (drop (length l) (text (l ∷ ls))) ≡ text ls
unfolding skip_dot
next_text l [] = ap skip_dot (ap (drop (length l)) (sym (append-nil l)) ∙ drop-length l [])
next_text l (k ∷ ls) = ap skip_dot (drop-length l (dot ∷ text (k ∷ ls)))

pub shorter :
    (l : List ℕ) (ls : List (List ℕ)) → 0 < length l → length (text ls) < length (text (l ∷ ls))
shorter l [] p = p
shorter l (k ∷ ls) p = omega (arith, length-append l (dot ∷ text (k ∷ ls)), p)

-- A round of `put`.
put_step :
    (fuel : ℕ) (host label next : List ℕ) (w : Writer)
    → label_of host ≡ label
    → skip_dot (drop (length label) host) ≡ next
    → 0 < length label
    → length label < 64
    → length label < w.room
    → put_labels (suc fuel) host w
      ≡ put_labels fuel next
          (record { out = w.out ++ (length label ∷ label); room = w.room - suc (length label) })
unfolding put_labels label_of
put_step fuel [] label next w e d p q r = absurd (omega (arith, ap length e, p))
put_step fuel (b ∷ bs) label next w e d p q r =
    let test : ((length label == 0) || ltb w.room (length label + 1)) ≡ false = ground arith in
    rw e (
      if_false _ _ _ test
      ∙ ap₂ (λ (h : List ℕ) (v : Writer). put_labels fuel h v) d
          (ap₂ (λ (n k : ℕ). record { out = w.out ++ (n ∷ label); room = k }) (omega arith)
            (omega arith)))

pub put_labels-wire :
    (fuel : ℕ) (ls : List (List ℕ)) (w : Writer)
    → All IsLabel ls
    → length (text ls) < fuel
    → length (wire ls) ≤ w.room
    → put_labels fuel (text ls) w
      ≡ some (record { out = w.out ++ wire ls; room = w.room - length (wire ls) })
unfolding put_labels
put_labels-wire zero ls w a f r = absurd (omega arith)
put_labels-wire (suc fuel) [] w a f r = if_false (w.room == 0) _ _ (ground arith)
put_labels-wire (suc fuel) (l ∷ ls) w a f r =
    put_step fuel (text (l ∷ ls)) l (text ls) w (first_label l ls a.0.2) (next_text l ls) a.0.0
      a.0.1 (omega (arith, r, length-append l (wire ls)))
    ∙ put_labels-wire fuel ls
        (record { out = w.out ++ (length l ∷ l); room = w.room - suc (length l) }) a.1
        (omega (arith, f, shorter l ls a.0.0)) (omega (arith, r, length-append l (wire ls)))
    ∙ ap₂ (λ (o : List ℕ) (k : ℕ). Option.some (record { out = o; room = k }))
        (append_assoc w.out (length l ∷ l) (wire ls)) (omega (arith, length-append l (wire ls)))
