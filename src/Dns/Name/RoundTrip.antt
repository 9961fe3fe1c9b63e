-- ===== src/Dns/Name/RoundTrip.antt =====
-- A host name that is written, skipped and read again.
use librascal.Prelude.{
  ℕ, zero, suc, ◌+◌, ◌-◌, ◌/◌, ◌≤◌, ◌<◌, ◌≡◌, refl, sym, ap, ap₂, subst, ◌∙◌, min, true, false,
  ◌||◌, Bool, Option, none, some, List, [], ◌∷◌, ◌++◌, append-nil, append_assoc, length,
  length-append, All, ltb, ◌==◌, if◌then◌else◌, if_true, if_false, arith,
}
use librascal.Chain.Item.{slice}
use librascal.Dns.Cursor.{Cursor, Memory, Writer, advance}
use librascal.Dns.Name.{
  dot, put_name, skip_name, strip_dots, drop_last, finish, finished, label_part, get_labels,
  get_name,
}
use librascal.Dns.Name.Skip.{skip_name-loop}
use librascal.Dns.Name.Wire.{
  IsPlain, IsLabel, text, wire, Holds, Holds-append, slice-Holds, shorter, put_labels-wire,
}

advance-advance : (a b : ℕ) (c : Cursor) → advance a (advance b c) ≡ advance (b + a) c
advance-advance a b c = ap₂ (λ (p n : ℕ). record { pos = p; size = n }) (omega arith) (omega arith)

wire_positive : (ls : List (List ℕ)) → 0 < length (wire ls)
wire_positive [] = omega arith
wire_positive (l ∷ ls) = omega arith

behind_label :
    (m : Memory) (pos : ℕ) (l rest : List ℕ)
    → Holds m (suc pos) (l ++ rest)
    → Holds m (pos + suc (length l)) rest
behind_label m pos l rest h =
    subst (λ p. Holds m p rest) (omega arith) (Holds-append m (suc pos) l rest h).1

skip_name-wire :
    (m : Memory) (c : Cursor) (ls : List (List ℕ))
    → All IsLabel ls
    → Holds m c.pos (wire ls)
    → length (wire ls) ≤ c.size
    → skip_name m c ≡ (true, advance (length (wire ls)) c)
skip_name-wire m c [] a h s =
    skip_name-loop m c
    ∙ if_false (c.size == 0) _ _ (ground arith)
    ∙ if_true (m c.pos == 0) _ _ (ap (λ n. n == 0) h.0)
skip_name-wire m c (l ∷ ls) a h s =
    let e : m c.pos ≡ length l = h.0 in
    let long = length-append l (wire ls) in
    let k : min (m c.pos + 1) c.size ≡ suc (length l) = ground (arith, e, long, s) in
    skip_name-loop m c
    ∙ if_false (c.size == 0) _ _ (ground arith)
    ∙ if_false (m c.pos == 0) _ _ (ground (arith, e, a.0.0))
    ∙ if_true (ltb (m c.pos) 64) _ _ (ground (arith, e, a.0.1))
    ∙ ap (λ n. skip_name m (advance n c)) k
    ∙ skip_name-wire m (advance (suc (length l)) c) ls a.1 (behind_label m c.pos l (wire ls) h.1)
        (omega (arith, long, s))
    ∙ ap (λ d. (true, d))
        (advance-advance (length (wire ls)) (suc (length l)) c
          ∙ ap (λ n. advance n c) (omega (arith, long)))

-- The labels, each with a dot behind it, as `get` writes them.
abbrev dotted : List (List ℕ) → List ℕ
dotted [] = []
dotted (l ∷ ls) = l ++ dot ∷ dotted ls

-- A round of the decompressing `get` at a label.
get_step :
    (m : Memory) (fuel : ℕ) (c : Cursor) (dsize : ℕ) (out l : List ℕ)
    → IsLabel l
    → Holds m c.pos (length l ∷ l)
    → length l < c.size
    → length l < dsize
    → get_labels m (suc fuel) c dsize out
      ≡ get_labels m fuel
          (advance (suc (length l)) c)
          (dsize - suc (length l))
          (out ++ l ++ dot ∷ [])
unfolding get_labels
get_step m fuel c dsize out l a h s d =
    let e : m c.pos ≡ length l = h.0 in
    let n : label_part m c dsize ≡ length l = ground (arith, e, s, d) in
    let z : (dsize - length l == 0) ≡ false = ground (arith, d) in
    let copied : slice m (c.pos + 1) (length l) ≡ l =
      ap (λ p. slice m p (length l)) (omega arith) ∙ slice-Holds m (suc c.pos) l h.1 in
    let low : (m c.pos / 64 == 3) ≡ false = ground (arith, e, a.1) in
    let more : ((c.size == 0) || (m c.pos == 0)) ≡ false = ground (arith, e, a.0, s) in
    if_false _ _ _ more
    ∙ if_false _ _ _ low
    ∙ rw (n, z, copied)
        (ap₂ (λ (p : Cursor) (k : ℕ). get_labels m fuel p k (out ++ l ++ dot ∷ []))
          (ap (λ k. advance k c) (omega arith)) (omega arith))

finished_same :
    {out out' : List ℕ} {left left' : ℕ} {c c' : Cursor}
    → out ≡ out'
    → left ≡ left'
    → c ≡ c'
    → finished out left c ≡ finished out' left' c'
finished_same e f g = rw (e, f, g) refl

get_labels-wire :
    (m : Memory) (fuel : ℕ) (c : Cursor) (dsize : ℕ) (out : List ℕ) (ls : List (List ℕ))
    → All IsLabel ls
    → Holds m c.pos (wire ls)
    → length (wire ls) ≤ c.size
    → length (dotted ls) ≤ dsize
    → length ls < fuel
    → get_labels m fuel c dsize out
      ≡ finished (out ++ dotted ls) (dsize - length (dotted ls)) (advance (length (wire ls) - 1) c)
unfolding get_labels
get_labels-wire m zero c dsize out ls a h s d f = absurd (omega arith)
get_labels-wire m (suc fuel) c dsize out [] a h s d f =
    let more : ((c.size == 0) || (m c.pos == 0)) ≡ true = ground (arith, h.0) in
    if_true _ _ _ more
    ∙ finished_same (sym (append-nil out)) (omega arith)
        (ap₂ (λ (p n : ℕ). record { pos = p; size = n }) (omega arith) (omega arith))
get_labels-wire m (suc fuel) c dsize out (l ∷ ls) a h s d f =
    let long = length-append l (wire ls) in
    let more = length-append l (dot ∷ dotted ls) in
    get_step m fuel c dsize out l a.0 (h.0, (Holds-append m (suc c.pos) l (wire ls) h.1).0)
      (omega (arith, s, long)) (omega (arith, d, more))
    ∙ get_labels-wire m fuel (advance (suc (length l)) c) (dsize - suc (length l))
        (out ++ l ++ dot ∷ []) ls a.1 (behind_label m c.pos l (wire ls) h.1)
        (omega (arith, s, long)) (omega (arith, d, more)) (omega (arith, f))
    ∙ finished_same
        (append_assoc (out ++ l) (dot ∷ []) (dotted ls) ∙ append_assoc out l (dot ∷ dotted ls))
        (omega (arith, more))
        (advance-advance (length (wire ls) - 1) (suc (length l)) c
          ∙ ap (λ n. advance n c) (omega (arith, long, wire_positive ls)))

-- Dots are taken off the end alone.
strip_cons :
    (x : ℕ) (t t' : List ℕ) → strip_dots t ≡ t' → 0 < length t' → strip_dots (x ∷ t) ≡ x ∷ t'
unfolding strip_dots
strip_cons x t [] e p = absurd (omega arith)
strip_cons x t (y ∷ t') e p = rw e refl

strip_plain : (l t : List ℕ) → All IsPlain l → strip_dots t ≡ [] → strip_dots (l ++ t) ≡ l
unfolding strip_dots
strip_plain [] t p e = e
strip_plain (b ∷ []) t p e = rw e (if_false (b == dot) _ _ p.0)
strip_plain (b ∷ y ∷ l) t p e =
    strip_cons b (y ∷ l ++ t) (y ∷ l) (strip_plain (y ∷ l) t p.1 e) (omega arith)

strip_more : (l t t' : List ℕ) → strip_dots t ≡ t' → 0 < length t' → strip_dots (l ++ t) ≡ l ++ t'
strip_more [] t t' e p = e
strip_more (b ∷ l) t t' e p =
    strip_cons b (l ++ t) (l ++ t') (strip_more l t t' e p) (omega (arith, length-append l t', p))

text_positive : (l : List ℕ) (ls : List (List ℕ)) → 0 < length l → 0 < length (text (l ∷ ls))
text_positive l ls p = omega (arith, shorter l ls p)

strip-dotted :
    (l : List ℕ) (ls : List (List ℕ))
    → All IsLabel (l ∷ ls)
    → strip_dots (dotted (l ∷ ls)) ≡ text (l ∷ ls)
unfolding strip_dots
strip-dotted l [] a = strip_plain l (dot ∷ []) a.0.2 refl
strip-dotted l (k ∷ ls) a =
    let p = text_positive k ls a.1.0.0 in
    strip_more l (dot ∷ dotted (k ∷ ls)) (dot ∷ text (k ∷ ls))
      (strip_cons dot (dotted (k ∷ ls)) (text (k ∷ ls)) (strip-dotted k ls a.1) p) (omega arith)

length-dotted :
    (l : List ℕ) (ls : List (List ℕ)) → length (dotted (l ∷ ls)) ≡ suc (length (text (l ∷ ls)))
length-dotted l [] = length-append l (dot ∷ []) ∙ omega arith
length-dotted l (k ∷ ls) = omega (
  arith,
  length-append l (dot ∷ dotted (k ∷ ls)),
  length-append l (dot ∷ text (k ∷ ls)),
  length-dotted k ls,
)

-- A text that ends with no dot, with room for its zero byte.
finish-text :
    (out text : List ℕ) (left : ℕ)
    → strip_dots out ≡ text
    → 0 < length text
    → ((left + (length out - length text)) == 0) ≡ false
    → finish out left ≡ some text
unfolding finish
finish-text out [] left e p z = absurd (omega arith)
finish-text out (x ∷ xs) left e p z = ap (ending out left) e ∙ ap Option.some (if_false _ _ _ z)
  where
    ending : List ℕ → ℕ → List ℕ → Option (List ℕ)
    ending out left t = elim t [
      | [] ↦ none
      | x ∷ xs ↦
          some (if left + (length out - length (x ∷ xs)) == 0 then drop_last (x ∷ xs) else x ∷ xs)
    ]

finish-dotted :
    (l : List ℕ) (ls : List (List ℕ)) (left : ℕ)
    → All IsLabel (l ∷ ls)
    → finish (dotted (l ∷ ls)) left ≡ some (text (l ∷ ls))
finish-dotted l ls left a =
    finish-text (dotted (l ∷ ls)) (text (l ∷ ls)) left (strip-dotted l ls a)
      (text_positive l ls a.0.0) (ground (arith, length-dotted l ls))

-- A host name of at least one label, each of one to 63 bytes without a dot, for which there is room.
-- `put` writes it as `wire` says; at any place of a packet that holds these bytes `skip_name` goes
-- behind them, and the decompressing `get`, with room for the text and its zero byte and a fuel above
-- the number of labels, gives the name, and leaves the cursor at the last of them.
pub get_name-put_name :
    (l : List ℕ) (ls : List (List ℕ)) (w : Writer) (m : Memory) (c : Cursor) (fuel dsize : ℕ)
    → All IsLabel (l ∷ ls)
    → length (wire (l ∷ ls)) ≤ w.room
    → Holds m c.pos (wire (l ∷ ls))
    → length (wire (l ∷ ls)) ≤ c.size
    → length (text (l ∷ ls)) < dsize
    → length (l ∷ ls) < fuel
    → (put_name (text (l ∷ ls)) w
        ≡ some (record { out = w.out ++ wire (l ∷ ls); room = w.room - length (wire (l ∷ ls)) }))
      × (skip_name m c ≡ (true, advance (length (wire (l ∷ ls))) c))
      × (get_name m fuel c dsize
          ≡ some (true, text (l ∷ ls), advance (length (wire (l ∷ ls)) - 1) c))
unfolding put_name get_name
get_name-put_name l ls w m c fuel dsize a r h s d f = (
  put_labels-wire (suc (length (text (l ∷ ls)))) (l ∷ ls) w a (omega arith) r,
  skip_name-wire m c (l ∷ ls) a h s,
  if_false (dsize == 0) _ _ (ground (arith, d))
      ∙ get_labels-wire m fuel c dsize [] (l ∷ ls) a h s (omega (arith, length-dotted l ls, d)) f
      ∙ ap (ended (advance (length (wire (l ∷ ls)) - 1) c))
          (finish-dotted l ls (dsize - length (dotted (l ∷ ls))) a),
)
  where
    ended : Cursor → Option (List ℕ) → Option (Bool × List ℕ × Cursor)
    ended p o = elim o [ none ↦ none | some text ↦ some (true, text, p) ]
