-- ===== src/Dns/Name.antt =====
-- Domain names: `put`, `skip_name`, `skip_echo` and the decompressing `get` of
-- common/resolver/header.cc.
pub mod Skip
pub mod Wire
pub mod RoundTrip
use librascal.Prelude.{
  ℕ, zero, suc, ◌+◌, ◌-◌, ◌*◌, ◌/◌, ◌%◌, ◌^◌, min, Bool, true, false, ◌||◌, Option, none, some,
  List, [], ◌∷◌, ◌++◌, length, drop, ltb, leb, ◌==◌, if◌then◌else◌,
}
use librascal.Dns.Cursor.{Cursor, Memory, Writer, advance, get_u16}
use librascal.Chain.Item.{slice}

-- '.'
abbrev pub dot : ℕ
dot = 46

-- The bytes up to the first '.' or the end.
unfoldable pub label_of : List ℕ → List ℕ
label_of [] = []
label_of (b ∷ bs) = let rest = label_of bs in if b == dot then [] else b ∷ rest

-- `if (*hostname == '.') ++hostname;`
unfoldable pub skip_dot : List ℕ → List ℕ
skip_dot [] = []
skip_dot (b ∷ bs) = if b == dot then bs else b ∷ bs

-- `header::put` of a host name, which is the text before its zero byte. A round takes a byte at
-- least, so a round more than bytes is enough fuel.
unfoldable pub put_labels : ℕ → List ℕ → Writer → Option Writer
put_labels zero host w = none
put_labels (suc fuel) [] w =
    if w.room == 0 then none else some (record { out = w.out ++ 0 ∷ []; room = w.room - 1 })
put_labels (suc fuel) (b ∷ bs) w =
    let label = label_of (b ∷ bs) in
    let n = length label in
    let rest =
      put_labels fuel (skip_dot (drop n (b ∷ bs)))
        (record { out = w.out ++ (n % 256 ∷ label); room = w.room - (n + 1) }) in
    if (n == 0) || ltb w.room (n + 1) then none else rest

unfoldable pub put_name : List ℕ → Writer → Option Writer
put_name host w = put_labels (suc (length host)) host w

-- `header::skip_name`. A round takes a byte at least; the fuel is one more than the bytes left.
unfoldable pub skip_labels : Memory → ℕ → Cursor → Bool × Cursor
skip_labels m zero c = (false, c)
skip_labels m (suc fuel) c =
    let b = m c.pos in
    let rest = skip_labels m fuel (advance (min (b + 1) c.size) c) in
    let mark : Bool × Cursor = elim (get_u16 m c) [
      | none ↦ (false, c)
      | some (o, c') ↦ (true, c')
    ] in
    if c.size == 0
    then (false, c)
    else if b == 0
    then (true, advance 1 c)
    else if ltb b 64
    then rest
    else mark

unfoldable pub skip_name : Memory → Cursor → Bool × Cursor
skip_name m c = skip_labels m (suc c.size) c

-- `header::skip_echo`: what it returns, `qdcount` as it leaves it, and the cursor.
unfoldable pub skip_echo : Memory → ℕ → Cursor → Bool × ℕ × Cursor
skip_echo m zero c = (true, 0, c)
skip_echo m (suc qdcount) c =
    let (found, c') = skip_name m c in
    let rest = skip_echo m qdcount (advance 4 c') in
    if found
    then (if ltb c'.size 4 then (false, qdcount, c') else rest)
    else (true, suc qdcount, c')

-- `while (dst[-1] == '.') --dst, ++dsize;`, as far as the bytes written go.
unfoldable pub strip_dots : List ℕ → List ℕ
strip_dots [] = []
strip_dots (x ∷ xs) = elim (strip_dots xs) [
  | [] ↦ if x == dot then [] else x ∷ []
  | y ∷ ys ↦ x ∷ y ∷ ys
]

unfoldable pub drop_last : List ℕ → List ℕ
drop_last [] = []
drop_last (x ∷ []) = []
drop_last (x ∷ y ∷ xs) = x ∷ drop_last (y ∷ xs)

-- The end of the decompressing `get`: the text without trailing dots, cut for its zero byte. Where
-- nothing but dots is written the loop reads `dst[-1]` before the buffer, which is `none`.
unfoldable pub finish : List ℕ → ℕ → Option (List ℕ)
finish out dsize = elim (strip_dots out) [
  | [] ↦ none
  | x ∷ xs ↦
      let text = x ∷ xs in
      some (if dsize + (length out - length text) == 0 then drop_last text else text)
]

-- What `get` returns with the text finished.
abbrev pub finished : List ℕ → ℕ → Cursor → Option (Bool × List ℕ × Cursor)
finished out dsize c = elim (finish out dsize) [ none ↦ none | some text ↦ some (true, text, c) ]

-- How many bytes of a label the copy loop takes.
abbrev pub label_part : Memory → Cursor → ℕ → ℕ
label_part m c dsize = min (min (c.size - 1) dsize) (m c.pos)

-- `header::get(src, size, dst, dsize)`: what it returns, the text before its zero byte, and the
-- cursor that the caller is left with; `none` if the fuel runs out, or at a read before the buffer.
-- `out` is what is written so
-- far, by outer calls too.
unfoldable pub get_labels : Memory → ℕ → Cursor → ℕ → List ℕ → Option (Bool × List ℕ × Cursor)
get_labels m zero c dsize out = none
get_labels m (suc fuel) c dsize out =
    let b = m c.pos in
    let n = label_part m c dsize in
    let copied = out ++ slice m (c.pos + 1) n in
    let left = dsize - n in
    let next =
      get_labels m fuel (advance (1 + n) c) (if left == 0 then 0 else left - 1)
        (if left == 0 then copied else copied ++ dot ∷ []) in
    let jump : Option (Bool × List ℕ × Cursor) = elim (get_u16 m c) [
      | none ↦ some (false, out, c)
      | some (o, c') ↦
          let start = o % 2 ^ 14 in
          let end = c'.pos + c'.size in
          if leb end start || (dsize == 0)
          then some (false, out, c')
          else elim (get_labels m fuel (record { pos = start; size = end - start }) dsize out) [
            | none ↦ none
            | some (ok, text, c'') ↦ some (ok, text, c')
          ]
    ] in
    if (c.size == 0) || (b == 0) then finished out dsize c else if b / 64 == 3 then jump else next

unfoldable pub get_name : Memory → ℕ → Cursor → ℕ → Option (Bool × List ℕ × Cursor)
get_name m fuel c dsize =
    let loop = get_labels m fuel c dsize [] in if dsize == 0 then some (false, [], c) else loop
