-- ===== src/Tests/Dns.antt =====
-- Runs of the DNS code at small inputs, and its theorems there.
use librascal.Prelude.{
  ℕ, ◌-◌, get_or, true, ◌≤◌, ◌≡◌, refl, some, List, [], ◌∷◌, arith, get_or_inside, length, All, ◌⊎◌,
}
use librascal.Dns.Cursor.{Cursor, Memory, Writer, advance}
use librascal.Dns.Name.{put_name, skip_name, get_name}
use librascal.Dns.Name.Wire.{text, wire}
use librascal.Dns.Name.RoundTrip.{get_name-put_name}
use librascal.Dns.Header.{Header, new_header, parse, dump}
use librascal.Dns.Header.RoundTrip.{in_memory, parse-dump}
use librascal.Dns.Answers.{get_addrs}
use librascal.Dns.Answers.Safe.{get_addrs-local, get_addrs_bounds}

abbrev zeros : Memory
zeros i = 0

abbrev query : Header
unfolding new_header
query = record (new_header 4660) { qdcount = 1 }

-- A reply with one answer, 10.0.0.1 for the root name.
abbrev reply : List ℕ
reply = 0 ∷ 0 ∷ 1 ∷ 0 ∷ 1 ∷ 0 ∷ 0 ∷ 0 ∷ 9 ∷ 0 ∷ 4 ∷ 10 ∷ 0 ∷ 0 ∷ 1 ∷ []

abbrev reply_header : Header
unfolding new_header
reply_header = record (new_header 7) { ancount = 1 }

abbrev reply_start : Cursor
reply_start = record { pos = 0; size = 15 }

parse-dump_example :
    (w' : Writer) × (dump query (record { out = []; room = 512 }) ≡ some w')
    × (parse (in_memory w'.out zeros) (record { pos = 0; size = 12 })
        ≡ some (query, record { pos = 12; size = 0 }))
unfolding new_header
parse-dump_example =
    parse-dump query (record { out = []; room = 512 }) zeros 12 (omega arith) refl (omega arith)
      (omega arith)

get_addrs-local_example :
    get_addrs (in_memory reply zeros) reply_header reply_start 16
    ≡ get_addrs (in_memory reply (λ i. 255)) reply_header reply_start 16
get_addrs-local_example =
    get_addrs-local (in_memory reply zeros) (in_memory reply (λ i. 255)) reply_header reply_start 16
      (λ i h. get_or_inside reply i 0 255 h)

get_addrs_bounds_example :
    (length (get_addrs (in_memory reply zeros) reply_header reply_start 16) ≤ 16)
    × (length (get_addrs (in_memory reply zeros) reply_header reply_start 16) ≤ 1)
    × All (λ a. length a ≡ 4) (get_addrs (in_memory reply zeros) reply_header reply_start 16)
    × ((◌≡◌ {A = ℕ} 0 0) ⊎ (get_addrs (in_memory reply zeros) reply_header reply_start 16 ≡ []))
unfolding reply_header
get_addrs_bounds_example = get_addrs_bounds (in_memory reply zeros) reply_header reply_start 16

-- "ab.c" behind a byte of something else.
abbrev labels : List (List ℕ)
labels = (97 ∷ 98 ∷ []) ∷ (99 ∷ []) ∷ []

abbrev name_memory : Memory
name_memory i = get_or (7 ∷ 2 ∷ 97 ∷ 98 ∷ 1 ∷ 99 ∷ 0 ∷ []) i 5

get_name-put_name_example :
    (put_name (text labels) (record { out = 7 ∷ []; room = 20 })
      ≡ some (record { out = 7 ∷ wire labels; room = 20 - length (wire labels) }))
    × (skip_name name_memory (record { pos = 1; size = 8 })
        ≡ (true, advance (length (wire labels)) (record { pos = 1; size = 8 })))
    × (get_name name_memory 3 (record { pos = 1; size = 8 }) 256
        ≡ some
            (true, text labels, advance (length (wire labels) - 1) (record { pos = 1; size = 8 })))
get_name-put_name_example =
    get_name-put_name (97 ∷ 98 ∷ []) ((99 ∷ []) ∷ []) (record { out = 7 ∷ []; room = 20 })
      name_memory (record { pos = 1; size = 8 }) 3 256
      ((omega arith, omega arith, (refl, (refl, tt))), ((omega arith, omega arith, (refl, tt)), tt))
      (omega arith) (refl, (refl, (refl, (refl, (refl, (refl, tt)))))) (omega arith) (omega arith)
      (omega arith)
