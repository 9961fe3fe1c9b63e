-- ===== src/Tests/Srv.antt =====
-- Runs of the choice of servers, and its theorems there.
use librascal.Prelude.{ℕ, Bool, true, List, [], ◌∷◌, ◌≡◌, refl, ltb, some, arith}
use librascal.Srv.{Record, Place}
use librascal.Srv.Places.{
  on_getaddr, find_record, sort, sort_loop, next_place, choose, total_weight, try_next_server,
}
use librascal.Srv.Places.Merge.{IsOrdered}
use librascal.Srv.Places.Resolve.{Resolved, on_getaddr-Merged}
use librascal.Srv.Places.Order.{Shuffled, sort-Shuffled, accepted, Tried, try_next_server-Tried}

abbrev server : ℕ → ℕ → ℕ → Place
server priority weight port = record {
  priority = priority;
  weight = weight;
  port = port;
  addr = 10 ∷ 0 ∷ 0 ∷ 1 ∷ [];
}

abbrev sample : List Place
sample = server 1 2 80 ∷ server 1 3 81 ∷ server 2 0 82 ∷ []

-- The largest number that may be drawn.
abbrev largest : ℕ → ℕ → ℕ
largest round range = range

sort_test : sort largest sample ≡ server 1 3 81 ∷ server 1 2 80 ∷ server 2 0 82 ∷ []
unfolding sort sort_loop next_place choose total_weight
sort_test = refl

sort-Shuffled_example : Shuffled (sort largest sample) sample
sort-Shuffled_example = sort-Shuffled largest sample

try_next_server-Tried_example :
    Tried
      (accepted (λ p. true) (λ p. ltb 80 p.port))
      sample
      (try_next_server (λ p. true) (λ p. ltb 80 p.port) sample)
try_next_server-Tried_example = try_next_server-Tried (λ p. true) (λ p. ltb 80 p.port) sample

-- A record of the host "a", and one of the host "b".
abbrev first : Record
first = record { id = 2; priority = 1; weight = 5; port = 90; host = 97 ∷ [] }

abbrev second : Record
second = record { id = 1; priority = 3; weight = 0; port = 91; host = 98 ∷ [] }

abbrev addrs : List (List ℕ)
addrs = (10 ∷ 0 ∷ 0 ∷ 2 ∷ []) ∷ []

abbrev always : ℕ → ℕ → Bool
always n i = true

sample-IsOrdered : IsOrdered sample
sample-IsOrdered = ((omega arith, (omega arith, tt)), ((omega arith, tt), (tt, tt)))

found : find_record 2 (first ∷ second ∷ []) ≡ some first
unfolding find_record
found = refl

on_getaddr-Merged_example :
    Resolved
      (λ p. true)
      (λ p. true)
      first.host
      always
      addrs
      (first ∷ second ∷ [])
      sample
      (on_getaddr
        (λ n. first.host)
        always
        largest
        (λ p. true)
        (λ p. true)
        addrs
        2
        (first ∷ second ∷ [])
        sample)
on_getaddr-Merged_example =
    on_getaddr-Merged largest (λ p. true) (λ p. true) (λ n. first.host) always addrs 2
      (first ∷ second ∷ []) sample first found (λ n. refl) sample-IsOrdered
