-- ===== src/Tests/Socket.antt =====
-- Addresses of sockets, and their theorems there.
use librascal.Prelude.{◌≡◌, ◌↔◌, refl, true, [], ◌∷◌, arith}
use librascal.Socket.{Sock, put, get, same_bytes, same_sock}
use librascal.Socket.Same.{IsSame, same_sock_iff, four_bytes, get-put}
use librascal.Connection.Open.{no_sock}

abbrev local_http : Sock
local_http = record { addr = four_bytes 127 0 0 1 []; port = 80 }

abbrev other : Sock
other = record { addr = four_bytes 127 0 0 1 (9 ∷ []); port = 80 }

same_sock_iff_example : (same_sock local_http other ≡ true) ↔ IsSame local_http other
same_sock_iff_example = same_sock_iff local_http other (omega arith) (omega arith)

same_sock_holds : same_sock local_http other ≡ true
unfolding same_sock same_bytes
same_sock_holds = refl

get-put_example :
    same_sock
      (record { addr = four_bytes 10 0 0 7 []; port = 5222 })
      (get no_sock (put (record { addr = four_bytes 10 0 0 7 []; port = 5222 })))
    ≡ true
get-put_example = get-put 10 0 0 7 5222 [] no_sock (omega arith)
