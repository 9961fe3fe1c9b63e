-- ===== src/Srv.antt =====
-- common/resolver/rascal_getsrv.cc: the records of a service, and the order of their addresses.
pub mod Places
use librascal.Prelude.{
  ℕ, zero, suc, ◌+◌, ◌-◌, ◌*◌, ◌/◌, ◌%◌, ◌^◌, Bool, true, false, ◌&&◌, ◌||◌, not, Option, none,
  some, List, [], ◌∷◌, ◌++◌, length, take, map, ltb, ◌==◌, if◌then◌else◌,
}
use librascal.Dns.Cursor.{Cursor, Memory, Writer, advance, get_u16, get_u32, put_u16}
use librascal.Dns.Header.{Header, new_header, dump}
use librascal.Dns.Name.{skip_name, skip_echo, get_name, put_name}
use librascal.Dns.Answers.{◌>>=◌, Answer, read_answer, class_in}

-- Texts are lists of bytes without the zero byte.
abbrev pub same_text : List ℕ → List ℕ → Bool
same_text [] [] = true
same_text [] (y ∷ ys) = false
same_text (x ∷ xs) [] = false
same_text (x ∷ xs) (y ∷ ys) = (x == y) && same_text xs ys

pub record Record : Type 0 where
  pub id : ℕ
  pub priority : ℕ
  pub weight : ℕ
  pub port : ℕ
  pub host : List ℕ

pub record Place : Type 0 where
  pub priority : ℕ
  pub weight : ℕ
  pub port : ℕ
  pub addr : List ℕ

-- `srv::depth` and `ina::depth` of a node with these behind it.
unfoldable pub depth {ℓ} : {A : Type ℓ} → List A → ℕ
depth [] = 1
depth (x ∷ xs) = suc (depth xs)

abbrev pub type_srv : ℕ
type_srv = 33

abbrev pub rec_srv_unavail : ℕ
rec_srv_unavail = 0xe000_000a

abbrev pub rec_srv_notfound : ℕ
rec_srv_notfound = 0xe000_000b

-- `rascal_isok`
abbrev pub isok : ℕ → Bool
isok rc = rc / 2 ^ 31 % 2 == 0

-- `getsrv::dump`: the query for a service.
unfoldable pub dump_query : ℕ → List ℕ → Writer → Option Writer
dump_query id service w = do
  w₁ ← dump (record (new_header id) { qdcount = 1 }) w
  w₂ ← put_name service w₁
  w₃ ← put_u16 w₂ type_srv
  put_u16 w₃ class_in

-- Whether the host name is being resolved for one of the records.
unfoldable pub resolving : List ℕ → List Record → Bool
resolving host [] = false
resolving host (r ∷ rs) = same_text r.host host || resolving host rs

-- What `on_record` returns, `rc`, the list of records, and the names it asks `rascal_getaddr` for.
pub record OnRecord : Type 0 where
  pub returns : Bool
  pub rc : ℕ
  pub records : List Record
  pub asked : List (List ℕ)

-- The end of `on_record`, with the fields read and memory for the record at hand; `getaddr` says
-- whether `rascal_getaddr` accepts a name. The record holds 63 bytes of the name.
unfoldable pub schedule : (List ℕ → Bool) → List Record → ℕ → ℕ → ℕ → List ℕ → ℕ → OnRecord
schedule getaddr records priority weight port host rc =
    let entry : Record = record {
      id = depth records % 2 ^ 16;
      priority = priority;
      weight = weight;
      port = port;
      host = take 63 host;
    } in
    if resolving host records
    then record { returns = true; rc = rc; records = entry ∷ records; asked = [] }
    else record {
      returns = true;
      rc = rc;
      records = if getaddr host then entry ∷ records else records;
      asked = host ∷ [];
    }

-- The priority, the weight and the port of a record.
unfoldable pub get_fields : Memory → Cursor → Option (ℕ × ℕ × ℕ × Cursor)
get_fields m c = do
  (priority, c₁) ← get_u16 m c
  (weight, c₂) ← get_u16 m c₁
  (port, c₃) ← get_u16 m c₂
  some (priority, weight, port, c₃)

-- `getsrv::on_record`; `allocated` says whether there was memory, and `none` is fuel run out
-- or a read before the buffer of a name.
unfoldable pub on_record :
    Memory → ℕ → (List ℕ → Bool) → Bool → Cursor → ℕ → List Record → Option OnRecord
on_record m fuel getaddr allocated c rc records =
    let failed : OnRecord = record { returns = false; rc = rc; records = records; asked = [] } in
    elim (get_fields m c) [
      | none ↦ some failed
      | some (priority, weight, port, c₃) ↦ elim (get_name m fuel c₃ 256) [
        | none ↦ none
        | some (false, text, e) ↦ some failed
        | some (true, [], e) ↦ some (record failed { rc = rec_srv_unavail })
        | some (true, b ∷ host, e) ↦ some (
            if allocated
            then schedule getaddr records priority weight port (b ∷ host) rc
            else failed)
      ]
    ]

-- The loop of `getsrv::on_event` over the answers left: `rc`, the records and the names asked for.
-- `memory` has one entry for each answer.
unfoldable pub record_loop :
    Memory
    → ℕ
    → (List ℕ → Bool)
    → List Bool
    → Cursor
    → ℕ
    → List Record
    → Option (ℕ × List Record × List (List ℕ))
record_loop m fuel getaddr [] c rc records = some (rc, records, [])
record_loop m fuel getaddr (allocated ∷ answers) c rc records =
    if not (isok rc) then some (rc, records, []) else elim (read_answer m c) [
      | none ↦ some (rc, records, [])
      | some (a, c') ↦
          let next : Cursor = advance a.length c' in
          if (a.type == type_srv) && (a.class == class_in)
          then elim (on_record m fuel getaddr allocated c' rc records) [
            | none ↦ none
            | some out ↦
                if out.returns
                then elim (record_loop m fuel getaddr answers next out.rc out.records) [
                  | none ↦ none
                  | some (rc', records', asked) ↦ some (rc', records', out.asked ++ asked)
                ]
                else some (out.rc, out.records, out.asked)
          ]
          else record_loop m fuel getaddr answers next rc records
    ]

-- `getsrv::on_event`: the code that the dispatcher is called with when the request ends here, the
-- records, and the names asked for.
unfoldable pub on_event :
    Memory
    → ℕ
    → (List ℕ → Bool)
    → List Bool
    → Header
    → Cursor
    → List Record
    → Option (Option ℕ × List Record × List (List ℕ))
on_event m fuel getaddr memory h c records =
    let (found, q, c') = skip_echo m h.qdcount c in
    elim (if found then record_loop m fuel getaddr memory c' 0 records else some (0, records, [])) [
      | none ↦ none
      | some (rc, [], asked) ↦ some (some (if isok rc then rec_srv_notfound else rc), [], asked)
      | some (rc, r ∷ rs, asked) ↦ some (none, r ∷ rs, asked)
    ]
