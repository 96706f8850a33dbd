-- ===== src/StarHandler/StreamTable.antt =====
-- internal/handler/star/streamtable.go: which stream is carried by which session. A session is named
-- by a number, as is an entry's place in memory (`ref`), where its two counters are kept. The time is
-- an argument. Each method is one step, since all of them hold the table's lock.
pub mod Invariant
pub mod Disconnect
pub mod Listing
use rain_net.Common.{
  ℕ, ◌+◌, ◌%◌, ◌^◌, Option, none, some, List, [], ◌∷◌, ◌++◌, map, ltb, nat_beq, if◌then◌else◌,
  length, Str, codes, ◌==◌, nat_eq, str_eq, Result, ok, err,
}
use rain_net.Common.Maps.{Map, lookup, insert, erase}
use rain_net.Star.Handshake.{RegisterStreamReq}

pub record StreamEntry : Type 0 where
  pub ref : ℕ
  pub assign_id : ℕ
  pub client_proxy_name : Str
  pub stream_id : Str
  pub client : ℕ
  pub since : ℕ

pub record Traffic : Type 0 where
  pub in_bytes : ℕ
  pub out_bytes : ℕ

abbrev pub stream_key : Str → Str → Str
stream_key client_proxy_name stream_id = client_proxy_name ++ (b'/' ∷ stream_id)

abbrev pub entry_key : StreamEntry → Str
entry_key e = stream_key e.client_proxy_name e.stream_id

pub record StreamTable : Type 0 where
  pub seq : ℕ
  pub by_id : Map ℕ StreamEntry
  pub by_stream_id : Map Str StreamEntry
  pub allocated : ℕ
  pub traffic : Map ℕ Traffic

unfoldable pub new_stream_table : StreamTable
new_stream_table = record { seq = 0; by_id = []; by_stream_id = []; allocated = 0; traffic = [] }

abbrev pub already_registered : Str → Str
already_registered key = codes "stream " ++ (key ++ codes " already registered")

-- `t.seq++` on a uint32.
abbrev pub next_id : ℕ → ℕ
next_id n = (n + 1) % 2 ^ 32

abbrev pub new_entry : StreamTable → ℕ → ℕ → RegisterStreamReq → StreamEntry
new_entry t now client req = record {
  ref = t.allocated;
  assign_id = next_id t.seq;
  client_proxy_name = req.client_proxy_name;
  stream_id = req.stream_id;
  client = client;
  since = now;
}

abbrev pub enter : StreamTable → StreamEntry → StreamTable
enter t e = record {
  seq = e.assign_id;
  by_id = insert e.assign_id e t.by_id;
  by_stream_id = insert (entry_key e) e t.by_stream_id;
  allocated = t.allocated + 1;
  traffic = insert e.ref (record { in_bytes = 0; out_bytes = 0 }) t.traffic;
}

unfoldable pub assign : StreamTable → ℕ → ℕ → RegisterStreamReq → StreamTable × Result Str ℕ
assign t now client req =
    let key = stream_key req.client_proxy_name req.stream_id in
    elim (lookup key t.by_stream_id) [
      | some _ ↦ (t, err (already_registered key))
      | none ↦ (enter t (new_entry t now client req), ok (next_id t.seq))
    ]

unfoldable pub get : StreamTable → ℕ → Option StreamEntry
get t assign_id = lookup assign_id t.by_id

unfoldable pub get_by_name : StreamTable → Str → Str → Option StreamEntry
get_by_name t client_proxy_name stream_id =
    lookup (stream_key client_proxy_name stream_id) t.by_stream_id

abbrev pub drop_entry : StreamTable → ℕ → StreamEntry → StreamTable
drop_entry t id e = record t {
  by_id = erase id t.by_id;
  by_stream_id = erase (entry_key e) t.by_stream_id;
}

unfoldable pub remove : StreamTable → ℕ → StreamTable
remove t assign_id = elim (lookup assign_id t.by_id) [
  | none ↦ t
  | some e ↦ drop_entry t assign_id e
]

-- The loop over `t.byID`: `items` is what it has not reached yet.
unfoldable pub remove_each : ℕ → List (ℕ × StreamEntry) → StreamTable × ℕ → StreamTable × ℕ
remove_each client [] acc = acc
remove_each client ((id, e) ∷ items) acc =
    remove_each client items
      (if nat_beq e.client client then (drop_entry acc.0 id e, acc.1 + 1) else acc)

unfoldable pub remove_by_client : StreamTable → ℕ → StreamTable × ℕ
remove_by_client t client = remove_each client t.by_id (t, 0)

unfoldable pub len : StreamTable → ℕ
len t = length t.by_id

-- sort.Slice by `assignID`.
unfoldable pub insert_entry : StreamEntry → List StreamEntry → List StreamEntry
insert_entry e [] = e ∷ []
insert_entry e (x ∷ xs) = if ltb e.assign_id x.assign_id then e ∷ x ∷ xs else x ∷ insert_entry e xs

unfoldable pub sort_entries : List StreamEntry → List StreamEntry
sort_entries [] = []
sort_entries (e ∷ es) = insert_entry e (sort_entries es)

abbrev pub values : Map ℕ StreamEntry → List StreamEntry
values [] = []
values ((id, e) ∷ m) = e ∷ values m

unfoldable pub named : Str → List StreamEntry → List StreamEntry
named name [] = []
named name (e ∷ es) = if e.client_proxy_name == name then e ∷ named name es else named name es

unfoldable pub find_by_client_proxy : StreamTable → Str → List StreamEntry
find_by_client_proxy t client_proxy_name = sort_entries (named client_proxy_name (values t.by_id))

pub record StreamStat : Type 0 where
  pub assign_id : ℕ
  pub client_proxy_name : Str
  pub stream_id : Str
  pub since : ℕ
  pub in_bytes : ℕ
  pub out_bytes : ℕ

abbrev pub counters : StreamTable → StreamEntry → Traffic
counters t e = elim (lookup e.ref t.traffic) [
  | none ↦ record { in_bytes = 0; out_bytes = 0 }
  | some c ↦ c
]

abbrev pub stat_of : StreamTable → StreamEntry → StreamStat
stat_of t e = record {
  assign_id = e.assign_id;
  client_proxy_name = e.client_proxy_name;
  stream_id = e.stream_id;
  since = e.since;
  in_bytes = (counters t e).in_bytes;
  out_bytes = (counters t e).out_bytes;
}

unfoldable pub snapshot : StreamTable → List StreamStat
snapshot t = map (stat_of t) (sort_entries (values t.by_id))

-- OutBytes.Add and InBytes.Add of one entry, on a uint64.
unfoldable pub add_out : StreamTable → StreamEntry → ℕ → StreamTable
add_out t e n =
    let c = counters t e in
    record t {
      traffic = insert e.ref (record c { out_bytes = (c.out_bytes + n) % 2 ^ 64 }) t.traffic;
    }

unfoldable pub add_in : StreamTable → StreamEntry → ℕ → StreamTable
add_in t e n =
    let c = counters t e in
    record t {
      traffic = insert e.ref (record c { in_bytes = (c.in_bytes + n) % 2 ^ 64 }) t.traffic;
    }
