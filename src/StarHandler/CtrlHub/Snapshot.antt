-- ===== src/StarHandler/CtrlHub/Snapshot.antt =====
-- internal/handler/star/ctrl_hub.go: SnapshotConns, the list of the connections by their numbers.
use rain_net.Common.{
  ℕ, ◌≤◌, inl, inr, none, some, List, [], ◌∷◌, arith, ltb, if◌then◌else◌, Bool-cases, All, Str,
  nat_eq, str_eq,
}
use rain_net.Common.Maps.{Map, lookup}
use rain_net.StarHandler.CtrlHub.{CtrlHub, ConnEntry}

pub record ConnStat : Type 0 where
  pub conn_id : ℕ
  pub stream_assign_id : ℕ
  pub client_proxy_name : Str
  pub stream_id : Str
  pub opened_at : ℕ

abbrev pub conn_stat : ConnEntry → ConnStat
conn_stat e = record {
  conn_id = e.conn_id;
  stream_assign_id = e.stream_id;
  client_proxy_name = e.stream.client_proxy_name;
  stream_id = e.stream.stream_id;
  opened_at = e.opened_at;
}

-- The loop over the map.
unfoldable pub conn_stats : List (ℕ × ℕ) → Map ℕ ConnEntry → List ConnStat
conn_stats [] heap = []
conn_stats ((id, ref) ∷ items) heap =
    let rest = conn_stats items heap in
    elim (lookup ref heap) [ none ↦ rest | some e ↦ conn_stat e ∷ rest ]

-- sort.Slice by `ConnID`.
unfoldable pub insert_stat : ConnStat → List ConnStat → List ConnStat
insert_stat s [] = s ∷ []
insert_stat s (x ∷ xs) =
    let rest = insert_stat s xs in if ltb s.conn_id x.conn_id then s ∷ x ∷ xs else x ∷ rest

unfoldable pub sort_stats : List ConnStat → List ConnStat
sort_stats [] = []
sort_stats (s ∷ ss) = insert_stat s (sort_stats ss)

unfoldable pub snapshot_conns : CtrlHub → List ConnStat
snapshot_conns h = sort_stats (conn_stats h.conns h.heap)

abbrev pub IsAscending : List ConnStat → Type 0
IsAscending [] = Unit {0}
IsAscending (s ∷ ss) = All (λ x. s.conn_id ≤ x.conn_id) ss × IsAscending ss

insert_stat-All :
    (n : ℕ) (s : ConnStat) (ss : List ConnStat)
    → n ≤ s.conn_id
    → All (λ x. n ≤ x.conn_id) ss
    → All (λ x. n ≤ x.conn_id) (insert_stat s ss)
unfolding insert_stat
insert_stat-All n s [] b all = (b, tt)
insert_stat-All n s (x ∷ xs) b all = elim (Bool-cases (ltb s.conn_id x.conn_id)) [
  | inl t ↦ rw t (b, all)
  | inr t ↦ rw t (all.0, insert_stat-All n s xs b all.1)
]

All-weaken :
    (m n : ℕ) (ss : List ConnStat)
    → m ≤ n
    → All (λ x. n ≤ x.conn_id) ss
    → All (λ x. m ≤ x.conn_id) ss
All-weaken m n [] b all = tt
All-weaken m n (x ∷ xs) b all = (omega (arith, b, all.0), All-weaken m n xs b all.1)

insert_stat-IsAscending :
    (s : ConnStat) (ss : List ConnStat) → IsAscending ss → IsAscending (insert_stat s ss)
unfolding insert_stat
insert_stat-IsAscending s [] a = (tt, tt)
insert_stat-IsAscending s (x ∷ xs) a = elim (Bool-cases (ltb s.conn_id x.conn_id)) [
  | inl t ↦
      let below : s.conn_id ≤ x.conn_id = ground (arith, t) in
      rw t ((below, All-weaken s.conn_id x.conn_id xs below a.0), a)
  | inr t ↦
      rw t
        (insert_stat-All x.conn_id s xs (ground (arith, t)) a.0, insert_stat-IsAscending s xs a.1)
]

sort_stats-IsAscending : (ss : List ConnStat) → IsAscending (sort_stats ss)
unfolding sort_stats
sort_stats-IsAscending [] = tt
sort_stats-IsAscending (s ∷ ss) =
    insert_stat-IsAscending s (sort_stats ss) (sort_stats-IsAscending ss)

-- The list is in the order of the connections' numbers, however the map is gone through.
pub snapshot_conns-IsAscending : (h : CtrlHub) → IsAscending (snapshot_conns h)
unfolding snapshot_conns
snapshot_conns-IsAscending h = sort_stats-IsAscending (conn_stats h.conns h.heap)
