-- ===== src/StarHandler/CtrlProxy/Clients.antt =====
-- internal/handler/star/ctrlproxy.go: the clients that are online, under their sessions.
use rain_net.Common.{
  ℕ, ◌≡◌, refl, ◌⊎◌, inl, inr, List, [], ◌∷◌, if◌then◌else◌, Bool-cases, length, All, Str, str_beq,
  str_beq_iff, nat_eq, str_eq,
}
use rain_net.Common.Maps.{Map, insert, erase}
use rain_net.StarHandler.StreamTable.{StreamTable, find_by_client_proxy}

-- clientInfo, what handleConn enters for its session.
pub record Online : Type 0 where
  pub name : Str
  pub identity : Str
  pub remote : Str
  pub since : ℕ

pub record ClientInfo : Type 0 where
  pub name : Str
  pub identity : Str
  pub remote : Str
  pub since : ℕ
  pub streams : ℕ

unfoldable pub enter_client : Map ℕ Online → ℕ → Online → Map ℕ Online
enter_client clients session info = insert session info clients

unfoldable pub leave_client : Map ℕ Online → ℕ → Map ℕ Online
leave_client clients session = erase session clients

-- With the number of the streams of each client's identity.
unfoldable pub clients_of : StreamTable → List (ℕ × Online) → List ClientInfo
clients_of t [] = []
clients_of t ((session, info) ∷ items) =
    record {
      name = info.name;
      identity = info.identity;
      remote = info.remote;
      since = info.since;
      streams = length (find_by_client_proxy t info.identity);
    }
    ∷ clients_of t items

-- The sessions that Kick closes; it returns how many they are.
unfoldable pub kick : Str → List (ℕ × Online) → List ℕ
kick name [] = []
kick name ((session, info) ∷ items) =
    let rest = kick name items in if str_beq info.identity name then session ∷ rest else rest

-- One of the sessions of a list is online under the identity.
abbrev pub IsOnline : Str → List (ℕ × Online) → ℕ → Type 0
IsOnline name [] session = ⊥
IsOnline name ((s, info) ∷ items) session =
    ((s ≡ session) × (info.identity ≡ name)) ⊎ IsOnline name items session

weaken-IsOnline :
    (name : Str) (s : ℕ) (info : Online) (items : List (ℕ × Online)) (sessions : List ℕ)
    → All (IsOnline name items) sessions
    → All (IsOnline name ((s, info) ∷ items)) sessions
weaken-IsOnline name s info items [] all = tt
weaken-IsOnline name s info items (x ∷ xs) all =
    (inr all.0, weaken-IsOnline name s info items xs all.1)

-- Kick closes only sessions that are online under the identity.
pub kick-IsOnline :
    (name : Str) (items : List (ℕ × Online)) → All (IsOnline name items) (kick name items)
unfolding kick
kick-IsOnline name [] = tt
kick-IsOnline name ((s, info) ∷ items) =
    let rest = weaken-IsOnline name s info items (kick name items) (kick-IsOnline name items) in
    elim (Bool-cases (str_beq info.identity name)) [
      | inl t ↦ rw t (inl (refl, (str_beq_iff info.identity name).0 t), rest)
      | inr t ↦ rw t rest
    ]
