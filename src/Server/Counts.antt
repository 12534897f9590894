-- ===== src/Server/Counts.antt =====
-- server/server.go with server/clients.go: how many connections hold a registration.
use remote_mouse.Common.{
  ℕ, zero, suc, ◌+◌, ◌<◌, ◌^◌, Option, none, some, List, [], ◌∷◌, ◌++◌, ◌≡◌, arith, get_elem?, set,
  ◌==◌, if◌then◌else◌,
}
use remote_mouse.Clients.{Client, ClientRegistry, lookup}
use remote_mouse.Clients.Registry.{IsSound}
use remote_mouse.Server.{Conn, Phase, ready}

-- 1 if the phase holds the registration `id`.
abbrev pub holds : ℕ → Phase → ℕ
holds id (ready (some cid)) = if cid == id then 1 else 0
holds id _ = 0

-- How many connections hold the registration `id`.
abbrev pub online : ℕ → List Conn → ℕ
online id [] = 0
online id (c ∷ cs) = holds id c.phase + online id cs

abbrev pub flag : Option Client → ℕ
flag none = 0
flag (some c) = 1

pub online-append :
    (id : ℕ) (cs ds : List Conn) → online id (cs ++ ds) ≡ online id cs + online id ds
online-append id [] ds = omega arith
online-append id (c ∷ cs) ds = omega (arith, online-append id cs ds)

pub online-set :
    (id : ℕ) (cs : List Conn) (i : ℕ) (c d : Conn)
    → get_elem? cs i ≡ some c
    → online id (set cs i d) + holds id c.phase ≡ online id cs + holds id d.phase
online-set id [] i c d e = cc
online-set id (x ∷ cs) zero c d e = ground arith
online-set id (x ∷ cs) (suc i) c d e = omega (arith, online-set id cs i c d e)

-- The registry, if there is one, holds an id just if one connection does, and no two hold one id.
abbrev pub Agrees : Option ClientRegistry → List Conn → Type 0
Agrees none cs = (id : ℕ) → online id cs ≡ 0
Agrees (some r) cs = IsSound r × ((id : ℕ) → online id cs ≡ flag (lookup id r.clients))

-- Ids that are still free.
abbrev pub Room : ℕ → Option ClientRegistry → Type 0
Room n none = Unit
Room n (some r) = r.next_id + n < 2 ^ 64
