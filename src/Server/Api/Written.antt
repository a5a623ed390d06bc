-- ===== src/Server/Api/Written.antt =====
-- Every write to the database, from the empty one on.
use meshezia.Server.Api.Confined.{handle-Touches}
use meshezia.Server.Api.Touched.{may}
use meshezia.Server.Negotiate.Force.{set_forced_mode}
use meshezia.Server.Reaper.{delete_peers}
use meshezia.Shared.Types.{HealthReport}
use meshezia.Server.Api.Apart.{Change-are_apart, filter-are_apart, are_apart}
use meshezia.Server.Negotiate.Health.{link_of_report, upsert_reports, upsert_link, save_reports}
use meshezia.Common.{
  ℕ, Text, true, Option, some, List, [], ◌∷◌, ◌≡◌, refl, ap, ◌∙◌, arith, inl, inr, Option-cases,
}
use meshezia.Server.Db.{LinkRow, Db, PeerRow, delete_peer}
use meshezia.Server.State.{Server}
use meshezia.Server.Api.Reply.{Caller}
use meshezia.Server.Api.Routes.{Outside, Request, handle}

-- The writes to the database: a request's, a report's, a forced mode's and the reaper's.
pub data Write (db : Db) : Db → Type 0 where
  served :
      (o : Outside) (c : Caller) (r : Request) (s : Server)
      → s.db ≡ db
      → Write db (handle o c r s).1.db
  reported :
      (now : ℕ) (from : Text) (reports : List HealthReport)
      → Write db (save_reports now from reports db)
  imposed : (a b : Text) (mode : Option Text) → Write db (set_forced_mode a b mode db)
  reaped : (rows : List PeerRow) → Write db (delete_peers rows db)

pub data Written : Db → Type 0 where
  empty : Written (record { networks = []; peers = []; peer_ports = []; peer_links = [] })
  after : (db db' : Db) → Written db → Write db db' → Written db'

upsert_link-peers :
    (db : Db) (row : LinkRow) (db' : Db) → upsert_link db row ≡ some db' → db'.peers ≡ db.peers
unfolding upsert_link
upsert_link-peers db row db' e = ground arith

upsert_reports-peers :
    (now : ℕ) (from : Text) (reports : List HealthReport) (db db' : Db)
    → upsert_reports now from reports db ≡ some db'
    → db'.peers ≡ db.peers
unfolding upsert_reports
upsert_reports-peers now from [] db db' e = ground arith
upsert_reports-peers now from (r ∷ rs) db db' e =
    elim (Option-cases (upsert_link db (link_of_report now from r))) [
      | inl failed ↦ ground arith
      | inr (saved, first) ↦ ground (
        arith,
        upsert_reports-peers now from rs saved db',
        upsert_link-peers db (link_of_report now from r) saved first,
      )
    ]

save_reports-peers :
    (now : ℕ) (from : Text) (reports : List HealthReport) (db : Db)
    → (save_reports now from reports db).peers ≡ db.peers
unfolding save_reports
save_reports-peers now from reports db = elim (Option-cases (upsert_reports now from reports db)) [
  | inl failed ↦ ground arith
  | inr (saved, e) ↦ ground (arith, upsert_reports-peers now from reports db saved e)
]

delete_peers-are_apart :
    (rows : List PeerRow) (db : Db)
    → are_apart db.peers ≡ true
    → are_apart (delete_peers rows db).peers ≡ true
unfolding delete_peers delete_peer
delete_peers-are_apart [] db h = h
delete_peers-are_apart (row ∷ rows) db h =
    delete_peers-are_apart rows (delete_peer db row.id) (filter-are_apart _ db.peers h)

Write-are_apart :
    (db db' : Db) → Write db db' → are_apart db.peers ≡ true → are_apart db'.peers ≡ true
unfolding set_forced_mode
Write-are_apart db _ (served o c r s e) h =
    let before : are_apart s.db.peers ≡ true = ap (λ (d : Db). are_apart d.peers) e ∙ h in
    Change-are_apart (may c s.db) s.db.peers _ (handle-Touches o c r s before) before
Write-are_apart db _ (reported now from reports) h =
    ap are_apart (save_reports-peers now from reports db) ∙ h
Write-are_apart db _ (imposed a b mode) h = h
Write-are_apart db _ (reaped rows) h = delete_peers-are_apart rows db h

-- However the database is written, from the empty one on and by requests, reports, forced modes and
-- the reaper in any order, no two peers share an id, and no two peers of a network share a mesh
-- address or a name.
pub Written-are_apart : (db : Db) → Written db → are_apart db.peers ≡ true
Written-are_apart _ empty = refl
Written-are_apart _ (after db db' w x) = Write-are_apart db db' x (Written-are_apart db w)
