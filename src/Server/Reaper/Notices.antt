-- ===== src/Server/Reaper/Notices.antt =====
-- The notices of the reaper touch nothing but the outbox.
use meshezia.Common.{Text, List, [], ◌∷◌, ◌≡◌, refl, ◌∙◌, ap, text_eq, filter}
use meshezia.Common.Dict.{Dict}
use meshezia.Shared.Types.{peer_removed}
use meshezia.Server.Db.{PeerRow}
use meshezia.Server.State.{Server, send_text_to_peer}
use meshezia.Server.Reaper.{notify_each, notify_ids, notify_networks}

-- All of `t` but the outbox is as in `s`.
abbrev pub OnlySends : Server → Server → Type 0
OnlySends s t = t ≡ record s { outbox = t.outbox }

OnlySends-trans : (s t u : Server) → OnlySends s t → OnlySends t u → OnlySends s u
OnlySends-trans s t u p q = q ∙ ap (λ (r : Server). record r { outbox = u.outbox }) p

notify_each-OnlySends :
    (id : Text) (peers : List PeerRow) (s : Server) → OnlySends s (notify_each id peers s)
unfolding notify_each send_text_to_peer
notify_each-OnlySends id [] s = refl
notify_each-OnlySends id (peer ∷ rest) s =
    notify_each-OnlySends id rest (send_text_to_peer s peer.id (peer_removed id))

notify_ids-OnlySends :
    (ids : List Text) (peers : List PeerRow) (s : Server) → OnlySends s (notify_ids ids peers s)
unfolding notify_ids
notify_ids-OnlySends [] peers s = refl
notify_ids-OnlySends (id ∷ ids) peers s =
    OnlySends-trans s (notify_each id peers s) _ (notify_each-OnlySends id peers s)
      (notify_ids-OnlySends ids peers (notify_each id peers s))

pub notify_networks-OnlySends :
    (by_network : Dict (List Text)) (s : Server) → OnlySends s (notify_networks by_network s)
unfolding notify_networks
notify_networks-OnlySends [] s = refl
notify_networks-OnlySends ((network_id, ids) ∷ rest) s =
    let remaining = filter (λ (p : PeerRow). text_eq p.network_id network_id) s.db.peers in
    OnlySends-trans s (notify_ids ids remaining s) _ (notify_ids-OnlySends ids remaining s)
      (notify_networks-OnlySends rest (notify_ids ids remaining s))
