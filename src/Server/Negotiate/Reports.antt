-- ===== src/Server/Negotiate/Reports.antt =====
-- What health reports leave in the database.
use meshezia.Server.Negotiate.DirectProbe.{mode_text}
use meshezia.Server.Db.{is_link, LinkRow, peer_by_id, Db}
use meshezia.Shared.Types.{relay, direct, Mode, HealthReport}
use meshezia.Server.Negotiate.Health.{
  bit, link_of_report, put_link, upsert_link, save_reports, upsert_reports,
}
use meshezia.Common.{
  ◌&&◌, codes, Bool, text_eq, ◌∙◌, ℕ, Text, text_eq_iff, true, false, Option, none, some, List, [],
  ◌∷◌, ◌≡◌, refl, arith, inl, inr, Option-cases, Bool-cases, if◌then◌else◌, In, find, is_some,
}

upsert_link_unknown :
    (db : Db) (new : LinkRow) → peer_by_id db new.to_peer_id ≡ none → upsert_link db new ≡ none
unfolding upsert_link
upsert_link_unknown db new e = ground arith

peer_by_id-upsert_link :
    (db db' : Db) (new : LinkRow) (id : Text)
    → upsert_link db new ≡ some db'
    → peer_by_id db' id ≡ peer_by_id db id
unfolding upsert_link peer_by_id
peer_by_id-upsert_link db db' new id e = ground arith

upsert_reports_unknown :
    (now : ℕ) (from : Text) (reports : List HealthReport) (db : Db) (report : HealthReport)
    → In report reports
    → peer_by_id db report.peer_id ≡ none
    → upsert_reports now from reports db ≡ none
unfolding upsert_reports link_of_report
upsert_reports_unknown now from [] db report i e = absurd i
upsert_reports_unknown now from (r ∷ rs) db report (inl same) e =
    rw (upsert_link_unknown db (link_of_report now from r) (rw (← same) e), upsert_reports)
upsert_reports_unknown now from (r ∷ rs) db report (inr i) e =
    elim (Option-cases (upsert_link db (link_of_report now from r))) [
      | inl failed ↦ rw (failed, upsert_reports)
      | inr (db', saved) ↦
          rw (saved, upsert_reports)
            (upsert_reports_unknown now from rs db' report i
              (peer_by_id-upsert_link db db' (link_of_report now from r) report.peer_id saved ∙ e))
    ]

-- One report about a peer that is not in the database makes the whole batch fail, and the database
-- stays as it was: none of the other reports is saved either.
pub save_reports_unknown :
    (now : ℕ) (from : Text) (reports : List HealthReport) (db : Db) (report : HealthReport)
    → In report reports
    → peer_by_id db report.peer_id ≡ none
    → save_reports now from reports db ≡ db
unfolding save_reports
save_reports_unknown now from reports db report i e =
    rw (upsert_reports_unknown now from reports db report i e, save_reports)

-- The forced mode of a row, if there is one.
abbrev pub forced_of : Option LinkRow → Option Text
forced_of none = none
forced_of (some l) = l.forced_mode

is_link_trans :
    (f t : Text) (new l : LinkRow)
    → is_link new.from_peer_id new.to_peer_id l ≡ true
    → is_link f t l ≡ is_link f t new
unfolding is_link
is_link_trans f t new l h =
    ground
      (arith, text_eq_iff l.from_peer_id new.from_peer_id, text_eq_iff l.to_peer_id new.to_peer_id)

put_link_moved :
    (f t : Text) (new : LinkRow) (mode : Option Text)
    → is_link f t (record new { forced_mode = mode }) ≡ is_link f t new
unfolding is_link
put_link_moved f t new mode = refl

-- A row of another link is not of the link that the new row is of.
is_link_apart :
    (f t : Text) (new l : LinkRow)
    → is_link new.from_peer_id new.to_peer_id l ≡ false
    → is_link f t new ≡ true
    → is_link f t l ≡ false
unfolding is_link
is_link_apart f t new l h k = ground (
  arith,
  text_eq_iff l.from_peer_id new.from_peer_id,
  text_eq_iff l.to_peer_id new.to_peer_id,
  text_eq_iff new.from_peer_id f,
  text_eq_iff new.to_peer_id t,
  text_eq_iff l.from_peer_id f,
  text_eq_iff l.to_peer_id t,
)

-- A saved report is what is found for its link, with the forced mode that the link had before, and
-- every other link is found as before.
find-put_link :
    (new : LinkRow) (f t : Text) (ls : List LinkRow)
    → new.forced_mode ≡ none
    → find (is_link f t) (put_link new ls) ≡ (
        if is_link f t new
        then some (record new { forced_mode = forced_of (find (is_link f t) ls) })
        else find (is_link f t) ls)
unfolding put_link
find-put_link new f t [] e = ground arith
find-put_link new f t (l ∷ ls) e = elim (Bool-cases (is_link new.from_peer_id new.to_peer_id l)) [
  | inl same ↦
      rw same (ground (arith, is_link_trans f t new l same, put_link_moved f t new l.forced_mode))
  | inr other ↦ rw other (ground (arith, find-put_link new f t ls e, is_link_apart f t new l other))
]

upsert_link_known :
    (db : Db) (new : LinkRow)
    → is_some (peer_by_id db new.from_peer_id) ≡ true
    → is_some (peer_by_id db new.to_peer_id) ≡ true
    → upsert_link db new ≡ some (record db { peer_links = put_link new db.peer_links })
unfolding upsert_link
upsert_link_known db new here there = rw (here, there) refl

upsert_reports_known :
    (now : ℕ) (from : Text) (report : HealthReport) (db : Db)
    → is_some (peer_by_id db from) ≡ true
    → is_some (peer_by_id db report.peer_id) ≡ true
    → upsert_reports now from (report ∷ []) db
      ≡ some (record db { peer_links = put_link (link_of_report now from report) db.peer_links })
unfolding upsert_reports
upsert_reports_known now from report db here there =
    rw (upsert_link_known db (link_of_report now from report) here there, upsert_reports) refl

save_reports_known :
    (now : ℕ) (from : Text) (report : HealthReport) (db : Db)
    → is_some (peer_by_id db from) ≡ true
    → is_some (peer_by_id db report.peer_id) ≡ true
    → (save_reports now from (report ∷ []) db).peer_links
      ≡ put_link (link_of_report now from report) db.peer_links
unfolding save_reports
save_reports_known now from report db here there =
    rw (upsert_reports_known now from report db here there, save_reports) refl

abbrev pub link_mode : Mode → Text
link_mode direct = codes "direct"
link_mode relay = codes "relay"

-- The row of the link that a report is about, column by column, given the mode forced on it.
abbrev pub reported : (now : ℕ) → (from : Text) → HealthReport → Option Text → LinkRow
reported now from report forced_mode = record {
  from_peer_id = from;
  to_peer_id = report.peer_id;
  mode = link_mode report.mode;
  direct_alive = if report.rx_alive then 1 else 0;
  relay_alive = if report.relay_alive then 1 else 0;
  probing_direct = if report.probing_direct then 1 else 0;
  rx_bytes = report.rx_bytes;
  tx_bytes = report.tx_bytes;
  last_handshake = report.last_handshake;
  endpoint = report.endpoint;
  if_name = report.if_name;
  routing_table = report.routing_table;
  updated_at = now;
  forced_mode = forced_mode;
}

link_of_report-reported :
    (now : ℕ) (from : Text) (report : HealthReport) (forced_mode : Option Text)
    → ◌≡◌ {A = LinkRow}
        (record (link_of_report now from report) { forced_mode = forced_mode })
        (reported now from report forced_mode)
unfolding link_of_report mode_text
link_of_report-reported now from report forced_mode =
    columns report.mode report.rx_alive report.relay_alive report.probing_direct
  where
    columns :
        (mode : Mode) (rx_alive relay_alive probing : Bool)
        → ◌≡◌ {A = LinkRow}
            (record (reported now from report forced_mode) {
              mode = mode_text mode;
              direct_alive = bit rx_alive;
              relay_alive = bit relay_alive;
              probing_direct = bit probing;
            })
            (record (reported now from report forced_mode) {
              mode = link_mode mode;
              direct_alive = if rx_alive then 1 else 0;
              relay_alive = if relay_alive then 1 else 0;
              probing_direct = if probing then 1 else 0;
            })
    columns mode rx_alive relay_alive probing = ground arith

-- A batch of exactly one report whose two peers are in the database is saved: the link from the
-- sender to the peer of the report is found with every column as the report has it (`direct` or
-- `relay`, 1 or 0 for what is alive, the counts and texts, the time) and with the forced mode that
-- it had before, and every other link as before.
pub save_report_found :
    (now : ℕ) (from : Text) (report : HealthReport) (db : Db) (f t : Text)
    → is_some (peer_by_id db from) ≡ true
    → is_some (peer_by_id db report.peer_id) ≡ true
    → find (is_link f t) (save_reports now from (report ∷ []) db).peer_links ≡ (
        if text_eq from f && text_eq report.peer_id t
        then some (reported now from report (forced_of (find (is_link f t) db.peer_links)))
        else find (is_link f t) db.peer_links)
unfolding link_of_report is_link
save_report_found now from report db f t here there =
    rw
      (
        save_reports_known now from report db here there,
        ← link_of_report-reported now from report (forced_of (find (is_link f t) db.peer_links)),
      )
      (find-put_link (link_of_report now from report) f t db.peer_links refl)
