-- ===== src/Server/Tick.antt =====
-- main.go, broadcastLoop: one tick, over the scanner, the counters, the names, the ghosts and the
-- rules. The clock stands still while the rows of one tick are named.
use porthawk.Prelude.{
  ℕ, ◌&&◌, Bool, true, Option, none, some, List, [], ◌∷◌, ◌++◌, map, eqb, if◌then◌else◌, length,
  take, drop,
}
use porthawk.Prelude.Int.{ℤ}
use porthawk.Prelude.Dict.{Dict}
use porthawk.Go.Text.{Text, Unicode, is_empty}
use porthawk.Conn.{Conn}
use porthawk.Scanner.{Scanner, Kernel}
use porthawk.Scanner.Rows.{scan, app}
use porthawk.Rules.{Rules}
use porthawk.Rules.Match.{alias_for, apply}
use porthawk.Ghosts.{Ghosts, Moment, track}
use porthawk.Dns.{Resolver}
use porthawk.Owner.{Owner, prefix}
use porthawk.Ifaces.{Ifaces, Table, name}
use porthawk.Traffic.Tcp.{TcpStats}
use porthawk.Traffic.Udp.{UdpStats, UdpCounters, apply_udp, why_unavailable}
use porthawk.Traffic.Udp.Keys.{UdpKey}
use porthawk.Traffic.Hogs.{ProcStat, Hogs, Sum, snapshot}
use porthawk.Go.Float.{is_finite}
use porthawk.Settings.{seconds_of}
use porthawk.Dns
use porthawk.Owner
use porthawk.Traffic.Tcp

-- What names the ends of a row.
pub record Names : Type 0 where
  pub ifaces : Ifaces
  pub resolver : Resolver
  pub owner : Owner

-- The components that a tick works on.
pub record Daemon : Type 0 where
  pub scanner : Scanner
  pub tcp : TcpStats
  pub udp : UdpStats
  pub names : Names
  pub rules : Rules
  pub ghosts : Ghosts
  pub hogs : Hogs
  pub clients : ℕ

-- What the machine answers during one tick.
pub record World : Type 0 where
  pub kernel : Kernel
  pub ss : Option (List Text)
  pub dump : Option (List (UdpKey × UdpCounters))
  pub table : Table
  pub now : ℕ
  pub moment : Moment

-- The host and the owner of an end, with the resolver and the owner's state.
abbrev pub Named : Type 0
Named = (Text × Text) × Resolver × Owner

abbrev ask_owner : ℕ → Text → Text → Text × Resolver → Owner → Named
ask_owner now ip old (host, r) o =
    let (owner, p) = Owner.lookup now ip o in
    if is_empty host then ((host, owner), r, p) else ((host, old), r, o)

-- `if alias == "" && iface == "" { host = …; if host == "" { owner = … } }`
unfoldable pub name_end : ℕ → Text → Text → Text → Named → Named
name_end now ip alias iface ((host, owner), r, o) =
    if is_empty alias && is_empty iface
    then ask_owner now ip owner (Dns.lookup now ip r) o
    else ((host, owner), r, o)

-- The body of the loop over the rows, before the rules are applied.
unfoldable pub name_row : Rules → World → Conn → Names → Conn × Names
unfolding name_end
name_row rules w c n =
    let (iface, f) = name w.table w.now c.raddr n.ifaces in
    let (liface, g) = name w.table w.now c.laddr f in
    let alias = alias_for rules c.raddr in
    let ((host, owner), r, o) =
      name_end w.now c.raddr alias iface ((c.host, c.owner), n.resolver, n.owner) in
    let lalias = alias_for rules c.laddr in
    let ((lhost, lowner), s, p) =
      name_end w.now c.laddr lalias liface ((c.lhost, c.lowner), r, o) in
    (
      record c {
        iface = iface;
        liface = liface;
        alias = alias;
        host = host;
        owner = owner;
        pfx = prefix w.now c.raddr o;
        lalias = lalias;
        lhost = lhost;
        lowner = lowner;
      },
      record { ifaces = g; resolver = s; owner = p },
    )

unfoldable pub name_rows : Unicode → Rules → World → List Conn → Names → List Conn × Names
unfolding name_row
name_rows u rules w [] n = ([], n)
name_rows u rules w (c ∷ conns) n =
    let (d, m) = name_row rules w c n in
    let (rest, k) = name_rows u rules w conns m in (apply u rules d ∷ rest, k)

-- The enrichment, which is done only while a client is connected.
unfoldable pub enrich : Unicode → World → List Conn → Daemon → List Conn × Daemon
unfolding name_rows
enrich u w conns d =
    let (with_tcp, tcp) = Tcp.apply w.ss w.now conns d.tcp in
    let (with_udp, udp) = apply_udp w.dump w.now with_tcp d.udp in
    let (named, names) = name_rows u d.rules w with_udp d.names in
    if eqb d.clients 0
    then (conns, d)
    else (named, record d { tcp = tcp; udp = udp; names = names })

-- `for i := nLive; i < len(conns); i++ { s.rules.Apply(&conns[i]) }`
abbrev pub reapply : Unicode → Rules → ℕ → List Conn → List Conn
reapply u rules live conns = take live conns ++ map (apply u rules) (drop live conns)

-- The processes with their applications.
unfoldable pub label_procs : Kernel → Dict ℤ ProcStat → Scanner → Dict ℤ ProcStat × Scanner
label_procs k [] s = ([], s)
label_procs k ((pid, p) ∷ procs) s =
    let (a, t) = app k pid s in
    let labelled : (ℤ × ProcStat) × Scanner =
      if is_empty p.app then ((pid, record p { app = a }), t) else ((pid, p), s) in
    let (rest, v) = label_procs k procs labelled.1 in (labelled.0 ∷ rest, v)

-- Snapshot, the fields that the components give.
pub record Snapshot : Type 0 where
  pub dns : Bool
  pub owner : Bool
  pub totals : Sum
  pub udp_acct : Bool
  pub udp_why : Text
  pub ghost_ttl : ℤ
  pub attr_blocked : ℕ
  pub hogs_why : Text
  pub procs : Dict ℤ ProcStat
  pub conns : List Conn

-- What is sent to the clients, and the scanner with its caches.
unfoldable pub snapshot_of : Unicode → World → ℕ → List Conn → Daemon → Snapshot × Scanner
unfolding label_procs
snapshot_of u w live conns d =
    let (stats, totals) = snapshot d.hogs in
    let (procs, sc) = label_procs w.kernel stats d.scanner in
    (
      record {
        dns = d.names.resolver.enabled;
        owner = d.names.owner.enabled;
        totals = totals;
        udp_acct = d.udp.avail;
        udp_why = why_unavailable (some d.udp);
        ghost_ttl = seconds_of d.ghosts.ttl;
        attr_blocked = sc.blocked;
        hogs_why = d.hogs.why;
        procs = procs;
        conns = reapply u d.rules live conns;
      },
      sc,
    )

-- json.Marshal refuses NaN and the infinities.
unfoldable pub finite_procs : Dict ℤ ProcStat → Bool
finite_procs [] = true
finite_procs ((pid, p) ∷ procs) =
    is_finite p.sent
    && is_finite p.recv
    && is_finite p.sent_rate.amount
    && is_finite p.recv_rate.amount
    && finite_procs procs

unfoldable pub can_marshal : Snapshot → Bool
unfolding finite_procs
can_marshal s = is_finite s.totals.sent && is_finite s.totals.recv && finite_procs s.procs

-- One round of broadcastLoop: what is sent, if a client is connected and the snapshot can be encoded,
-- and the components after it.
unfoldable pub tick : Unicode → World → Daemon → Option Snapshot × Daemon
unfolding enrich snapshot_of can_marshal
tick u w d =
    let (conns, sc) = scan w.kernel d.scanner in
    let (rows, e) = enrich u w conns (record d { scanner = sc }) in
    let (all, ghosts) = track w.moment rows e.ghosts in
    let f : Daemon = record e { ghosts = ghosts } in
    let (snap, labelled) = snapshot_of u w (length rows) all f in
    let sent : Option Snapshot = if can_marshal snap then some snap else none in
    if eqb d.clients 0 then (none, f) else (sent, record f { scanner = labelled })
