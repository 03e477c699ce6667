-- ===== src/Server/Privacy.antt =====
-- main.go, broadcastLoop: which addresses a tick may ask for.
use porthawk.Prelude.{
  ℕ, ◌≡◌, refl, ap, ◌∙◌, inl, inr, ◌⊎◌, Bool, true, false, Option, none, some, List, [], ◌∷◌, arith,
  eqb, Bool-cases, Option-cases, ◌&&◌, if_both, ap₂, if_true, eqb_iff,
}
use porthawk.Prelude.Dict.{get, get-put}
use porthawk.Go.Text.{Text, Unicode, text_eq, is_empty, eq_text, eq_text_iff}
use porthawk.Conn.{Conn}
use porthawk.Lookups.{Lookups, request}
use porthawk.Rules.{Rules}
use porthawk.Rules.Match.{alias_for}
use porthawk.Dns.{Resolver}
use porthawk.Owner.{Owner, owner_addr, find, name_or_ask}
use porthawk.Scanner.Rows.{scan}
use porthawk.Scanner.{Scanner}
use porthawk.Ifaces.{name}
use porthawk.Server.Tick.{
  Snapshot, Names, Daemon, World, Named, name_end, name_row, name_rows, enrich, tick,
}
use porthawk.Traffic.Udp.{apply_udp}
use porthawk.Dns
use porthawk.Owner
use porthawk.Traffic.Tcp

-- Is the address waiting for an answer, of the resolver and of the ownership service?
abbrev pub asked : Text → Resolver → Owner → Option Bool × Option Bool
asked a r o = (get a r.lookups.queued, get a o.lookups.queued)

get-request :
    (a ip : Text) (on : Bool) (q : Lookups)
    → eq_text ip a ≡ false
    → get a (request on ip q).queued ≡ get a q.queued
unfolding request
get-request a ip on q h = ground (arith, get-put ip a true q.queued)

module _ (a ip : Text) (now : ℕ) (other : eq_text ip a ≡ false) where
  dns-asks : (r : Resolver) → get a (Dns.lookup now ip r).1.lookups.queued ≡ get a r.lookups.queued
  unfolding Dns.lookup
  dns-asks r =
      if_both (λ (s : Text × Resolver). get a s.1.lookups.queued ≡ get a r.lookups.queued)
        (Dns.is_no_peer ip) refl (go (Dns.cached now (get ip r.cache)))
    where
      go :
          (o : Option Text)
          → get a (Dns.answer_or_ask o ip r).1.lookups.queued ≡ get a r.lookups.queued
      go none = get-request a ip r.enabled r.lookups other
      go (some host) = refl

  owner-asks : (o : Owner) → get a (Owner.lookup now ip o).1.lookups.queued ≡ get a o.lookups.queued
  unfolding Owner.lookup
  owner-asks o = elim (Option-cases (owner_addr ip)) [
    | inl e ↦ rw (e, Owner.lookup) refl
    | inr (b, e) ↦ rw (e, Owner.lookup) (go (find now b o))
  ]
    where
      go :
          (found : Option _)
          → get a (name_or_ask found ip o).1.lookups.queued ≡ get a o.lookups.queued
      go none = get-request a ip o.enabled o.lookups other
      go (some (p, e)) = refl

-- The state of the two queues for the address, after naming an end.
abbrev asks_of : Text → Named → Option Bool × Option Bool
asks_of a (names, r, o) = asked a r o

-- The address is another one, or it has an alias.
abbrev Spared : Text → Text → Text → Type 0
Spared a ip alias = (is_empty alias ≡ false) ⊎ (eq_text ip a ≡ false)

name_end-asks :
    (a : Text) (now : ℕ) (ip alias iface host owner : Text) (r : Resolver) (o : Owner)
    → Spared a ip alias
    → asks_of a (name_end now ip alias iface ((host, owner), r, o)) ≡ asked a r o
unfolding name_end
name_end-asks a now ip alias iface host owner r o (inl pinned) = rw pinned refl
name_end-asks a now ip alias iface host owner r o (inr other) =
    let dns = dns-asks a ip now other r in
    if_both (λ n. asks_of a n ≡ asked a r o) (is_empty alias && is_empty iface)
      (if_both (λ n. asks_of a n ≡ asked a r o) (is_empty (Dns.lookup now ip r).0)
        (ap₂ (λ x y. (x, y)) dns (owner-asks a ip now other o)) (ap₂ (λ x y. (x, y)) dns refl))
      refl

-- The state of the two queues for the address, as the rows are named.
abbrev pub asks : Text → Names → Option Bool × Option Bool
asks a n = asked a n.resolver n.owner

module _ (a : Text) (rules : Rules) (pinned : is_empty (alias_for rules a) ≡ false) where
  spared : (ip : Text) → Spared a ip (alias_for rules ip)
  spared ip = elim (Bool-cases (eq_text ip a)) [
    | inl e ↦ inl (rw ((eq_text_iff ip a).0 e) pinned)
    | inr e ↦ inr e
  ]

  name_row-asks : (w : World) (c : Conn) (n : Names) → asks a (name_row rules w c n).1 ≡ asks a n
  unfolding name_row
  name_row-asks w c n =
      let iface = (name w.table w.now c.raddr n.ifaces).0 in
      let liface = (name w.table w.now c.laddr (name w.table w.now c.raddr n.ifaces).1).0 in
      let remote =
        name_end w.now c.raddr (alias_for rules c.raddr) iface
          ((c.host, c.owner), n.resolver, n.owner) in
      name_end-asks a w.now c.laddr (alias_for rules c.laddr) liface c.lhost c.lowner remote.1
        remote.2 (spared c.laddr)
      ∙ name_end-asks a w.now c.raddr (alias_for rules c.raddr) iface c.host c.owner n.resolver
          n.owner (spared c.raddr)

  name_rows-asks :
      (u : Unicode) (w : World) (conns : List Conn) (n : Names)
      → asks a (name_rows u rules w conns n).1 ≡ asks a n
  unfolding name_rows
  name_rows-asks u w [] n = refl
  name_rows-asks u w (c ∷ conns) n =
      name_rows-asks u w conns (name_row rules w c n).1 ∙ name_row-asks w c n

-- What a tick leaves of the names is what the enrichment leaves.
tick-names :
    (u : Unicode) (w : World) (d : Daemon)
    → (conns : List Conn) × (sc : Scanner) × ((tick u w d).1.names
        ≡ (enrich u w conns (record d { scanner = sc })).1.names)
unfolding tick
tick-names u w d =
    let (conns, sc) = scan w.kernel d.scanner in
    (
      conns,
      sc,
      if_both
          (λ (r : Option Snapshot × Daemon).
            r.1.names ≡ (enrich u w conns (record d { scanner = sc })).1.names)
          (eqb d.clients 0) refl refl,
    )

-- Either the address has an alias, or no client is connected.
abbrev IsSpared : Daemon → Text → Type 0
IsSpared d a = (is_empty (alias_for d.rules a) ≡ false) ⊎ (d.clients ≡ 0)

enrich-asks :
    (u : Unicode) (w : World) (d : Daemon) (a : Text) (conns : List Conn) (sc : Scanner)
    → IsSpared d a
    → asks a (enrich u w conns (record d { scanner = sc })).1.names ≡ asks a d.names
unfolding enrich
enrich-asks u w d a conns sc (inl pinned) =
    if_both (λ (r : List Conn × Daemon). asks a r.1.names ≡ asks a d.names) (eqb d.clients 0) refl
      (name_rows-asks a d.rules pinned u w
        (apply_udp w.dump w.now (Tcp.apply w.ss w.now conns d.tcp).0 d.udp).0 d.names)
enrich-asks u w d a conns sc (inr nobody) =
    ap (λ (r : List Conn × Daemon). asks a r.1.names)
      (if_true (eqb d.clients 0) _ _ ((eqb_iff d.clients 0).1 nobody))

-- An address that the user has given an alias, by itself or by a range that holds it, is in no tick
-- put into a queue of the resolver or the ownership service; and while no client is connected, no
-- tick asks for any address.
pub tick-asks :
    (u : Unicode) (w : World) (d : Daemon) (a : Text)
    → IsSpared d a
    → asks a (tick u w d).1.names ≡ asks a d.names
tick-asks u w d a h =
    let (conns, sc, e) = tick-names u w d in ap (asks a) e ∙ enrich-asks u w d a conns sc h
