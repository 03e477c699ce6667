-- ===== src/Geo/Cached.antt =====
-- geo.go: the caches change no answer.
use porthawk.Prelude.{
  ◌≡◌, refl, sym, subst, ap, ◌∙◌, inl, inr, Bool, true, false, Option, none, some, [],
  if◌then◌else◌, Bool-cases, Option-cases, ◌==◌,
}
use porthawk.Prelude.Dict.{Dict, get, put, get-put}
use porthawk.Go.Text.{Text, Unicode}
use porthawk.Go.Text.Number.{codes}
use porthawk.Go.Netip.{Addr, addr_eq, eq_addr_iff, is_unspecified, is_loopback}
use porthawk.Geo.{
  Geo, Atlas, lines_are_vpn, route_is_vpn, flag_of, is_local, country_of, remote_lookup, geo_lookup,
}

module _ (u : Unicode) (atlas : Atlas) where
  -- The caches hold what the machine and the library answer.
  pub record IsSound (g : Geo) : Type 0 where
    pub vpn_sound :
        (a : Addr) (v : Bool) → get a g.vpn ≡ some v → v ≡ lines_are_vpn u (atlas.route a)
    pub country_sound :
        (a : Addr) (v : Text × Text) → get a g.country ≡ some v → v ≡ flag_of (atlas.ip_country a)

  abbrev remote_label : Addr → Bool → Text × Text
  remote_label a vpn =
      if vpn
      then ([], codes "🛡")
      else if is_local a
      then ([], codes "🏠")
      else flag_of (atlas.ip_country a)

  -- The label of an address by the machine and the library alone.
  abbrev pub label : Option Addr → Text × Text
  label none = ([], [])
  label (some a) =
      if is_unspecified a
      then ([], [])
      else if is_loopback a
      then ([], codes "🔁")
      else remote_label a (lines_are_vpn u (atlas.route a))

  some_eq : {A : Type 0} {x y : A} → some x ≡ some y → x ≡ y
  some_eq e = cc

  put_sound :
      {V : Type 0} (f : Addr → V) (a : Addr) (m : Dict Addr V)
      → ((b : Addr) (v : V) → get b m ≡ some v → v ≡ f b)
      → (b : Addr) (v : V) → get b (put a (f a) m) ≡ some v
      → v ≡ f b
  put_sound f a m h b v e = elim (Bool-cases (a == b)) [
    | inl q ↦ sym (some_eq (rw (get-put a b (f a) m, q) at e)) ∙ ap f ((eq_addr_iff a b).0 q)
    | inr q ↦ h b v (rw (get-put a b (f a) m, q) at e)
  ]

  route_is_vpn-IsSound :
      (a : Addr) (g : Geo)
      → IsSound g
      → ((route_is_vpn u atlas a g).0 ≡ lines_are_vpn u (atlas.route a))
        × IsSound (route_is_vpn u atlas a g).1
  unfolding route_is_vpn
  route_is_vpn-IsSound a g s = elim (Option-cases (get a g.vpn)) [
    | inl e ↦
        rw (e, route_is_vpn)
          (
            refl,
            record {
              vpn_sound = put_sound (λ b. lines_are_vpn u (atlas.route b)) a g.vpn s.vpn_sound;
              country_sound = s.country_sound;
            },
          )
    | inr (v, e) ↦ rw (e, route_is_vpn) (s.vpn_sound a v e, s)
  ]

  country_of-IsSound :
      (a : Addr) (g : Geo)
      → IsSound g
      → ((country_of atlas a g).0 ≡ flag_of (atlas.ip_country a)) × IsSound (country_of atlas a g).1
  unfolding country_of
  country_of-IsSound a g s = elim (Option-cases (get a g.country)) [
    | inl e ↦
        rw (e, country_of)
          (
            refl,
            record {
              vpn_sound = s.vpn_sound;
              country_sound =
                  put_sound (λ b. flag_of (atlas.ip_country b)) a g.country s.country_sound;
            },
          )
    | inr (v, e) ↦ rw (e, country_of) (s.country_sound a v e, s)
  ]

  -- The answer is the label, and the caches stay sound.
  abbrev IsLabel : Text × Text → (Text × Text) × Geo → Type 0
  IsLabel l (answer, g) = (answer ≡ l) × IsSound g

  remote_lookup-IsLabel :
      (a : Addr) (vpn : Bool) (g : Geo)
      → IsSound g
      → IsLabel (remote_label a vpn) (remote_lookup atlas a (vpn, g))
  unfolding remote_lookup
  remote_lookup-IsLabel a true g s = (refl, s)
  remote_lookup-IsLabel a false g s = elim (Bool-cases (is_local a)) [
    | inl e ↦ rw e (refl, s)
    | inr e ↦ rw e (country_of-IsSound a g s)
  ]

  -- While the routes stay and the caches hold what was answered before, geoLookup gives each address
  -- the label that it would have without any cache, and the caches stay so.
  pub geo_lookup-IsLabel :
      (o : Option Addr) (g : Geo) → IsSound g → IsLabel (label o) (geo_lookup u atlas o g)
  unfolding geo_lookup
  geo_lookup-IsLabel none g s = (refl, s)
  geo_lookup-IsLabel (some a) g s = elim (Bool-cases (is_unspecified a)) [
    | inl e ↦ rw e (refl, s)
    | inr e ↦ elim (Bool-cases (is_loopback a)) [
      | inl l ↦ rw (e, l) (refl, s)
      | inr l ↦
          let (vpn, h) = route_is_vpn u atlas a g in
          let r = route_is_vpn-IsSound a g s in
          rw (e, l)
            (subst (λ v. IsLabel (remote_label a v) (remote_lookup atlas a (vpn, h))) r.0
              (remote_lookup-IsLabel a vpn h r.1))
    ]
  ]
