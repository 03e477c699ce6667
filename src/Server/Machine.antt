-- ===== src/Server/Machine.antt =====
-- conns.go over procinfo.go and geo.go: the two functions of Kernel that Scan calls for names.
mod Tests
use porthawk.Prelude.{◌≡◌, refl, ap₂, Option, List, [], ◌∷◌, map}
use porthawk.Prelude.Int.{ℤ}
use porthawk.Go.Text.{Text, Unicode}
use porthawk.Go.Netip.{Addr}
use porthawk.Scanner.{Kernel}
use porthawk.AppNames
use porthawk.AppNames.{ProcFiles}
use porthawk.Geo.{Geo, Atlas, geo_lookup}
use porthawk.Geo.Cached.{IsSound, label, geo_lookup-IsLabel}

module _ (u : Unicode) (atlas : Atlas) where
  -- A kernel whose names are those of appIdentity and geoLookup.
  unfoldable pub with_names : (ℤ → ProcFiles) → Kernel → Kernel
  with_names files k = record k {
    app_identity = λ pid comm. AppNames.app_identity u pid comm (files pid);
    geo_lookup = label u atlas;
  }

  -- The calls of geoLookup for the rows of a scan, one after the other, with the caches.
  unfoldable pub geo_lookups : List (Option Addr) → Geo → List (Text × Text) × Geo
  geo_lookups [] g = ([], g)
  geo_lookups (a ∷ addrs) g =
      let (v, h) = geo_lookup u atlas a g in let (rest, i) = geo_lookups addrs h in (v ∷ rest, i)

  -- While the routes stay and the caches hold what was answered before, the rows of any number of
  -- scans get with the caches the labels that the kernel's function gives them without, and the
  -- caches stay so.
  pub geo_lookups-with_names :
      (files : ℤ → ProcFiles) (k : Kernel) (addrs : List (Option Addr)) (g : Geo)
      → IsSound u atlas g
      → ((geo_lookups addrs g).0 ≡ map (with_names files k).geo_lookup addrs)
        × IsSound u atlas (geo_lookups addrs g).1
  unfolding geo_lookups with_names
  geo_lookups-with_names files k [] g s = (refl, s)
  geo_lookups-with_names files k (a ∷ addrs) g s =
      let here = geo_lookup-IsLabel u atlas a g s in
      let rest = geo_lookups-with_names files k addrs (geo_lookup u atlas a g).1 here.1 in
      (ap₂ (λ v vs. v ∷ vs) here.0 rest.0, rest.1)
