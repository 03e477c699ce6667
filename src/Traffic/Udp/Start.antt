-- ===== src/Traffic/Udp/Start.antt =====
-- udpstats.go, NewUDPStats: loading and attaching the program. The kernel's answers are values.
use porthawk.Prelude.{
  ◌≡◌, ◌↔◌, Bool, true, false, Option, none, some, List, [], ◌∷◌, ◌++◌, arith, not, keep, any,
}
use porthawk.Go.Text.{Text}
use porthawk.Go.Text.Number.{codes}
use porthawk.Traffic.Udp.{UdpStats, first_line, why_unavailable}

-- What loadUdpObjects returns: one of the errors that the source tells apart, with its text.
pub data LoadError : Type 0 where
  not_permitted : LoadError
  verifier : Text → LoadError
  other : Text → LoadError

abbrev why_not_loaded : LoadError → Text
why_not_loaded not_permitted =
    codes "not permitted to load eBPF — the binary needs the "
    ++ codes "cap_bpf and cap_perfmon capabilities (`make install` grants them)"
why_not_loaded (verifier e) = codes "the kernel rejected the program: " ++ first_line e
why_not_loaded (other e) = codes "cannot load the program: " ++ first_line e

abbrev probes : List Text
probes = codes "udp_sendmsg" ∷ codes "udpv6_sendmsg" ∷ codes "skb_consume_udp" ∷ []

-- strings.Join(ws, ", ")
unfoldable join_names : List Text → Text
join_names [] = []
join_names (w ∷ []) = w
join_names (w ∷ v ∷ ws) = w ++ 44 ∷ 32 ∷ join_names (v ∷ ws)

abbrev unprimed : Bool → Text → UdpStats
unprimed avail why = record {
  avail = avail;
  why = why;
  prev = [];
  cum = [];
  primed = false;
  last = none;
}

why_not_attached : List Text → Text
unfolding join_names
why_not_attached failed =
    codes "cannot attach to the kernel's UDP path ("
    ++ join_names failed
    ++ codes ") — needs CAP_BPF and CAP_PERFMON"

attached : List Text → List Text → UdpStats
unfolding why_not_attached
attached [] failed = unprimed false (why_not_attached failed)
attached (l ∷ links) failed = unprimed true []

-- NewUDPStats, by the error of loading and by which probes attach.
unfoldable new_udp_stats : Option LoadError → (Text → Bool) → UdpStats
unfolding attached
new_udp_stats (some e) attach = unprimed false (why_not_loaded e)
new_udp_stats none attach = attached (keep attach probes) (keep (λ p. not (attach p)) probes)

-- UDP accounting starts exactly if the program loads and one of its probes attaches; and a reason
-- is given exactly if it does not.
new_udp_stats-Explained :
    (e : Option LoadError) (attach : Text → Bool)
    → (((new_udp_stats e attach).avail ≡ true) ↔ ((e ≡ none) × (any attach probes ≡ true)))
      × (((new_udp_stats e attach).avail ≡ true)
          ↔ (why_unavailable (some (new_udp_stats e attach)) ≡ []))
unfolding new_udp_stats attached why_unavailable keep any
new_udp_stats-Explained none attach = ground arith
new_udp_stats-Explained (some not_permitted) attach = ((λ h. cc, λ h. cc), (λ h. cc, λ h. cc))
new_udp_stats-Explained (some (verifier e)) attach = ((λ h. cc, λ h. cc), (λ h. cc, λ h. cc))
new_udp_stats-Explained (some (other e)) attach = ((λ h. cc, λ h. cc), (λ h. cc, λ h. cc))
