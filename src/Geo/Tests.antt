-- ===== src/Geo/Tests.antt =====
-- Tests of the labels.
use porthawk.Prelude.{◌≡◌, refl, true, any}
use porthawk.Go.Text.{ascii, fields, eq_text, has_prefix, to_lower}
use porthawk.Go.Text.Number.{codes}
use porthawk.Go.Netip.{addr_eq}
use porthawk.Geo.{flag_of, line_is_vpn}

swiss : flag_of (codes "CH") ≡ (codes "CH", codes "🇨🇭")
swiss = refl

tunnel : line_is_vpn ascii (codes "9.9.9.9 dev tun0 table 7") ≡ true
unfolding line_is_vpn fields eq_text any has_prefix to_lower
tunnel = refl
