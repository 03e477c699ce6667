-- ===== src/Actions/Tests.antt =====
-- Tests of kill.go and elevate.go on concrete requests.
use porthawk.Go.Netip.Print.{addr_text}
use porthawk.Prelude.{
  ℕ, ◌≡◌, refl, ◌↔◌, true, false, Option, none, some, [], ◌∷◌, eqb, if◌then◌else◌,
}
use porthawk.Prelude.Int.{ℤ, pos}
use porthawk.Go.Text.{eq_text}
use porthawk.Go.Text.Number.{codes, itoa}
use porthawk.Go.Netip.{Addr, v6, is_unspecified, unmap}
use porthawk.Go.Netip.Parse.{parse_addr}
use porthawk.Http.{post_method}
use porthawk.Actions.{
  sigterm, KillBody, succeeded, System, handle_kill, BlockBody, ufw_args, block_target,
  handle_block, run_elevated,
}
use porthawk.Actions.Guards.{
  KillsOurs, handle_kill-KillsOurs, IsDisguised, handle_block-IsDisguised,
}

abbrev uid_of : ℤ → Option ℕ
uid_of (pos n) = if eqb n 42 then some 1000 else some 0
uid_of _ = none

abbrev os : System
os = record {
  our_uid = 1000;
  proc_uid = uid_of;
  kill = λ pid signal. none;
  has_pkexec = true;
  has_ufw = true;
  run = λ argv. ([], succeeded);
}

abbrev ours : KillBody
ours = record { pid = pos 42; sig = codes "term" }

abbrev roots : KillBody
roots = record { pid = pos 41; sig = codes "kill" }

kills_ours : (handle_kill os post_method (some ours)).1 ≡ (pos 42, sigterm) ∷ []
unfolding handle_kill eq_text
kills_ours = refl

spares_roots : (handle_kill os post_method (some roots)).1 ≡ []
unfolding handle_kill
spares_roots = refl

handle_kill-KillsOurs_example : KillsOurs os (handle_kill os post_method (some ours))
handle_kill-KillsOurs_example = handle_kill-KillsOurs os post_method (some ours)

abbrev mapped : BlockBody
mapped = record { ip = codes "::ffff:0.0.0.0"; undo = false }

abbrev mapped_addr : Addr
mapped_addr = v6 0xffff00000000 []

-- The firewall is told to deny everything that goes to 0.0.0.0.
blocks_unspecified :
    (handle_block os post_method (some mapped)).1
    ≡ (codes "ufw"
        ∷ codes "insert"
        ∷ codes "1"
        ∷ codes "deny"
        ∷ codes "out"
        ∷ codes "to"
        ∷ codes "0.0.0.0"
        ∷ [])
      ∷ []
unfolding handle_block parse_addr is_unspecified run_elevated ufw_args addr_text block_target unmap
    itoa
blocks_unspecified = refl

handle_block-IsDisguised_example :
    ((handle_block os post_method (some mapped)).1
      ≡ ufw_args (block_target mapped_addr) mapped.undo ∷ [])
    × ((is_unspecified (block_target mapped_addr) ≡ true) ↔ IsDisguised mapped_addr)
unfolding parse_addr is_unspecified
handle_block-IsDisguised_example =
    handle_block-IsDisguised os mapped mapped_addr refl refl refl refl
