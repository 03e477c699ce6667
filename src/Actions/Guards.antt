-- ===== src/Actions/Guards.antt =====
-- kill.go and elevate.go: what the guards let through.
use porthawk.Prelude.{
  ℕ, ◌/◌, ◌^◌, ◌≡◌, ◌≢◌, refl, ◌∙◌, ap, eqb_iff, ◌↔◌, ◌⊎◌, inl, inr, true, false, Option, none,
  some, List, [], ◌∷◌, arith, eqb, Bool-cases, if_both, All,
}
use porthawk.Prelude.Int.{ℤ, pos, leb_ℤ}
use porthawk.Go.Text.{Text, ne_nil}
use porthawk.Go.Text.Number.{codes}
use porthawk.Go.Netip.{Addr, v4, v6, unmap, is_unspecified}
use porthawk.Go.Netip.Parse.{parse_addr}
use porthawk.Http.{Method, get_method, post_method, other_method, Reply, json, no_content, error}
use porthawk.Actions.{
  Signal, KillBody, System, is_target, signal_of, after_kill, kill_owned, handle_kill,
  ElevateResult, run_elevated, BlockBody, ufw_args, block_target, handle_block, int_text,
  signal_flag, kill_existing, handle_kill_root,
}

-- Nothing is sent with an error before the kill; an answer without content says that the one signal
-- was delivered.
abbrev Told : System → Reply Text × List (ℤ × Signal) → Type 0
Told os (no_content, sent) = (p : ℤ) × (s : Signal) × (sent ≡ (p, s) ∷ []) × (os.kill p s ≡ none)
Told os (json t, sent) = ⊥
Told os (error code message, []) = Unit
Told os (error code message, (p, s) ∷ sent) = (sent ≡ []) × (os.kill p s ≡ some message)

-- A signal goes to a process of ours that is neither init nor a group.
abbrev pub IsOurs : System → ℤ × Signal → Type 0
IsOurs os (p, s) = (leb_ℤ p (pos 1) ≡ false) × (os.proc_uid p ≡ some os.our_uid)

abbrev pub KillsOurs : System → Reply Text × List (ℤ × Signal) → Type 0
KillsOurs os h = All (IsOurs os) h.1 × Told os h

module _ (os : System) (b : KillBody) (t : is_target b.pid ≡ true) where
  after_kill-Told :
      (r : Option Text)
      → os.kill b.pid (signal_of b.sig) ≡ r
      → Told os (after_kill r ((b.pid, signal_of b.sig) ∷ []))
  after_kill-Told none e = (b.pid, signal_of b.sig, refl, e)
  after_kill-Told (some message) e = (refl, e)

  after_kill-Ours :
      (r : Option Text)
      → os.proc_uid b.pid ≡ some os.our_uid
      → All (IsOurs os) (after_kill r ((b.pid, signal_of b.sig) ∷ [])).1
  after_kill-Ours none e = ((ground arith, e), tt)
  after_kill-Ours (some message) e = ((ground arith, e), tt)

  kill_owned-KillsOurs : (u : Option ℕ) → os.proc_uid b.pid ≡ u → KillsOurs os (kill_owned os b u)
  kill_owned-KillsOurs none e = (tt, tt)
  kill_owned-KillsOurs (some uid) e = elim (Bool-cases (eqb uid os.our_uid)) [
    | inr f ↦ rw f (tt, tt)
    | inl same ↦
        rw same (
          after_kill-Ours _ (e ∙ ap some ((eqb_iff uid os.our_uid).0 same)),
          after_kill-Told _ refl,
        )
  ]

-- Whatever the request, a signal goes to a process of our own user with a PID above 1, to no other;
-- success is answered only if the one signal was delivered, and an error after a signal is that
-- signal's error.
pub handle_kill-KillsOurs :
    (os : System) (method : Method) (body : Option KillBody)
    → KillsOurs os (handle_kill os method body)
unfolding handle_kill
handle_kill-KillsOurs os get_method body = (tt, tt)
handle_kill-KillsOurs os other_method body = (tt, tt)
handle_kill-KillsOurs os post_method none = (tt, tt)
handle_kill-KillsOurs os post_method (some b) = elim (Bool-cases (is_target b.pid)) [
  | inl t ↦ rw t (kill_owned-KillsOurs os b t (os.proc_uid b.pid) refl)
  | inr f ↦ rw f (tt, tt)
]

-- The two kinds of text for the unspecified address that IsUnspecified does not know: with a zone,
-- and mapped from IPv4.
abbrev pub IsDisguised : Addr → Type 0
IsDisguised (v4 a) = ⊥
IsDisguised (v6 a z) = ((a ≡ 0) × (z ≢ [])) ⊎ (a ≡ 0xffff00000000)

-- Of the addresses that pass the guard, exactly the disguised ones become unspecified.
IsDisguised-iff :
    (a : Addr) → is_unspecified a ≡ false → (is_unspecified (block_target a) ≡ true) ↔ IsDisguised a
unfolding is_unspecified block_target unmap
IsDisguised-iff (v4 a) h = (λ t. ground arith, λ f. absurd f)
IsDisguised-iff (v6 a z) h = elim (Bool-cases (eqb (a / 2 ^ 32) 0xffff)) [
  | inl m ↦
      rw m (
        λ t. inr (ground arith),
        λ d. elim d [ inl p ↦ ground (arith, p.0) | inr e ↦ ground arith ],
      )
  | inr n ↦ rw n (
    λ t. inl (ground (arith, ne_nil z)),
    λ d. elim d [ inl p ↦ ground (arith, p.0) | inr e ↦ ground arith ],
  )
]

-- With pkexec and ufw installed, a request to block an address that parses and passes the guard
-- runs ufw for its target, and that target is the unspecified address exactly if the text was a
-- disguise of it: `::` with a zone, or 0.0.0.0 mapped to IPv6.
pub handle_block-IsDisguised :
    (os : System) (b : BlockBody) (a : Addr)
    → os.has_pkexec ≡ true
    → os.has_ufw ≡ true
    → parse_addr b.ip ≡ some a
    → is_unspecified a ≡ false
    → ((handle_block os post_method (some b)).1 ≡ ufw_args (block_target a) b.undo ∷ [])
      × ((is_unspecified (block_target a) ≡ true) ↔ IsDisguised a)
unfolding handle_block run_elevated
handle_block-IsDisguised os b a k u e h = (rw (e, h, u, k) refl, IsDisguised-iff a h)

abbrev pub IsRootKill : System → List Text → Type 0
IsRootKill os argv =
    (p : ℤ) × (s : Signal) × (argv ≡ codes "kill" ∷ signal_flag s ∷ int_text p ∷ [])
    × (leb_ℤ p (pos 1) ≡ false)
    × ((os.proc_uid p ≡ none) → ⊥)

kill_existing-Root :
    (os : System) (b : KillBody)
    → is_target b.pid ≡ true
    → (u : Option ℕ) → os.proc_uid b.pid ≡ u
    → All (IsRootKill os) (kill_existing os b u).1
unfolding run_elevated
kill_existing-Root os b t none e = tt
kill_existing-Root os b t (some uid) e =
    if_both (λ (r : ElevateResult × List (List Text)). All (IsRootKill os) r.1) os.has_pkexec
      ((b.pid, signal_of b.sig, refl, ground arith, λ h. ground arith), tt) tt

-- A command that is run as root for a request to kill names a PID above 1 of a process that exists,
-- and nothing else from the request but the choice between two signals.
pub handle_kill_root-Existing :
    (os : System) (method : Method) (body : Option KillBody)
    → All (IsRootKill os) (handle_kill_root os method body).1
unfolding handle_kill_root run_elevated
handle_kill_root-Existing os get_method body = tt
handle_kill_root-Existing os other_method body = tt
handle_kill_root-Existing os post_method none = tt
handle_kill_root-Existing os post_method (some b) = elim (Bool-cases (is_target b.pid)) [
  | inl t ↦ rw t (kill_existing-Root os b t (os.proc_uid b.pid) refl)
  | inr f ↦ rw f tt
]
