-- ===== src/Server/Restart.antt =====
-- main.go, listen and loadToken over restarts: the address of the page stays.
use porthawk.Prelude.{
  ℕ, zero, suc, ◌+◌, ◌*◌, ◌-◌, ◌≤◌, ◌<◌, ◌≡◌, refl, sym, ap, ◌∙◌, ◌⊎◌, inl, inr, Bool, true, Option,
  none, some, List, [], ◌∷◌, arith, leb, length, Option-cases, if_both, if_true, if_cases, subst,
}
use porthawk.Prelude.Int.{ℤ, pos, negsuc}
use porthawk.Go.Text.{Text}
use porthawk.Go.Text.Number.{itoa, atoi}
use porthawk.Go.Text.Digits.{atoi-itoa}
use porthawk.Server.Listen.{
  min_port, max_port, local_addr, in_range, saved_port, Listening, try_ports, listen_saved, listen,
  hex_encode, make_token, load_token,
}

-- A local port in the range, under the address and in the file.
pub record IsLocal (l : Listening) (port : ℕ) : Type 0 where
  pub at_port : l.at ≡ some (local_addr port)
  pub in_file : saved_port l.file ≡ some port
  pub low : min_port ≤ port
  pub high : port ≤ max_port

abbrev Outcome : Listening → Type 0
Outcome l = (l.at ≡ none) ⊎ ((port : ℕ) × IsLocal l port)

in_range-eq :
    (o : Option ℤ) (port : ℕ) → in_range o ≡ some port → (min_port ≤ port) × (port ≤ max_port)
in_range-eq none port h = cc
in_range-eq (some (negsuc n)) port h = cc
in_range-eq (some (pos n)) port h = ground (arith, h)

saved_port-range :
    (file : Option Text) (port : ℕ)
    → saved_port file ≡ some port
    → (min_port ≤ port) × (port ≤ max_port)
unfolding saved_port
saved_port-range none port h = cc
saved_port-range (some b) port h = in_range-eq (atoi b) port h

saved_port-itoa :
    (port : ℕ) → min_port ≤ port → port ≤ max_port → saved_port (some (itoa port)) ≡ some port
unfolding saved_port
saved_port-itoa port low high =
    rw (atoi-itoa port (omega (arith, high))) (ground (arith, low, high))

relisten :
    (bind : Text → Bool) (draw : ℕ → Option ℕ) (can_write : Bool) (l : Listening) (port : ℕ)
    → IsLocal l port
    → bind (local_addr port) ≡ true
    → listen bind draw can_write [] l.file ≡ l
unfolding listen listen_saved
relisten bind draw can_write l port local free =
    let again : Listening = record { at = some (local_addr port); file = l.file } in
    ap (λ o. listen_saved bind draw can_write o l.file) local.in_file
    ∙ if_true (bind (local_addr port)) again (try_ports bind draw can_write 200 l.file) free
    ∙ ap (λ a. record { at = a; file = l.file }) (sym local.at_port)

-- rand.Int draws below the span.
abbrev IsDraw : (ℕ → Option ℕ) → Type 0
IsDraw draw = (i n : ℕ) → draw i ≡ some n → n < max_port - min_port + 1

module _ (bind : Text → Bool) (draw : ℕ → Option ℕ) (can_write : Bool) (below : IsDraw draw) where
  try_ports-Outcome :
      (tries : ℕ) (file : Option Text) → Outcome (try_ports bind draw can_write tries file)
  unfolding try_ports
  try_ports-Outcome zero file = inl refl
  try_ports-Outcome (suc tries) file = elim (Option-cases (draw tries)) [
    | inl e ↦ rw (e, try_ports) (inl refl)
    | inr (n, e) ↦
        let port = min_port + n in
        let less = below tries n e in
        rw (e, try_ports)
          (if_both Outcome (bind (local_addr port))
            (if_both Outcome can_write
              (inr (
                port,
                record {
                  at_port = refl;
                  in_file = saved_port-itoa port (omega arith) (omega (arith, less));
                  low = omega arith;
                  high = omega (arith, less);
                },
              ))
              (inl refl))
            (try_ports-Outcome tries file))
  ]

  listen-Outcome : (file : Option Text) → Outcome (listen bind draw can_write [] file)
  unfolding listen listen_saved
  listen-Outcome file = elim (Option-cases (saved_port file)) [
    | inl e ↦ rw (e, listen_saved) (try_ports-Outcome 200 file)
    | inr (port, e) ↦
        let range = saved_port-range file port e in
        rw (e, listen_saved)
          (if_both Outcome (bind (local_addr port))
            (inr (port, record { at_port = refl; in_file = e; low = range.0; high = range.1 }))
            (try_ports-Outcome 200 file))
  ]

  -- A start without an address of its own either listens on nothing, or on a port of this machine
  -- between 61000 and 65535; and then any later start finds that port in the file and listens on it
  -- again, as long as it is free then, whatever else is and whatever it would draw.
  pub listen-IsStable :
      (file : Option Text)
      → let l = listen bind draw can_write [] file in
        (l.at ≡ none)
        ⊎ ((port : ℕ) × IsLocal l port
            × ((bind_later : Text → Bool) (draw_later : ℕ → Option ℕ) (write_later : Bool)
                → bind_later (local_addr port) ≡ true
                → listen bind_later draw_later write_later [] l.file ≡ l))
  listen-IsStable file = elim (listen-Outcome file) [
    | inl e ↦ inl e
    | inr (port, local) ↦ inr (
      port,
      local,
      λ bind_later draw_later write_later free.
          relisten bind_later draw_later write_later (listen bind draw can_write [] file) port local
            free,
    )
  ]

-- The token is in the file, and long enough for the next start.
abbrev IsKept : Option (Text × Option Text) → Type 0
IsKept none = Unit
IsKept (some (tok, after)) = (after ≡ some tok) × (leb 32 (length tok) ≡ true)

length-hex_encode : (raw : List ℕ) → length (hex_encode raw) ≡ 2 * length raw
unfolding hex_encode
length-hex_encode [] = refl
length-hex_encode (b ∷ raw) = omega (arith, length-hex_encode raw)

abbrev IsRaw : Option (List ℕ) → Type 0
IsRaw none = Unit
IsRaw (some raw) = length raw ≡ 32

make_token-IsKept :
    (random : Option (List ℕ)) (can_write : Bool)
    → IsRaw random
    → IsKept (make_token random can_write)
unfolding make_token
make_token-IsKept none can_write h = tt
make_token-IsKept (some raw) can_write h =
    if_both IsKept can_write (refl, ground (arith, h, length-hex_encode raw)) tt

load_token-IsKept :
    (random : Option (List ℕ)) (can_write : Bool) (file : Option Text)
    → IsRaw random
    → IsKept (load_token random can_write file)
unfolding load_token
load_token-IsKept random can_write none h = make_token-IsKept random can_write h
load_token-IsKept random can_write (some b) h =
    if_cases IsKept (leb 32 (length b)) (λ long. (refl, long))
      (λ short. make_token-IsKept random can_write h)

-- Whatever the token file holds: the token that a start reads, or makes of 32 random bytes, is the
-- token of every later start.
load_token-IsStable :
    (random : Option (List ℕ)) (can_write : Bool) (file : Option Text) (tok : Text)
    → (after : Option Text) → IsRaw random
    → load_token random can_write file ≡ some (tok, after)
    → (random_later : Option (List ℕ)) (write_later : Bool)
    → load_token random_later write_later after ≡ some (tok, after)
unfolding load_token
load_token-IsStable random can_write file tok after h e random_later write_later =
    let kept = subst IsKept e (load_token-IsKept random can_write file h) in
    rw (kept.0, kept.1) refl
