-- ===== src/Ghosts/Maps.antt =====
-- ghosts.go, the loops of Track one by one: what each leaves under an id.
use porthawk.Prelude.{
  ℕ, ◌≡◌, refl, sym, ap, subst, ◌∙◌, inl, inr, false, ◌||◌, not, Option, none, some, List, [], ◌∷◌,
  arith, if◌then◌else◌, ◌==◌, any, Bool-cases,
}
use porthawk.Prelude.Int.{ℤ, sub_ℕ, ltb_ℤ}
use porthawk.Prelude.Dict.{Dict, get, put, remove, has, IsMap, get-put, get-remove}
use porthawk.Go.Text.{Text, text_eq, eq_text, eq_text_iff}
use porthawk.Conn.{Conn}
use porthawk.LastOwners.{LastOwners, Procs}
use porthawk.Ghosts.{
  Ghost, established, live_id, cancel, ghost_of, promote, refresh, expire, index_rows,
}

-- The last row with the id.
unfoldable pub last_row : Text → List Conn → Option Conn
last_row id [] = none
last_row id (c ∷ live) = elim (last_row id live) [
  | some d ↦ some d
  | none ↦ if c.id == id then some c else none
]

abbrev pub or_else : {A : Type 0} → Option A → Option A → Option A
or_else (some a) b = some a
or_else none b = b

module _ (id : Text) where
  pub get-index_rows :
      (live : List Conn) (m : Dict Text Conn)
      → get id (index_rows live m) ≡ or_else (last_row id live) (get id m)
  unfolding index_rows last_row
  get-index_rows [] m = refl
  get-index_rows (c ∷ live) m =
      ground (arith, get-index_rows live (put c.id c m), get-put c.id id c m)

  pub get-cancel :
      (live : List Conn) (dead : Dict Text Ghost)
      → get id (cancel live dead) ≡ (if live_id id live then none else get id dead)
  unfolding cancel live_id any
  get-cancel [] dead = refl
  get-cancel (c ∷ live) dead =
      ground (arith, get-cancel live (remove c.id dead), get-remove c.id id dead)

  -- The ghost that an entry of the previous tick gives rise to.
  abbrev pub promoted : ℕ → List Conn → Option Conn → Option Ghost
  promoted now live none = none
  promoted now live (some c) =
      if live_id id live || not (c.state == established) then none else some (ghost_of now c)

  -- One round of the loop.
  abbrev pub round : ℕ → List Conn → Text → Conn → Dict Text Ghost → Dict Text Ghost
  round now live k c dead =
      if live_id k live || not (c.state == established)
      then dead
      else if has k dead
      then dead
      else put k (ghost_of now c) dead

  round_other :
      (now : ℕ) (live : List Conn) (k : Text) (c : Conn) (dead : Dict Text Ghost)
      → eq_text k id ≡ false
      → get id (round now live k c dead) ≡ get id dead
  round_other now live k c dead f = ground (arith, get-put k id (ghost_of now c) dead)

  round_same :
      (now : ℕ) (live : List Conn) (c : Conn) (dead : Dict Text Ghost)
      → get id (round now live id c dead) ≡ or_else (get id dead) (promoted now live (some c))
  round_same now live c dead =
      ground (arith, get-put id id (ghost_of now c) dead, eq_text_iff id id)

  or_else-none : (o : Option Ghost) → or_else o none ≡ o
  or_else-none none = refl
  or_else-none (some g) = refl

  pub get-promote :
      (now : ℕ) (live : List Conn) (prev : Dict Text Conn) (dead : Dict Text Ghost)
      → IsMap prev
      → get id (promote now live prev dead)
        ≡ or_else (get id dead) (promoted now live (get id prev))
  unfolding promote get
  get-promote now live [] dead u = sym (or_else-none (get id dead))
  get-promote now live ((k, c) ∷ prev) dead u =
      get-promote now live prev _ u.1 ∙ elim (Bool-cases (eq_text k id)) [
        | inl t ↦
            let s = (eq_text_iff k id).0 t in
            let once : get id prev ≡ none = subst (λ z. get z prev ≡ none) s u.0 in
            rw (t, once)
              (or_else-none _
                ∙ subst
                    (λ z.
                      get id (round now live z c dead)
                      ≡ or_else (get id dead) (promoted now live (some c)))
                    (sym s) (round_same now live c dead))
        | inr f ↦ rw f (
            ap (λ o. or_else o (promoted now live (get id prev))) (round_other now live k c dead f))
      ]

  -- A ghost is kept for its window.
  abbrev pub kept : Procs → LastOwners → ℕ → ℤ → Option Ghost → Option Ghost
  kept procs owners now ttl none = none
  kept procs owners now ttl (some gh) =
      if ltb_ℤ ttl (sub_ℕ now gh.since) then none else some (refresh procs owners gh)

  pub expire-none :
      (procs : Procs) (owners : LastOwners) (now : ℕ) (ttl : ℤ) (dead : Dict Text Ghost)
      → get id dead ≡ none
      → get id (expire procs owners now ttl dead) ≡ none
  unfolding expire get
  expire-none procs owners now ttl [] h = refl
  expire-none procs owners now ttl ((k, gh) ∷ dead) h =
      ground (arith, expire-none procs owners now ttl dead)

  pub get-expire :
      (procs : Procs) (owners : LastOwners) (now : ℕ) (ttl : ℤ) (dead : Dict Text Ghost)
      → IsMap dead
      → get id (expire procs owners now ttl dead) ≡ kept procs owners now ttl (get id dead)
  unfolding expire get
  get-expire procs owners now ttl [] u = refl
  get-expire procs owners now ttl ((k, gh) ∷ dead) u = ground (
    arith,
    get-expire procs owners now ttl dead u.1,
    expire-none procs owners now ttl dead,
    ap (λ z. get z dead) ((eq_text_iff k id).0 _),
  )
