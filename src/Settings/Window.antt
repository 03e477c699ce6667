-- ===== src/Settings/Window.antt =====
-- main.go: the window that a number of seconds gives, and what a restart makes of it.
use porthawk.Prelude.{
  ℕ, ◌+◌, ◌-◌, ◌*◌, ◌/◌, ◌<◌, ◌≤◌, ◌≡◌, refl, ◌∙◌, ap, Bool, true, false, Option, none, some, [],
  arith, min, sym, subst, inl, inr, List, ◌∷◌, All, any, Bool-cases, ◌==◌, if◌then◌else◌,
}
use porthawk.Prelude.Int.{ℤ, pos, negsuc, ◌*ℤ◌, wrap_int64}
use porthawk.Prelude.Dict.{Dict, get, put, IsMap}
use porthawk.Go.Text.{Text, Unicode, text_eq, eq_text, eq_text_iff, equal_fold, equal_fold_refl}
use porthawk.Go.Json.{
  Value, null, flag, integer, text, other, Members, read_field, into_map, sort_members,
}
use porthawk.Go.Json.Laws.{
  into_map-IsMap, into_map-All, sort_members-All, any-sort_members, read_field-skip,
  read_field-take,
}
use porthawk.Go.Text.Number.{codes}
use porthawk.Http.{post_method, no_content}
use porthawk.LastOwners.{second}
use porthawk.Ghosts.{Ghosts, clamp_ghost_ttl, set_ttl}
use porthawk.Settings.{
  Config, seconds_of, window_of, to_flag, to_integer, load_prefs, save_pref, handle_ghost_ttl,
}

product : (n : ℕ) → pos n *ℤ pos second ≡ pos (n * second)
unfolding ◌*ℤ◌
product n = ground arith

negative_product : (n : ℕ) → negsuc n *ℤ pos second ≡ negsuc (n * second + 999999999)
unfolding ◌*ℤ◌
negative_product n = ground arith

wrap_small : (m : ℕ) → m < 9223372036854775808 → wrap_int64 (pos m) ≡ pos m
unfolding wrap_int64
wrap_small m h = ground arith

wrap_large :
    (m : ℕ)
    → 9223372036854775808 ≤ m
    → m < 18446744073709551616
    → wrap_int64 (pos m) ≡ negsuc (18446744073709551615 - m)
unfolding wrap_int64
wrap_large m h k = ground arith

wrap_negative : (m : ℕ) → m < 9223372036854775808 → wrap_int64 (negsuc m) ≡ negsuc m
unfolding wrap_int64
wrap_negative m h = ground arith

clamp_pos : (m : ℕ) → clamp_ghost_ttl (pos m) ≡ pos (min m 600000000000)
unfolding clamp_ghost_ttl
clamp_pos m = ground arith

clamp_negative : (m : ℕ) → clamp_ghost_ttl (negsuc m) ≡ pos 0
unfolding clamp_ghost_ttl
clamp_negative m = ground arith

-- Without a wrap the window is the number of seconds, cut at ten minutes.
window_of-small : (n : ℕ) → n ≤ 9223372036 → window_of (pos n) ≡ pos (min n 600 * second)
unfolding window_of
window_of-small n h =
    ap clamp_ghost_ttl (ap wrap_int64 (product n) ∙ wrap_small (n * second) (omega (arith, h)))
    ∙ clamp_pos (n * second)
    ∙ ground arith

window_of-negative : (n : ℕ) → n < 9223372036 → window_of (negsuc n) ≡ pos 0
unfolding window_of
window_of-negative n h =
    ap clamp_ghost_ttl (
      ap wrap_int64 (negative_product n)
      ∙ wrap_negative (n * second + 999999999) (omega (arith, h)))
    ∙ clamp_negative (n * second + 999999999)

window_of-wrapped : (n : ℕ) → 9223372037 ≤ n → n ≤ 18446744073 → window_of (pos n) ≡ pos 0
unfolding window_of
window_of-wrapped n h k =
    ap clamp_ghost_ttl
      (ap wrap_int64 (product n) ∙ wrap_large (n * second) (omega (arith, h)) (omega (arith, k)))
    ∙ clamp_negative (18446744073709551615 - n * second)

-- A request for a window of too many seconds that overflows the int64 of nanoseconds, from
-- 9223372037 to 18446744073, is answered as done and switches the ghosts off, now and in the file,
-- where the largest window was meant.
pub handle_ghost_ttl-wrapped :
    (n : ℕ) (written : Bool) (g : Ghosts) (file : Config)
    → 9223372037 ≤ n
    → n ≤ 18446744073
    → handle_ghost_ttl written post_method (some (pos n)) (g, file) ≡ (
      no_content,
      (record g { ttl = pos 0 }, save_pref written (codes "ghostTTL") (integer (pos 0)) file),
    )
unfolding handle_ghost_ttl set_ttl
handle_ghost_ttl-wrapped n written g file h k = rw (window_of-wrapped n h k) refl

-- A member does not get in the way of the window: only a key that is exactly `ghostTTL` names it, and
-- what names a toggle is one, or null.
abbrev pub IsPlain : Unicode → Text × Value → Type 0
IsPlain u (k, v) =
    (equal_fold u k (codes "ghostTTL") ≡ true → k ≡ codes "ghostTTL")
    × (equal_fold u k (codes "dns") ≡ true → (b : Option Bool) × (to_flag v none ≡ some b))
    × (equal_fold u k (codes "owner") ≡ true → (b : Option Bool) × (to_flag v none ≡ some b))

abbrev pub AllPlain : Unicode → Config → Type 0
AllPlain u none = Unit
AllPlain u (some m) = All (IsPlain u) m

module _ (u : Unicode) (seconds : ℤ) where
  -- After the window has been saved: what names it is the window.
  abbrev IsSaved : Text × Value → Type 0
  IsSaved (k, v) =
      (equal_fold u k (codes "ghostTTL") ≡ true → v ≡ integer seconds)
      × (equal_fold u k (codes "dns") ≡ true → (b : Option Bool) × (to_flag v none ≡ some b))
      × (equal_fold u k (codes "owner") ≡ true → (b : Option Bool) × (to_flag v none ≡ some b))

  unnamed-IsSaved :
      (k : Text) (v : Value) → (k == codes "ghostTTL") ≡ false → IsPlain u (k, v) → IsSaved (k, v)
  unnamed-IsSaved k v differs p =
      (λ h. absurd (cc (differs, (eq_text_iff k (codes "ghostTTL")).1 (p.0 h))), p.1, p.2)

  unnamed-All :
      (m : Dict Text Value) → get (codes "ghostTTL") m ≡ none → All (IsPlain u) m → All IsSaved m
  unfolding get
  unnamed-All [] h a = tt
  unnamed-All ((k, v) ∷ m) h a = elim (Bool-cases (k == codes "ghostTTL")) [
    | inl q ↦ absurd (cc (rw q at h))
    | inr q ↦ (unnamed-IsSaved k v q a.0, unnamed-All m (rw q at h) a.1)
  ]

  window-IsSaved : IsSaved (codes "ghostTTL", integer seconds)
  unfolding equal_fold eq_text
  window-IsSaved = (λ h. refl, λ h. cc, λ h. cc)

  put-IsSaved :
      (m : Dict Text Value)
      → IsMap m
      → All (IsPlain u) m
      → All IsSaved (put (codes "ghostTTL") (integer seconds) m)
  unfolding put
  put-IsSaved [] h a = (window-IsSaved, tt)
  put-IsSaved ((k, v) ∷ m) h a = elim (Bool-cases (k == codes "ghostTTL")) [
    | inl q ↦
        let e = (eq_text_iff k (codes "ghostTTL")).0 q in
        rw q (
          subst (λ z. IsSaved (z, integer seconds)) (sym e) window-IsSaved,
          unnamed-All m (subst (λ z. get z m ≡ none) e h.0) a.1,
        )
    | inr q ↦ rw q (unnamed-IsSaved k v q a.0, put-IsSaved m h.1 a.1)
  ]

  put-named :
      (m : Dict Text Value)
      → any (λ e. equal_fold u e.0 (codes "ghostTTL")) (put (codes "ghostTTL") (integer seconds) m)
        ≡ true
  unfolding put any
  put-named [] = rw (equal_fold_refl u (codes "ghostTTL")) refl
  put-named ((k, v) ∷ m) = elim (Bool-cases (k == codes "ghostTTL")) [
    | inl q ↦
        rw (q, (eq_text_iff k (codes "ghostTTL")).0 q, equal_fold_refl u (codes "ghostTTL")) refl
    | inr q ↦ rw q (ground (arith, put-named m))
  ]

  flag_again : (v : Value) (old b : Option Bool) → to_flag v none ≡ some b → to_flag v old ≡ some b
  flag_again null old b e = e
  flag_again (flag c) old b e = e
  flag_again (integer n) old b e = cc
  flag_again (text t) old b e = cc
  flag_again other old b e = cc

  -- The member of a toggle, wherever it stands, leaves the document readable.
  read_flag :
      (name : Text) (m : Members) (old : Option Bool)
      → All (λ e. equal_fold u e.0 name ≡ true → (b : Option Bool) × (to_flag e.1 none ≡ some b)) m
      → (d : Option Bool) × (read_field to_flag u name m old ≡ some d)
  unfolding read_field
  read_flag name [] old h = (old, refl)
  read_flag name ((k, v) ∷ m) old h = elim (Bool-cases (equal_fold u k name)) [
    | inl same ↦
        let (b, e) = h.0 same in
        let (d, f) = read_flag name m b h.1 in
        (d, read_field-take to_flag u name k v m old b same (flag_again v old b e) ∙ f)
    | inr differs ↦
        let (d, e) = read_flag name m old h.1 in
        (d, read_field-skip to_flag u name k v m old differs ∙ e)
  ]

  read_window :
      (m : Members) (old : Option ℤ)
      → All IsSaved m
      → read_field to_integer u (codes "ghostTTL") m old
        ≡ some (if any (λ e. equal_fold u e.0 (codes "ghostTTL")) m then some seconds else old)
  unfolding read_field any
  read_window [] old h = refl
  read_window ((k, v) ∷ m) old h = elim (Bool-cases (equal_fold u k (codes "ghostTTL"))) [
    | inl same ↦
        read_field-take to_integer u (codes "ghostTTL") k v m old (some seconds) same
          (rw (h.0.0 same) refl)
        ∙ read_window m (some seconds) h.1
        ∙ rw same (ground arith)
    | inr differs ↦
        read_field-skip to_integer u (codes "ghostTTL") k v m old differs
        ∙ read_window m old h.1
        ∙ rw differs refl
  ]

again : (n : ℕ) → window_of (seconds_of (pos (min n 600 * second))) ≡ pos (min n 600 * second)
again n =
    ap (λ m. window_of (pos m)) (the_min n)
    ∙ window_of-small (min n 600) (omega arith)
    ∙ ground arith
  where
    the_min : (n : ℕ) → min n 600 * second / second ≡ min n 600
    the_min n = omega arith

weaken :
    {A : Type 0} {P Q : A → Type 0} → ((x : A) → P x → Q x) → (xs : List A) → All P xs → All Q xs
weaken f [] a = tt
weaken f (x ∷ xs) a = (f x a.0, weaken f xs a.1)

module _ (u : Unicode) (seconds : ℤ) where
  load_saved :
      (m : Dict Text Value)
      → IsMap m
      → All (IsPlain u) m
      → (load_prefs u (some (sort_members (put (codes "ghostTTL") (integer seconds) m)))).ghost_ttl
        ≡ window_of seconds
  unfolding load_prefs
  load_saved m h a =
      let doc = sort_members (put (codes "ghostTTL") (integer seconds) m) in
      let saved = sort_members-All (IsSaved u seconds) _ (put-IsSaved u seconds m h a) in
      let (d, e) = read_flag u seconds (codes "dns") doc none (weaken (λ x p. p.1) doc saved) in
      let (o, f) = read_flag u seconds (codes "owner") doc none (weaken (λ x p. p.2) doc saved) in
      let window : read_field to_integer u (codes "ghostTTL") doc none ≡ some (some seconds) =
        read_window u seconds doc none saved
        ∙ rw
            (any-sort_members _ (put (codes "ghostTTL") (integer seconds) m), put-named u seconds m)
            refl in
      rw (e, f, window) refl

  load_prefs-save_pref :
      (file : Config)
      → AllPlain u file
      → (load_prefs u (save_pref true (codes "ghostTTL") (integer seconds) file)).ghost_ttl
        ≡ window_of seconds
  unfolding save_pref
  load_prefs-save_pref none plain = load_saved [] tt tt
  load_prefs-save_pref (some m) plain =
      load_saved (into_map m []) (into_map-IsMap m [] tt) (into_map-All (IsPlain u) m [] plain tt)

-- A request for up to 9223372036 seconds sets the window to that many, cut at ten minutes; and if
-- the file can be written, names the window by no key that differs from `ghostTTL` in case, and has
-- toggles or null under the two other names, then a restart reads the same window.
pub load_prefs-handle_ghost_ttl :
    (u : Unicode) (n : ℕ) (g : Ghosts) (file : Config)
    → n ≤ 9223372036
    → AllPlain u file
    → let s = (handle_ghost_ttl true post_method (some (pos n)) (g, file)).1 in
      (s.0.ttl ≡ pos (min n 600 * second)) × ((load_prefs u s.1).ghost_ttl ≡ s.0.ttl)
unfolding handle_ghost_ttl set_ttl
load_prefs-handle_ghost_ttl u n g file h plain =
    let set =
      ap clamp_ghost_ttl (window_of-small n h) ∙ clamp_pos (min n 600 * second) ∙ ground arith in
    (
      set,
      load_prefs-save_pref u (seconds_of (window_of (pos n))) file plain
          ∙ ap (λ t. window_of (seconds_of t)) (window_of-small n h)
          ∙ again n
          ∙ sym set,
    )
