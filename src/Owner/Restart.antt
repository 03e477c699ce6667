-- ===== src/Owner/Restart.antt =====
-- owner.go, load and Flush: what a restart keeps of the cache.
use porthawk.Prelude.{
  ℕ, ◌*◌, ◌/◌, ◌≡◌, refl, Bool, true, false, ◌&&◌, not, Option, none, some, [], ◌∷◌, arith, ltb,
  if◌then◌else◌, All, Bool-cases, inl, inr, ◌∙◌, ap, subst,
}
use porthawk.Prelude.Int.{pos, ◌*ℤ◌}
use porthawk.Prelude.Dict.{Dict, get, IsMap, get-put}
use porthawk.Go.Text.{Text, text_eq, is_empty}
use porthawk.Go.Netip.{Prefix, prefix_eq, eq_prefix, eq_prefix_iff}
use porthawk.Go.Netip.Parse.{parse_prefix}
use porthawk.Go.Netip.Print.{prefix_text}
use porthawk.LastOwners.{second}
use porthawk.Owner.{Owner, OwnerEntry}
use porthawk.Owner.Persist.{
  DiskEntry, unix, load_under, load_entries, load, empty_owner, new_owner, disk_entry, to_disk,
  flush,
}

-- What an entry is after a restart: gone if it has expired by the whole second.
abbrev pub revived : ℕ → Option OwnerEntry → Option OwnerEntry
revived now none = none
revived now (some e) =
    if ltb 0 (e.exp / second) && not (ltb (e.exp / second * second) now)
    then some (record e { exp = e.exp / second * second })
    else none

abbrev or_else : Option OwnerEntry → Option OwnerEntry → Option OwnerEntry
or_else none o = o
or_else (some e) o = some e

or_else-none : (o : Option OwnerEntry) → or_else o none ≡ o
or_else-none none = refl
or_else-none (some e) = refl

-- The text of each range of the map reads as that range.
abbrev Reads : Dict Prefix OwnerEntry → Type 0
Reads = All (λ c. parse_prefix (prefix_text c.0) ≡ some c.0)

unix_pos : (n : ℕ) → unix (pos n) ≡ pos (n * second)
unfolding ◌*ℤ◌
unix_pos n = ground arith

get-load_under :
    (now : ℕ) (p q : Prefix) (e : OwnerEntry) (o : Owner)
    → get q (load_under now (some p) (disk_entry (p, e)).1 o).cache
      ≡ (if eq_prefix p q then or_else (revived now (some e)) (get q o.cache) else get q o.cache)
get-load_under now p q e o =
    rw (unix_pos (e.exp / second)) (
      ground (arith, get-put p q (record { name = e.name; exp = e.exp / second * second }) o.cache))

over :
    (now : ℕ) (p q : Prefix) (e : OwnerEntry) (m : Dict Prefix OwnerEntry) (old : Option OwnerEntry)
    → get p m ≡ none
    → or_else
        (revived now (get q m))
        (if eq_prefix p q then or_else (revived now (some e)) old else old)
      ≡ or_else (revived now (if eq_prefix p q then some e else get q m)) old
over now p q e m old u = elim (Bool-cases (eq_prefix p q)) [
  | inl t ↦ rw (t, subst (λ r. get r m ≡ none) ((eq_prefix_iff p q).0 t) u) refl
  | inr f ↦ rw f refl
]

get-load_entries :
    (now : ℕ) (q : Prefix) (m : Dict Prefix OwnerEntry) (o : Owner)
    → IsMap m
    → Reads m
    → get q (load_entries now (to_disk m) o).cache ≡ or_else (revived now (get q m)) (get q o.cache)
unfolding load_entries to_disk get
get-load_entries now q [] o u r = refl
get-load_entries now q ((p, e) ∷ m) o u r =
    ap (λ s. get q (load_entries now (to_disk m) (load_under now s (disk_entry (p, e)).1 o)).cache)
      r.0
    ∙ get-load_entries now q m (load_under now (some p) (disk_entry (p, e)).1 o) u.1 r.1
    ∙ ap (or_else (revived now (get q m))) (get-load_under now p q e o)
    ∙ over now p q e m (get q o.cache) u.0

-- A cache that is written and read again at the next start keeps, under each range, the name and
-- the expiry to the whole second, and drops exactly the entries that have expired by then; for a
-- cache with one entry per range, changed since the last write, in a directory, where each range's
-- text reads as that range.
pub load-flush :
    (now : ℕ) (q : Prefix) (o : Owner) (enabled : Bool) (old : Option (Dict Text DiskEntry))
    → IsMap o.cache
    → Reads o.cache
    → is_empty o.dir ≡ false
    → o.dirty ≡ true
    → get q (new_owner now o.dir enabled (flush true (o, old)).1).cache
      ≡ revived now (get q o.cache)
unfolding flush new_owner load get
load-flush now q o enabled old u r d w =
    rw (d, w)
      (rw d (
        get-load_entries now q o.cache (empty_owner o.dir enabled) u r
        ∙ or_else-none (revived now (get q o.cache))))

-- After a write that fails, the next flush writes nothing: the changes wait for another change.
flush-flush :
    (o : Owner) (file : Option (Dict Text DiskEntry))
    → (flush true (flush false (o, file))).1 ≡ file
unfolding flush
flush-flush o file = ground arith
