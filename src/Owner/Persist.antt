-- ===== src/Owner/Persist.antt =====
-- owner.go, load and Flush: the cache on disk. A file is the document that encoding/json reads and
-- writes; `none` is a missing or corrupt file. On disk an expiry is a number of seconds.
use porthawk.Prelude.{
  ℕ, ◌/◌, Bool, false, ◌||◌, not, Option, none, some, [], ◌∷◌, ◌++◌, if◌then◌else◌, map,
}
use porthawk.Prelude.Int.{ℤ, pos, ◌*ℤ◌, pos_part, ltb_ℤ, eqb_ℤ}
use porthawk.Prelude.Dict.{Dict, put}
use porthawk.Go.Text.{Text, text_eq, is_empty}
use porthawk.Go.Netip.{Prefix, prefix_eq}
use porthawk.Go.Netip.Parse.{parse_prefix}
use porthawk.Go.Netip.Print.{prefix_text}
use porthawk.LastOwners.{second}
use porthawk.Lookups.{no_lookups}
use porthawk.Owner.{Owner, OwnerEntry}

pub record DiskEntry : Type 0 where
  pub name : Text
  pub exp : ℤ

-- time.Unix(exp, 0), in nanoseconds
abbrev pub unix : ℤ → ℤ
unix s = s *ℤ pos second

abbrev pub load_under : ℕ → Option Prefix → DiskEntry → Owner → Owner
load_under now none v o = o
load_under now (some p) v o =
    if eqb_ℤ v.exp (pos 0) || ltb_ℤ (unix v.exp) (pos now) then o else record o {
      cache = put p (record { name = v.name; exp = pos_part (unix v.exp) }) o.cache;
      order = o.order ++ p ∷ [];
    }

-- The loop of load, over the entries in some order.
unfoldable pub load_entries : ℕ → Dict Text DiskEntry → Owner → Owner
load_entries now [] o = o
load_entries now ((k, v) ∷ m) o = load_entries now m (load_under now (parse_prefix k) v o)

-- load
unfoldable pub load : ℕ → Option (Dict Text DiskEntry) → Owner → Owner
load now none o = o
load now (some m) o = if is_empty o.dir then o else load_entries now m o

abbrev pub empty_owner : Text → Bool → Owner
empty_owner dir enabled = record {
  enabled = enabled;
  cache = [];
  order = [];
  asn = [];
  lookups = no_lookups;
  dir = dir;
  dirty = false;
}

-- NewOwner
unfoldable pub new_owner : ℕ → Text → Bool → Option (Dict Text DiskEntry) → Owner
new_owner now dir enabled file = load now file (empty_owner dir enabled)

abbrev pub disk_entry : Prefix × OwnerEntry → Text × DiskEntry
disk_entry (p, e) = (prefix_text p, record { name = e.name; exp = pos (e.exp / second) })

unfoldable pub to_disk : Dict Prefix OwnerEntry → Dict Text DiskEntry
to_disk = map disk_entry

-- Flush; `written` is whether the temporary file could be written and renamed.
unfoldable pub flush :
    Bool → Owner × Option (Dict Text DiskEntry) → Owner × Option (Dict Text DiskEntry)
flush written (o, file) =
    if is_empty o.dir || not o.dirty
    then (o, file)
    else (record o { dirty = false }, if written then some (to_disk o.cache) else file)
