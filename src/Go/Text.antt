-- ===== src/Go/Text.antt =====
-- Packages strings, unicode and strconv on texts: a text is the list of its characters' code
-- points. Case mapping is written out for ASCII; above it the Unicode tables are a parameter.
pub mod Number
pub mod Bytes
pub mod Laws
pub mod Digits
use mathlib.Core.List.{reverse}
use porthawk.Prelude.{
  ℕ, ◌+◌, ◌-◌, ◌≡◌, refl, ap, ap₂, ◌↔◌, Bool, true, false, ◌&&◌, ◌||◌, Option, none, some, List, [],
  ◌∷◌, ◌++◌, map, arith, ◌≢◌, ltb, leb, eqb, eqb_iff, if◌then◌else◌, Comparable, Bool-cases, length,
  drop, inl, inr, any,
}

abbrev pub Text : Type 0
Text = List ℕ

-- The parts of Unicode's case tables that lie above ASCII.
pub record Unicode : Type 0 where
  -- unicode.ToLower
  pub lower_table : ℕ → ℕ
  -- the representative of a character's orbit under unicode.SimpleFold
  pub fold_table : ℕ → ℕ

-- Tables that map nothing, for texts in ASCII.
abbrev pub ascii : Unicode
ascii = record { lower_table = λ c. c; fold_table = λ c. c }

unfoldable pub eq_text : Text → Text → Bool
eq_text [] [] = true
eq_text (a ∷ s) (b ∷ t) = eqb a b && eq_text s t
eq_text _ _ = false

pub eq_text_refl : (s : Text) → eq_text s s ≡ true
unfolding eq_text
eq_text_refl [] = refl
eq_text_refl (a ∷ s) = rw (eq_text_refl s) (ground arith)

eq_text→eq : (s t : Text) → eq_text s t ≡ true → s ≡ t
unfolding eq_text
eq_text→eq [] [] h = refl
eq_text→eq (a ∷ s) (b ∷ t) h = ap₂ (λ x y. x ∷ y) (ground arith) (eq_text→eq s t (ground arith))
eq_text→eq [] (b ∷ t) h = cc
eq_text→eq (a ∷ s) [] h = cc

pub eq_text_iff : (s t : Text) → (eq_text s t ≡ true) ↔ (s ≡ t)
eq_text_iff s t = (eq_text→eq s t, λ e. rw e (eq_text_refl t))

instance abbrev pub text_eq : Comparable Text
text_eq = record { same = eq_text; same_iff = eq_text_iff }

abbrev pub is_empty : Text → Bool
is_empty [] = true
is_empty (c ∷ s) = false

pub ne_nil : (s : Text) → (is_empty s ≡ false) ↔ (s ≢ [])
ne_nil [] = (λ h. cc, λ h. absurd (h refl))
ne_nil (c ∷ s) = (λ h e. cc, λ h. refl)

-- unicode.IsSpace
unfoldable pub is_space : ℕ → Bool
is_space c =
    leb 9 c && leb c 13
    || eqb c 32
    || eqb c 0x85
    || eqb c 0xa0
    || eqb c 0x1680
    || leb 0x2000 c && leb c 0x200a
    || eqb c 0x2028
    || eqb c 0x2029
    || eqb c 0x202f
    || eqb c 0x205f
    || eqb c 0x3000

unfoldable trim_left : Text → Text
trim_left [] = []
trim_left (c ∷ s) = let rest = trim_left s in if is_space c then rest else c ∷ s

unfoldable trim_right : Text → Text
trim_right [] = []
trim_right (c ∷ s) = let rest = trim_right s in if is_space c && is_empty rest then [] else c ∷ rest

-- strings.TrimSpace
unfoldable pub trim_space : Text → Text
unfolding trim_left trim_right is_space
trim_space s = trim_right (trim_left s)

unfoldable lower : Unicode → ℕ → ℕ
lower u c = if ltb c 128 then (if leb 65 c && leb c 90 then c + 32 else c) else u.lower_table c

-- strings.ToLower
unfoldable pub to_lower : Unicode → Text → Text
unfolding lower
to_lower u = map (lower u)

unfoldable fold : Unicode → ℕ → ℕ
fold u c = if ltb c 128 then (if leb 65 c && leb c 90 then c + 32 else c) else u.fold_table c

-- strings.EqualFold
unfoldable pub equal_fold : Unicode → Text → Text → Bool
unfolding fold eq_text
equal_fold u s t = eq_text (map (fold u) s) (map (fold u) t)

pub equal_fold_refl : (u : Unicode) (s : Text) → equal_fold u s s ≡ true
unfolding equal_fold
equal_fold_refl u s = eq_text_refl (map (fold u) s)

equal_fold→eq :
    (u : Unicode) (s t : Text) → equal_fold u s t ≡ true → map (fold u) s ≡ map (fold u) t
unfolding equal_fold
equal_fold→eq u s t h = eq_text→eq (map (fold u) s) (map (fold u) t) h

-- An equality under folding can be exchanged for the text it equals.
pub equal_fold_cong :
    (u : Unicode) (s t r : Text) → equal_fold u s t ≡ true → equal_fold u s r ≡ equal_fold u t r
unfolding equal_fold
equal_fold_cong u s t r h = ap (λ x. eq_text x (map (fold u) r)) (equal_fold→eq u s t h)

pub equal_fold_cong_right :
    (u : Unicode) (s t r : Text) → equal_fold u s t ≡ true → equal_fold u r s ≡ equal_fold u r t
unfolding equal_fold
equal_fold_cong_right u s t r h = ap (λ x. eq_text (map (fold u) r) x) (equal_fold→eq u s t h)

-- strings.HasPrefix(s, p)
unfoldable pub has_prefix : Text → Text → Bool
has_prefix s [] = true
has_prefix [] (b ∷ p) = false
has_prefix (a ∷ s) (b ∷ p) = eqb a b && has_prefix s p

-- strings.Contains(s, p)
unfoldable pub contains : Text → Text → Bool
unfolding has_prefix
contains [] p = has_prefix [] p
contains (a ∷ s) p = has_prefix (a ∷ s) p || contains s p

-- strings.HasSuffix(s, p)
unfoldable pub has_suffix : Text → Text → Bool
unfolding has_prefix
has_suffix s p = has_prefix (reverse s) (reverse p)

-- strings.TrimPrefix(s, p)
unfoldable pub trim_prefix : Text → Text → Text
unfolding has_prefix
trim_prefix s p = if has_prefix s p then drop (length p) s else s

-- strings.TrimSuffix(s, p)
unfoldable pub trim_suffix : Text → Text → Text
unfolding trim_prefix
trim_suffix s p = reverse (trim_prefix (reverse s) (reverse p))

unfoldable pub skip_while : (ℕ → Bool) → Text → Text
skip_while p [] = []
skip_while p (c ∷ s) = let rest = skip_while p s in if p c then rest else c ∷ s

-- strings.Trim, with the set of characters as a test
unfoldable pub trim_set : (ℕ → Bool) → Text → Text
unfolding skip_while
trim_set p s = reverse (skip_while p (reverse (skip_while p s)))

-- What stands before and after the first `c`.
unfoldable pub cut : ℕ → Text → Option (Text × Text)
cut c [] = none
cut c (a ∷ s) =
    let rest = cut c s in
    if eqb a c then some ([], s) else elim rest [ none ↦ none | some (l, r) ↦ some (a ∷ l, r) ]

-- What stands before and after the last `c`.
unfoldable pub cut_last : ℕ → Text → Option (Text × Text)
cut_last c [] = none
cut_last c (a ∷ s) = elim (cut_last c s) [
  | some (l, r) ↦ some (a ∷ l, r)
  | none ↦ if eqb a c then some ([], s) else none
]

-- What stands before and after the first `p`: strings.Index and the two slices.
unfoldable pub cut_text : Text → Text → Option (Text × Text)
unfolding has_prefix
cut_text p [] = if is_empty p then some ([], []) else none
cut_text p (a ∷ s) =
    let rest = cut_text p s in
    if has_prefix (a ∷ s) p
    then some ([], drop (length p) (a ∷ s))
    else elim rest [ none ↦ none | some (l, r) ↦ some (a ∷ l, r) ]

abbrev cons_head : ℕ → List Text → List Text
cons_head a [] = (a ∷ []) ∷ []
cons_head a (w ∷ ws) = (a ∷ w) ∷ ws

-- strings.Split(s, sep) at one character
unfoldable pub split : ℕ → Text → List Text
split c [] = [] ∷ []
split c (a ∷ s) = let rest = split c s in if eqb a c then [] ∷ rest else cons_head a rest

abbrev join_field : ℕ → Text → List Text → List Text
join_field a [] ws = (a ∷ []) ∷ ws
join_field a (b ∷ s) [] = (a ∷ []) ∷ []
join_field a (b ∷ s) (w ∷ ws) = if is_space b then (a ∷ []) ∷ w ∷ ws else (a ∷ w) ∷ ws

-- strings.Fields
unfoldable pub fields : Text → List Text
unfolding is_space
fields [] = []
fields (a ∷ s) = let rest = fields s in if is_space a then rest else join_field a s rest
