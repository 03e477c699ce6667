-- ===== src/Server/Auth.antt =====
-- main.go: tokenOK and auth. The page of a request is told apart by its path alone.
use porthawk.Prelude.{
  ℕ, ◌≡◌, refl, ap, ◌⊎◌, inl, inr, ◌&&◌, not, Bool, true, false, Option, none, some, [], ◌∷◌, arith,
  eqb, if◌then◌else◌, length, Bool-cases,
}
use porthawk.Go.Text.{Text, eq_text, eq_text_iff, is_empty}
use porthawk.Http.{unauthorized}
use porthawk.Go.Text.Number.{codes}

-- `?t=`, which is empty where it is missing, the path, and the cookie "porthawk".
pub record Request : Type 0 where
  pub t : Text
  pub path : Text
  pub cookie : Option Text

-- What a client gets: the handler's answer, a redirect that sets the cookie, or an error.
pub data Guarded (A : Type 0) : Type 0 where
  served : A → Guarded A
  redirect : (path cookie : Text) → Guarded A
  refused : ℕ → Text → Guarded A

-- tokenOK
unfoldable token_ok : Text → Text → Bool
token_ok token v = eqb (length v) (length token) && eq_text v token

abbrev cookie_ok : Text → Option Text → Bool
cookie_ok token none = false
cookie_ok token (some v) = token_ok token v

-- auth: the answer and the state after a request, around a handler of a state.
unfoldable pub auth : {A S : Type 0} → Text → Request → (S → A × S) → S → Guarded A × S
unfolding token_ok
auth token r next s =
    if not (is_empty r.t)
    then if token_ok token r.t
      then (redirect r.path r.t, s)
      else (refused unauthorized (codes "unauthorized"), s)
    else if cookie_ok token r.cookie
    then (let (a, t) = next s in (served a, t))
    else (refused unauthorized (codes "unauthorized — open the URL printed at startup"), s)

-- The request has the token as its cookie, and no other one.
abbrev pub HasToken : Text → Request → Type 0
HasToken token r = (r.t ≡ []) × (r.cookie ≡ some token)

token_ok→eq : (token v : Text) → token_ok token v ≡ true → v ≡ token
unfolding token_ok
token_ok→eq token v h = (eq_text_iff v token).0 (ground (arith, h))

empty_eq : (s : Text) → is_empty s ≡ true → s ≡ []
empty_eq [] h = refl
empty_eq (c ∷ s) h = cc

cookie_eq : (token : Text) (o : Option Text) → cookie_ok token o ≡ true → o ≡ some token
cookie_eq token none h = cc
cookie_eq token (some v) h = ap some (token_ok→eq token v h)

-- What a client without the token gets: a refusal, or a cookie that holds the token it has sent.
abbrev pub IsTurnedAway : {A : Type 0} → Text → Guarded A → Type 0
IsTurnedAway token (served a) = ⊥
IsTurnedAway token (redirect path cookie) = cookie ≡ token
IsTurnedAway token (refused status message) = status ≡ unauthorized

module _ {A S : Type 0} (token : Text) (r : Request) (next : S → A × S) (s : S) where
  -- Whatever the handler behind it does: a request reaches it, and then its answer and its change of
  -- state are what happens, only with the token as the cookie; any other request changes nothing, and
  -- is refused or, with the token in its URL, told to come back with the cookie.
  pub auth-IsGuarded :
      (HasToken token r × (auth token r next s ≡ (served (next s).0, (next s).1)))
      ⊎ (((auth token r next s).1 ≡ s) × IsTurnedAway token (auth token r next s).0)
  unfolding auth
  auth-IsGuarded = elim (Bool-cases (is_empty r.t)) [
    | inl none_given ↦ elim (Bool-cases (cookie_ok token r.cookie)) [
      | inl ok ↦
          inl ((empty_eq r.t none_given, cookie_eq token r.cookie ok), rw (none_given, ok) refl)
      | inr bad ↦ inr (rw (none_given, bad) (refl, refl))
    ]
    | inr given ↦ elim (Bool-cases (token_ok token r.t)) [
      | inl ok ↦ inr (rw (given, ok) (refl, token_ok→eq token r.t ok))
      | inr bad ↦ inr (rw (given, bad) (refl, refl))
    ]
  ]
