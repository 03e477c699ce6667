-- ===== src/Http.antt =====
-- What the handlers share of net/http: methods, and what a handler answers.
use porthawk.Prelude.{ℕ}
use porthawk.Go.Text.{Text}

pub data Method : Type 0 where
  get_method post_method other_method : Method

-- A JSON body with status 200, status 204, or `http.Error` with a status and its message.
pub data Reply (A : Type 0) : Type 0 where
  json : A → Reply A
  no_content : Reply A
  error : ℕ → Text → Reply A

abbrev pub bad_request : ℕ
bad_request = 400

abbrev pub unauthorized : ℕ
unauthorized = 401

abbrev pub forbidden : ℕ
forbidden = 403

abbrev pub not_found : ℕ
not_found = 404

abbrev pub method_not_allowed : ℕ
method_not_allowed = 405

abbrev pub internal_error : ℕ
internal_error = 500
