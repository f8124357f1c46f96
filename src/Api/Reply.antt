-- ===== src/Api/Reply.antt =====
-- api/routes: what a route answers. An exception that a handler does not catch passes through it.
-- The validation of a request and its JSON form are FastAPI's and stay outside: a handler gets the
-- fields of a valid request. Base64 is Python's.
use storage_appliance_archit.Base.{
  ℕ, ◌≡◌, Option, none, some, String, Result, ok, raise, value_error,
}
use storage_appliance_archit.Purity.Wire.{Bytes}

pub record Base64 : Type 0 where
  pub b64encode : Bytes → String
  pub b64decode : String → Option Bytes

-- The documented behaviour of the codec: decoding undoes encoding.
pub record IsInverse (codec : Base64) : Type 0 where
  pub decodes : (bs : Bytes) → codec.b64decode (codec.b64encode bs) ≡ some bs

-- A response with its status code, or an HTTPException.
pub data Reply (A : Type 0) : Type 0 where
  reply : ℕ → A → Reply A
  http_error : ℕ → Reply A

-- `if not x: raise HTTPException(...)`, and the response for `x`
abbrev pub reply_found : {A B : Type 0} → ℕ → ℕ → (A → B) → Option A → Reply B
reply_found status missing f none = http_error missing
reply_found status missing f (some a) = reply status (f a)

abbrev pub answer : {S A B : Type 0} → (A → Reply B) → Result A × S → Result (Reply B) × S
answer f (ok a, s) = (ok (f a), s)
answer f (raise e, s) = (raise e, s)

-- `except ValueError as e: raise HTTPException(400, ...)`
abbrev pub catch_value_error : {S B : Type 0} → Result (Reply B) × S → Result (Reply B) × S
catch_value_error (raise value_error, s) = (ok (http_error 400), s)
catch_value_error o = o
