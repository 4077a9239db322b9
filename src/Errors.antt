-- ===== src/Errors.antt =====
-- src/threadserver/error.cc, and the errors with a code of the handlers: `HttpError_t` of
-- src/handlers/cpphttphandler/cpphttphandler.cc and `RpcError_t` of
-- src/handlers/cppfrpchandler/cppfrpchandler.cc, which have the same two constructors.
pub mod Cut
pub mod Texts
use threadserver.Prelude.{ℕ, Bytes, Option, none, some, List, [], take, find}
use threadserver.Prelude.Int.{ℤ}
use mathlib.Core.Option

-- `c_str()`: up to the first NUL
unfoldable pub c_str : Bytes → Bytes
c_str s = elim (find 0 s) [ none ↦ s | some at ↦ take at s ]

-- `vsnprintf` of the C library. `render` gives what it would write with room enough; `none` is a call
-- whose behaviour is undefined.
pub record Printf : Type 1 where
  pub Arg : Type 0
  pub render : (format : Bytes) → List Arg → Option Bytes

-- `THREADSERVER_ERROR_MESSAGEBUFFERSIZE`, `HTTPERROR_MESSAGEBUFFERSIZE` and
-- `RPCERROR_MESSAGEBUFFERSIZE` are 65536: the text and its NUL.
unfoldable pub buffered : Bytes → Bytes
unfolding c_str
buffered text = c_str (take 65535 text)

-- `Error_t(message)`: what `what()` gives
unfoldable pub error_of_text : Bytes → Bytes
unfolding c_str
error_of_text message = c_str message

-- An error with a code: `code()` and `what()`
pub record CodedError : Type 0 where
  pub code : ℤ
  pub text : Bytes

-- `HttpError_t(code, message)` and `RpcError_t(code, message)`
unfoldable pub coded_of_text : ℤ → Bytes → CodedError
unfolding error_of_text
coded_of_text code message = record { code = code; text = error_of_text message }

module _ (p : Printf) where
  open p use {Arg, render}

  -- `Error_t(format, ...)`
  unfoldable pub error_of_format : Bytes → List Arg → Option Bytes
  unfolding buffered c_str
  error_of_format format args = Option.map (λ t. c_str (buffered t)) (render format args)

  -- `HttpError_t(code, format, ...)` and `RpcError_t(code, format, ...)`. The base is made of a
  -- `const char *`, which is the constructor of `Error_t` that takes a format.
  unfoldable pub coded_of_format : ℤ → Bytes → List Arg → Option CodedError
  unfolding error_of_format buffered c_str
  coded_of_format code format args = elim (render format args) [
    | none ↦ none
    | some t ↦
        Option.map (λ text. record { code = code; text = text })
          (error_of_format (c_str (buffered t)) [])
  ]
