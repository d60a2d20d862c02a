-- ===== src/Kube/Errors.antt =====
-- Go's error values: what a call gave, wrapped by `fmt.Errorf("…: %w", err)`, or a formatted text.
-- A text is kept by its format and its arguments.
use azdo_kube_operator.Base.{String, List, ℤ}
use azdo_kube_operator.Kube.Meta.{ApiError}

-- `ctx.Err()`
pub data CtxError : Type 0 where
  canceled deadline_exceeded : CtxError

pub data Arg : Type 0 where
  word : String → Arg
  number : ℤ → Arg

pub data Error : Type 0 where
  api_error : ApiError → Error
  context_error : CtxError → Error
  library_error : String → Error
  wrap : String → Error → Error
  wrap_of : String → List Arg → Error → Error
  fault : String → List Arg → Error

-- The message of a condition or an event: a text, or a text with an error behind it.
pub data Message : Type 0 where
  said : String → Message
  said_of : String → Error → Message
