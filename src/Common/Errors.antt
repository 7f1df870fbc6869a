-- ===== src/Common/Errors.antt =====
-- Go's `error` values, by what the program tells apart.
use Prim.Native.String
use Prim.Native.String.{String}
use mathlib.Core.Bool.{Bool, true, false}

pub data Error : Type 0 where
  -- errors.New and fmt.Errorf
  message : String → Error
  -- errors.Wrap: the text, and the cause
  wrapped : String → Error → Error
  -- os.IsNotExist
  not_exist : String → Error
  -- an API error with the reason NotFound
  not_found : String → Error
  -- an API error with the reason AlreadyExists
  already_exists : String → Error
  -- register.NonRecoverableError
  non_recoverable : String → Error

-- os.IsNotExist
abbrev pub is_not_exist : Error → Bool
is_not_exist (not_exist p) = true
is_not_exist _ = false

-- apierrors.IsNotFound
abbrev pub is_not_found : Error → Bool
is_not_found (not_found p) = true
is_not_found _ = false

-- apierrors.IsAlreadyExists
abbrev pub is_already_exists : Error → Bool
is_already_exists (already_exists p) = true
is_already_exists _ = false

-- err.Error(). The texts of the API's own errors are given with them.
abbrev pub error_text : Error → String
error_text (message s) = s
error_text (wrapped s e) = String.◌++◌ s (String.◌++◌ ": " (error_text e))
error_text (not_exist s) = s
error_text (not_found s) = s
error_text (already_exists s) = s
error_text (non_recoverable s) = s
