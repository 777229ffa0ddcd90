-- ===== src/Xtask/Result.antt =====
-- The results of the tool: `XError` of xtask/src/main.rs, and a panic.
use mathlib.Core.Option.{Option, none, some}

-- `std::io::ErrorKind`, as far as the tool meets it.
pub data IoErrorKind : Type 0 where
  not_found already_exists unexpected_eof is_a_directory permission_denied : IoErrorKind

pub data XError : Type 0 where
  invalid_procedure invalid_stamp : XError
  io_error : IoErrorKind → XError

-- `panicked` is an `unwrap` or an assertion that fails, or a program that ends with an error.
pub data Result (A : Type 0) : Type 0 where
  ok : A → Result A
  err : XError → Result A
  panicked : Result A

infixl 5 ◌>>=◌
abbrev pub ◌>>=◌ : {A B : Type 0} → Result A → (A → Result B) → Result B
ok a >>= f = f a
err e >>= f = err e
panicked >>= f = panicked

abbrev pub unwrap : {A : Type 0} → Option A → Result A
unwrap none = panicked
unwrap (some a) = ok a

abbrev pub or_err : {A : Type 0} → XError → Option A → Result A
or_err e none = err e
or_err e (some a) = ok a
