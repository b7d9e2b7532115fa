-- ===== src/Host.antt =====
-- What rktlet asks of the operating system, of the programs that it starts and of the UUID library.
-- None of it is under the repository's own packages, so it is a parameter: operations on a state
-- that only the host knows. An error is its text. Logging is left out.
pub mod Laws
pub mod Keeps
use rktlet.Base.{ℕ, String, Bool, Option, none, some, List, Result, ok, err}
use rktlet.Errors.{Error}

-- What os.Stat finds.
pub data Stat : Type 0 where
  exists not_exist : Stat
  stat_failed : String → Stat

pub record Host : Type 1 where
  pub State : Type 0
  -- Command(cmd[0], cmd[1:]...).CombinedOutput(): the output, and the error if there is one
  pub combined_output : List String → State → (String × Option String) × State
  -- uuid.New, os.Stat, os.MkdirAll with its mode, os.Hostname
  pub new_uuid : State → String × State
  pub stat : String → State → Stat × State
  pub mkdir_all : ℕ → String → State → Option String × State
  pub hostname : State → Result String String × State
  -- os.Setenv, and LookPath
  pub setenv : String → String → State → Option String × State
  pub look_path : String → State → Result String String × State
  -- the name of a new temporary file, and what is read of a file since the last read
  pub temp_file : String → State → Result String String × State
  pub read_all : String → State → Result String String × State
  pub remove : String → State → State
  pub sleep : ℕ → State → State

-- The steps of a handler: a result or an error, and the state that it leaves in either case.
abbrev pub Act : Type 0 → Type 0 → Type 0
Act S A = S → Result Error A × S

module _ {S A B : Type 0} where
  abbrev pub and_then : Result Error A × S → (A → Act S B) → Result Error B × S
  and_then (ok a, s) f = f a s
  and_then (err e, s) f = (err e, s)

  infixl 5 ◌>>=◌
  abbrev pub ◌>>=◌ : Act S A → (A → Act S B) → Act S B
  ◌>>=◌ m f s = and_then (m s) f

module _ {S A : Type 0} where
  abbrev pub pure : A → Act S A
  pure a s = (ok a, s)

  abbrev pub fail : Error → Act S A
  fail e s = (err e, s)

  -- A step that does not touch the state.
  abbrev pub lift : Result Error A → Act S A
  lift r s = (r, s)

module _ {S : Type 0} where
  -- A call that gives an error or nil.
  abbrev pub failing : Option String × S → Result String (Unit {0}) × S
  failing (none, s) = (ok tt, s)
  failing (some e, s) = (err e, s)

module _ {S E A : Type 0} where
  abbrev pub wrapped : (E → Error) → Result E A × S → Result Error A × S
  wrapped f (ok a, t) = (ok a, t)
  wrapped f (err e, t) = (err (f e), t)

  -- `if err != nil { return wrap(err) }`
  abbrev pub wrap : (E → Error) → (S → Result E A × S) → Act S A
  wrap f m s = wrapped f (m s)
