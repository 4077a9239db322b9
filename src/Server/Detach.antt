-- ===== src/Server/Detach.antt =====
-- `ThreadServer_t::detach` of src/threadserver/threadserver.cc: how the process becomes a daemon. What
-- the system calls come to is an argument; what they do to the process is its state.
mod Descriptors
pub mod Daemon
use threadserver.Prelude.{
  ℕ, Bool, true, false, Option, none, some, Result, ok, err, Bytes, codes, ltb, ◌==◌, if◌then◌else◌,
}
use threadserver.Prelude.Exec.{Exec, pure, throw, modify, ◌>>=◌, ◌>>◌}

-- What a descriptor stands for.
pub data File : Type 0 where
  null_device : File
  other_file : Bytes → File

pub record Process : Type 0 where
  pub directory : Bytes
  pub mask : ℕ
  pub files : ℕ → Option File
  -- It leads its session; and that session is one that it has made, or whose leader forked it.
  pub leads_session : Bool
  pub own_session : Bool

pub data Fork : Type 0 where
  fails parent child : Fork

-- What the calls come to: `open_null` is the descriptor that `open("/dev/null")` gives.
pub record Calls : Type 0 where
  pub first_fork : Fork
  pub setsid_works : Bool
  pub second_fork : Fork
  pub chdir_works : Bool
  pub open_null : Option ℕ
  pub dup2_works : ℕ → Bool
  pub close_works : Bool

-- `exit(code)` leaves the constructor for good: the code is what is thrown.
abbrev pub Action : Type 0
Action = Exec Process ℕ (Unit {0})

-- The child of a fork leads no session.
unfoldable pub forked : Fork → Action
forked fails = throw 1
forked parent = throw 0
forked child = modify (λ p. record p { leads_session = false })

unfoldable pub point : ℕ → Option File → (ℕ → Option File) → ℕ → Option File
point n file files m = if n == m then file else files m

-- `dup2(null, n)`
unfoldable pub duplicate : Calls → (null n : ℕ) → Action
unfolding point
duplicate calls null n =
    if calls.dup2_works n
    then modify (λ p. record p { files = point n (p.files null) p.files })
    else throw 1

-- The standard descriptors, and then the descriptor itself, if it is none of these; a `close` that
-- fails is logged only.
unfoldable pub redirect : Calls → ℕ → Action
unfolding duplicate
redirect calls null = do
  modify (λ p. record p { files = point null (some null_device) p.files })
  duplicate calls null 0
  duplicate calls null 1
  duplicate calls null 2
  if ltb 2 null
      then (if calls.close_works
          then modify (λ p. record p { files = point null none p.files })
          else pure tt)
      else pure tt

unfoldable pub detach : Calls → Action
unfolding forked redirect
detach calls = do
  forked calls.first_fork
  if calls.setsid_works
      then modify (λ p. record p { leads_session = true; own_session = true })
      else throw 1
  forked calls.second_fork
  if calls.chdir_works then modify (λ p. record p { directory = codes "/" }) else throw 1
  modify (λ p. record p { mask = 0 })
  elim calls.open_null [ none ↦ throw 1 | some null ↦ redirect calls null ]
