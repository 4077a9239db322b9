-- ===== src/Server/Guard.antt =====
-- The guard process: the loop of the `ThreadServer_t` constructor that forks the server and starts it
-- again when it crashes. A round is what `fork` and `wait` gave.
use threadserver.Prelude.{
  ℕ, ◌+◌, ◌*◌, ◌/◌, ◌%◌, ◌<◌, ◌≡◌, ◌≢◌, ◌⊎◌, inl, inr, ap, ◌∙◌, Bool, true, false, List, [], ◌∷◌,
  ◌++◌, All, length, ◌&&◌, ◌||◌, not, ltb, ◌==◌, if◌then◌else◌, arith, map,
}

pub data Round : Type 0 where
  fork_fails wait_fails : Round
  child_ends : (status : ℕ) → Round

-- The guard still waits after `starts` forks, has exited with a code, or has thrown.
pub data Guard : Type 0 where
  supervising : (starts : ℕ) → Guard
  exited : (starts code : ℕ) → Guard
  threw : (starts : ℕ) → Guard

-- `WTERMSIG`, `WIFSIGNALED` and `WEXITSTATUS` of the C library; the second compares
-- `(signed char)((status & 0x7f) + 1) >> 1` with 0.
unfoldable pub term_signal : ℕ → ℕ
term_signal status = status % 128

unfoldable pub is_signaled : ℕ → Bool
unfolding term_signal
is_signaled status =
    let byte = term_signal status + 1 in if ltb byte 128 then ltb 0 (byte / 2) else false

unfoldable pub exit_status : ℕ → ℕ
exit_status status = status / 256 % 256

-- `SIGKILL`, `SIGTERM`, `SIGINT`
unfoldable pub is_stop : ℕ → Bool
is_stop signal = signal == 9 || signal == 15 || signal == 2

-- The test that leads to `continue`.
unfoldable pub restarts : ℕ → Bool
unfolding is_signaled is_stop
restarts status = is_signaled status && not (is_stop (term_signal status))

unfoldable pub guard : ℕ → List Round → Guard
unfolding restarts exit_status
guard starts [] = supervising starts
guard starts (fork_fails ∷ rounds) = threw starts
guard starts (wait_fails ∷ rounds) = threw (starts + 1)
guard starts (child_ends status ∷ rounds) =
    let again = guard (starts + 1) rounds in
    if restarts status then again else exited (starts + 1) (exit_status status)

-- A process that a signal killed has the signal in its status, and 128 more if it dumped core.
abbrev pub killed : ℕ → Bool → ℕ
killed signal core = signal + (if core then 128 else 0)

-- A signal by which a server is not meant to stop.
abbrev pub Crash : ℕ × Bool → Type 0
Crash (signal, core) = (0 < signal) × (signal < 127) × (signal ≢ 9) × (signal ≢ 15) × (signal ≢ 2)

restarts-killed :
    (signal : ℕ) (core : Bool) → Crash (signal, core) → restarts (killed signal core) ≡ true
unfolding restarts
restarts-killed signal core h = ground arith

ends-stop :
    (stop : ℕ) (core : Bool)
    → (stop ≡ 9) ⊎ (stop ≡ 15) ⊎ (stop ≡ 2)
    → (restarts (killed stop core) ≡ false) × (exit_status (killed stop core) ≡ 0)
unfolding restarts exit_status
ends-stop stop core (inl e) = rw e (ground arith, ground arith)
ends-stop stop core (inr (inl e)) = rw e (ground arith, ground arith)
ends-stop stop core (inr (inr e)) = rw e (ground arith, ground arith)

guard-crashes :
    (starts : ℕ) (crashes : List (ℕ × Bool)) (rounds : List Round)
    → All Crash crashes
    → guard starts (map (λ c. child_ends (killed c.0 c.1)) crashes ++ rounds)
      ≡ guard (starts + length crashes) rounds
unfolding guard
guard-crashes starts [] rounds h = ap (λ n. guard n rounds) (omega arith)
guard-crashes starts ((signal, core) ∷ crashes) rounds (c, h) =
    rw (restarts-killed signal core c)
      (guard-crashes (starts + 1) crashes rounds h ∙ ap (λ n. guard n rounds) (omega arith))

-- The server is started once more after each crash. When it ends of itself with a code below 256
-- the guard exits with that code; when it is killed by SIGKILL, SIGTERM or SIGINT the guard exits
-- with 0. Nothing that follows is looked at.
pub guard_lem :
    (crashes : List (ℕ × Bool)) (code stop : ℕ) (core : Bool) (rest : List Round)
    → All Crash crashes
    → code < 256
    → (stop ≡ 9) ⊎ (stop ≡ 15) ⊎ (stop ≡ 2)
    → let before = map (λ c. child_ends (killed c.0 c.1)) crashes in
      (guard 0 (before ++ (child_ends (code * 256) ∷ rest)) ≡ exited (length crashes + 1) code)
      × (guard 0 (before ++ (child_ends (killed stop core) ∷ rest)) ≡ exited (length crashes + 1) 0)
unfolding guard
guard_lem crashes code stop core rest h fits stops = (
  guard-crashes 0 crashes (child_ends (code * 256) ∷ rest) h ∙ ground arith,
  guard-crashes 0 crashes (child_ends (killed stop core) ∷ rest) h
      ∙ (let (ends, code) = ends-stop stop core stops in rw (ends, code) (ground arith)),
)
