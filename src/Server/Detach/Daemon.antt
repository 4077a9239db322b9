-- ===== src/Server/Detach/Daemon.antt =====
-- What `detach` makes of the process.
use threadserver.Prelude.{
  ap, sym, ℕ, ◌<◌, ◌≡◌, ◌≢◌, refl, Bool, true, false, Option, none, some, Result, ok, err, codes,
  inl, inr, ◌⊎◌, arith,
}
use mathlib.Core.Path.{subst}
use threadserver.Server.Detach.Descriptors.{
  Duplicates, Files, redirected, finished, redirect-ok, Duplicates-dec, redirect-exits,
}
use threadserver.Server.Detach.{
  null_device, Process, Fork, fails, parent, child, Calls, forked, point, detach,
}

-- A process that runs in the background: it leads no session, in a session of its own, stands in the
-- root directory, masks no permission, and its standard descriptors are the null device. Of the others
-- only the one that the null device was opened as has changed, and it is closed if that works.
pub record IsDaemon (calls : Calls) (null : ℕ) (p p' : Process) : Type 0 where
  pub directory : p'.directory ≡ codes "/"
  pub mask : p'.mask ≡ 0
  pub leads_none : p'.leads_session ≡ false
  pub own : p'.own_session ≡ true
  pub standard : (n : ℕ) → n < 3 → p'.files n ≡ some null_device
  pub others : (n : ℕ) → 2 < n → n ≢ null → p'.files n ≡ p.files n
  pub closed : 2 < null → calls.close_works ≡ true → p'.files null ≡ none

-- Every call works, and the process is the child of both forks.
pub record Works (calls : Calls) (null : ℕ) : Type 0 where
  pub first : calls.first_fork ≡ child
  pub setsid : calls.setsid_works ≡ true
  pub second : calls.second_fork ≡ child
  pub chdir : calls.chdir_works ≡ true
  pub opened : calls.open_null ≡ some null
  pub duplicates : Duplicates calls

abbrev background : Files → Process
background files = record {
  directory = codes "/";
  mask = 0;
  files = files;
  leads_session = false;
  own_session = true;
}

detach-Works :
    (calls : Calls) (null : ℕ) (p : Process)
    → Works calls null
    → detach calls p ≡ (ok tt, background (finished calls null (redirected null p.files)))
unfolding detach forked finished
detach-Works calls null p w =
    rw (w.first, forked)
      (rw w.setsid (
        rw (w.second, forked)
          (rw w.chdir (
            rw w.opened (
              redirect-ok calls null
                (record p {
                  leads_session = false;
                  own_session = true;
                  directory = codes "/";
                  mask = 0;
                })
                w.duplicates)))))

finished-IsDaemon :
    (calls : Calls) (null : ℕ) (p : Process)
    → IsDaemon calls null p (background (finished calls null (redirected null p.files)))
unfolding finished redirected point
finished-IsDaemon calls null p = record {
  directory = refl;
  mask = refl;
  leads_none = refl;
  own = refl;
  standard = λ n h. ground arith;
  others = λ n h k. ground arith;
  closed = λ h k. ground arith;
}

-- How `detach` ends: the process goes on as a daemon, where every call worked; a parent of one of the
-- two forks exits with 0; and any other process exits with 1, where some call did not work.
abbrev pub Ended : Calls → Process → Result ℕ (Unit {0}) × Process → Type 0
Ended calls p (ok done, p') = (null : ℕ) × Works calls null × IsDaemon calls null p p'
Ended calls p (err code, p') =
    ((code ≡ 0)
      × ((calls.first_fork ≡ parent) ⊎ ((calls.first_fork ≡ child) × (calls.second_fork ≡ parent))))
    ⊎ ((code ≡ 1) × ((null : ℕ) → ¬ (Works calls null)))

module _ (calls : Calls) (p : Process) where
  Ended-exit :
      (r : Result ℕ (Unit {0}) × Process)
      → r.0 ≡ err 1
      → ((null : ℕ) → ¬ (Works calls null))
      → Ended calls p r
  Ended-exit (ok done, q) e never = cc
  Ended-exit (err code, q) e never = inr (cc, never)

module _ (dup2_works : ℕ → Bool) (close_works : Bool) (p : Process) where
  abbrev with_calls : Fork → Bool → Fork → Bool → Option ℕ → Calls
  with_calls first setsid second chdir opened = record {
    first_fork = first;
    setsid_works = setsid;
    second_fork = second;
    chdir_works = chdir;
    open_null = opened;
    dup2_works = dup2_works;
    close_works = close_works;
  }

  opened-Ended :
      (null : ℕ)
      → let calls = with_calls child true child true (some null) in Ended calls p (detach calls p)
  unfolding detach forked
  opened-Ended null =
      let calls = with_calls child true child true (some null) in
      elim (Duplicates-dec calls) [
        | inl d ↦
            let w : Works calls null = record {
              first = refl;
              setsid = refl;
              second = refl;
              chdir = refl;
              opened = refl;
              duplicates = d;
            } in
            subst (Ended calls p) (sym (detach-Works calls null p w))
              (null, w, finished-IsDaemon calls null p)
        | inr no_duplicates ↦
            Ended-exit calls p _ (redirect-exits calls null _ no_duplicates)
              (λ n w. no_duplicates w.duplicates)
      ]

  calls-Ended :
      (first : Fork) (setsid : Bool) (second : Fork) (chdir : Bool) (opened : Option ℕ)
      → let calls = with_calls first setsid second chdir opened in Ended calls p (detach calls p)
  unfolding detach forked
  calls-Ended fails setsid second chdir opened = inr (refl, λ null w. cc (w.first))
  calls-Ended parent setsid second chdir opened = inl (refl, inl refl)
  calls-Ended child false second chdir opened = inr (refl, λ null w. cc (w.setsid))
  calls-Ended child true fails chdir opened = inr (refl, λ null w. cc (w.second))
  calls-Ended child true parent chdir opened = inl (refl, inr (refl, refl))
  calls-Ended child true child false opened = inr (refl, λ null w. cc (w.chdir))
  calls-Ended child true child true none = inr (refl, λ null w. cc (w.opened))
  calls-Ended child true child true (some null) = opened-Ended null

-- Whatever the system calls come to: if `detach` returns, then every call worked and the process leads
-- no session, in a session of its own, stands in the root directory, masks no permission, and has the
-- null device at its standard descriptors and no descriptor more than before, unless it cannot close
-- the one that it opened. If it exits, then with 0 in a parent of one of the two forks, and with 1
-- where a call did not work; and it does return where every call works.
pub detach-Ended :
    (calls : Calls) (p : Process)
    → Ended calls p (detach calls p) × ((null : ℕ) → Works calls null → (detach calls p).0 ≡ ok tt)
detach-Ended calls p = (
  calls-Ended calls.dup2_works calls.close_works p calls.first_fork calls.setsid_works
      calls.second_fork calls.chdir_works calls.open_null,
  λ null w. ap (λ r. r.0) (detach-Works calls null p w),
)
