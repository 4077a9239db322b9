-- ===== src/Server/Detach/Descriptors.antt =====
-- The standard descriptors behind `detach`.
use threadserver.Prelude.{
  ℕ, ◌≡◌, refl, Bool, true, false, Option, none, some, ok, err, inl, inr, ◌⊎◌, arith, Bool-cases,
  ◌&&◌, if◌then◌else◌, ltb, ◌==◌,
}
use mathlib.Core.Path.{fun_ext}
use threadserver.Prelude.Exec.{modify, pure}
use threadserver.Server.Detach.{File, null_device, Process, Calls, point, duplicate, redirect}

abbrev pub Files : Type 0
Files = ℕ → Option File

-- The calls that `redirect` needs.
abbrev pub Duplicates : Calls → Type 0
Duplicates calls =
    (calls.dup2_works 0 ≡ true) × (calls.dup2_works 1 ≡ true) × (calls.dup2_works 2 ≡ true)

-- The table with the null device at the three standard descriptors, and at the one that it was opened as.
unfoldable pub redirected : ℕ → Files → ℕ → Option File
redirected null files n =
    if ltb n 3 then some null_device else if null == n then some null_device else files n

three : ℕ → Files → Files
three null files =
    let f = point null (some null_device) files in
    let f0 = point 0 (f null) f in let f1 = point 1 (f0 null) f0 in point 2 (f1 null) f1

three-redirected : (null : ℕ) (files : Files) (n : ℕ) → three null files n ≡ redirected null files n
unfolding three redirected point
three-redirected null files n = ground arith

duplicate-ok :
    (calls : Calls) (null n : ℕ) (p : Process)
    → calls.dup2_works n ≡ true
    → duplicate calls null n p ≡ (ok tt, record p { files = point n (p.files null) p.files })
unfolding duplicate
duplicate-ok calls null n p h = rw h refl

unfoldable pub finished : Calls → ℕ → Files → Files
finished calls null files = if ltb 2 null && calls.close_works then point null none files else files

closing :
    (apart works : Bool) (null : ℕ) (p : Process)
    → (if apart
          then (if works
              then modify {E = ℕ} (λ (p : Process). record p { files = point null none p.files })
              else pure tt)
          else pure tt)
        p
      ≡ (ok tt, record p { files = if apart && works then point null none p.files else p.files })
closing true true null p = refl
closing true false null p = refl
closing false works null p = refl

pub redirect-ok :
    (calls : Calls) (null : ℕ) (p : Process)
    → Duplicates calls
    → redirect calls null p
      ≡ (ok tt, record p { files = finished calls null (redirected null p.files) })
unfolding redirect finished three
redirect-ok calls null p (d0, d1, d2) =
    rw (d0, duplicate)
      (rw (d1, duplicate)
        (rw (d2, duplicate)
          (rw (← fun_ext (three-redirected null p.files)) (
            closing (ltb 2 null) calls.close_works null
              (record p { files = three null p.files })))))

module _ (calls : Calls) where
  pub Duplicates-dec : Duplicates calls ⊎ (¬ (Duplicates calls))
  Duplicates-dec = elim (Bool-cases (calls.dup2_works 0)) [
    | inr e ↦ inr (λ d. cc (d.0))
    | inl e0 ↦ elim (Bool-cases (calls.dup2_works 1)) [
      | inr e ↦ inr (λ d. cc (d.1))
      | inl e1 ↦ elim (Bool-cases (calls.dup2_works 2)) [
        | inr e ↦ inr (λ d. cc (d.2))
        | inl e2 ↦ inl (e0, e1, e2)
      ]
    ]
  ]

  pub redirect-exits :
      (null : ℕ) (q : Process) → ¬ (Duplicates calls) → (redirect calls null q).0 ≡ err 1
  unfolding redirect duplicate
  redirect-exits null q no_duplicates = elim (Bool-cases (calls.dup2_works 0)) [
    | inr e ↦ rw (e, duplicate) refl
    | inl e0 ↦ elim (Bool-cases (calls.dup2_works 1)) [
      | inr e ↦ rw (e0, duplicate) (rw (e, duplicate) refl)
      | inl e1 ↦ elim (Bool-cases (calls.dup2_works 2)) [
        | inr e ↦ rw (e0, duplicate) (rw (e1, duplicate) (rw (e, duplicate) refl))
        | inl e2 ↦ absurd (no_duplicates (e0, e1, e2))
      ]
    ]
  ]
