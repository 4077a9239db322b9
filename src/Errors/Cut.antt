-- ===== src/Errors/Cut.antt =====
-- Where the text of an error ends: at its first NUL, or with the buffer.
use threadserver.Prelude.{
  ℕ, zero, suc, ◌+◌, ◌≡◌, ◌⊎◌, ◌≤◌, refl, ap, ◌∙◌, Bytes, none, some, [], ◌∷◌, ◌++◌, take, find,
  find-none, length, Lacks, arith, Option-cases, inl, inr,
}
use mathlib.Core.List.{append_assoc}
use threadserver.Errors.{c_str, buffered}

pub take-Lacks : (c n : ℕ) (s : Bytes) → Lacks c s → Lacks c (take n s)
take-Lacks c zero s h = tt
take-Lacks c (suc n) [] h = tt
take-Lacks c (suc n) (x ∷ s) h = (h.0, take-Lacks c n s h.1)

pub length-take : (n : ℕ) (s : Bytes) → length (take n s) ≤ n
length-take zero s = omega arith
length-take (suc n) [] = omega arith
length-take (suc n) (x ∷ s) = omega (arith, length-take n s)

-- Nothing before the first `c` is a `c`.
pub take-find_Lacks : (c : ℕ) (s : Bytes) (n : ℕ) → find c s ≡ some n → Lacks c (take n s)
unfolding find
take-find_Lacks c [] n h = cc
take-find_Lacks c (x ∷ s) zero h = tt
take-find_Lacks c (x ∷ s) (suc n) h = ground (arith, take-find_Lacks c s n)

pub find-none_Lacks : (c : ℕ) (s : Bytes) → find c s ≡ none → Lacks c s
unfolding find
find-none_Lacks c [] h = tt
find-none_Lacks c (x ∷ s) h = ground (arith, find-none_Lacks c s)

pub c_str-Lacks : (s : Bytes) → Lacks 0 (c_str s)
unfolding c_str
c_str-Lacks s = elim (Option-cases (find 0 s)) [
  | inl e ↦ rw (e, c_str) (find-none_Lacks 0 s e)
  | inr (n, e) ↦ rw (e, c_str) (take-find_Lacks 0 s n e)
]

pub take-take : (n : ℕ) (s : Bytes) → take n (take n s) ≡ take n s
take-take zero s = refl
take-take (suc n) [] = refl
take-take (suc n) (x ∷ s) = ap (◌∷◌ x) (take-take n s)

pub length-take_le : (m : ℕ) (s : Bytes) → length (take m s) ≤ length s
length-take_le zero s = omega arith
length-take_le (suc m) [] = omega arith
length-take_le (suc m) (x ∷ s) = omega (arith, length-take_le m s)

pub c_str-le : (s : Bytes) (n : ℕ) → length s ≤ n → length (c_str s) ≤ n
unfolding c_str
c_str-le s n h = elim (Option-cases (find 0 s)) [
  | inl e ↦ rw (e, c_str) h
  | inr (m, e) ↦ rw (e, c_str) (omega (arith, length-take_le m s))
]

pub c_str-plain : (s : Bytes) → Lacks 0 s → c_str s ≡ s
unfolding c_str
c_str-plain s h = rw (find-none 0 s h, c_str) refl

pub c_str-buffered : (t : Bytes) → c_str (buffered t) ≡ buffered t
unfolding buffered
c_str-buffered t = c_str-plain _ (c_str-Lacks (take 65535 t))

pub buffered-plain : (t : Bytes) → Lacks 0 t → buffered t ≡ take 65535 t
unfolding buffered
buffered-plain t h = c_str-plain (take 65535 t) (take-Lacks 0 65535 t h)

pub take-append_conversion :
    (n : ℕ) (a b : Bytes)
    → length a + 2 ≤ n
    → (c : Bytes) × (take n (a ++ (b'%' ∷ b's' ∷ b)) ≡ a ++ (b'%' ∷ b's' ∷ c))
take-append_conversion zero a b h = absurd (omega arith)
take-append_conversion (suc zero) a b h = absurd (omega arith)
take-append_conversion (suc (suc n)) [] b h = (take n b, refl)
take-append_conversion (suc (suc n)) (x ∷ a) b h =
    let (c, e) = take-append_conversion (suc n) a b (omega arith) in (c, ap (◌∷◌ x) e)

-- Why a text ends before `rest`: there is no more, it has `n` bytes, or a NUL follows.
abbrev pub EndsBefore : ℕ → Bytes → Bytes → Type 0
EndsBefore n rest text = (rest ≡ []) ⊎ ((length text ≡ n) ⊎ ((more : Bytes) × (rest ≡ 0 ∷ more)))

-- A text is cut at its first `c`.
pub split_at-find :
    (c : ℕ) (s : Bytes) (n : ℕ) → find c s ≡ some n → (more : Bytes) × (s ≡ take n s ++ (c ∷ more))
unfolding find
split_at-find c [] n h = cc
split_at-find c (x ∷ s) zero h = (s, ground (arith))
split_at-find c (x ∷ s) (suc n) h =
    let (more, e) = split_at-find c s n (ground arith) in (more, ap (◌∷◌ x) e)

pub longer :
    (n x : ℕ) (rest text : Bytes) → EndsBefore n rest text → EndsBefore (suc n) rest (x ∷ text)
longer n x rest text (inl e) = inl e
longer n x rest text (inr (inl e)) = inr (inl (omega arith))
longer n x rest text (inr (inr m)) = inr (inr m)

pub take-EndsBefore :
    (n : ℕ) (t : Bytes) → (rest : Bytes) × (t ≡ take n t ++ rest) × EndsBefore n rest (take n t)
take-EndsBefore zero t = (t, refl, inr (inl refl))
take-EndsBefore (suc n) [] = ([], refl, inl refl)
take-EndsBefore (suc n) (x ∷ t) =
    let (rest, e, ends) = take-EndsBefore n t in
    (rest, ap (◌∷◌ x) e, longer n x rest (take n t) ends)

-- A text of at most `n` bytes with no NUL, that is cut from `t` as late as that allows.
pub record IsCut (n : ℕ) (t text : Bytes) : Type 0 where
  pub rest : Bytes
  pub parts : t ≡ text ++ rest
  pub plain : Lacks 0 text
  pub fits : length text ≤ n
  pub ends : EndsBefore n rest text

pub whole-IsCut : (n : ℕ) (t : Bytes) → Lacks 0 (take n t) → IsCut n t (take n t)
whole-IsCut n t h =
    let (rest, e, ends) = take-EndsBefore n t in
    record { rest = rest; parts = e; plain = h; fits = length-take n t; ends = ends }

pub c_str-IsCut : (n : ℕ) (t : Bytes) → IsCut n t (c_str (take n t))
unfolding c_str
c_str-IsCut n t = elim (Option-cases (find 0 (take n t))) [
  | inl e ↦ rw (e, c_str) (whole-IsCut n t (find-none_Lacks 0 (take n t) e))
  | inr (m, e) ↦
      rw (e, c_str)
        (let (rest, parts, ends) = take-EndsBefore n t in
          let (more, cut) = split_at-find 0 (take n t) m e in
          record {
            rest = 0 ∷ (more ++ rest);
            parts =
                parts ∙ ap (λ s. s ++ rest) cut ∙ append_assoc (take m (take n t)) (0 ∷ more) rest;
            plain = take-find_Lacks 0 (take n t) m e;
            fits = omega (arith, length-take_le m (take n t), length-take n t);
            ends = inr (inr (more ++ rest, refl));
          })
]
