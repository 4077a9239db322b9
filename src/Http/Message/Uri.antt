-- ===== src/Http/Message/Uri.antt =====
-- How a request's URI is taken apart.
use threadserver.Prelude.{
  ℕ, zero, suc, ◌+◌, ◌≤◌, ◌≡◌, ◌≢◌, refl, sym, ap, ◌∙◌, true, some, [], ◌∷◌, ◌++◌, arith, Bytes,
  Lacks, All-append, find, find-append, find-none, length, take, take-length_append,
  drop-suc_length_append, ltb, lt→ltb, length-append,
}
use mathlib.Core.List.{append_assoc}
use Prim.Native.Nat.{min}
use threadserver.Http.Message.{path_of, query_of}

take_all : (s : Bytes) (n : ℕ) → length s ≤ n → take n s ≡ s
take_all [] zero h = refl
take_all [] (suc n) h = refl
take_all (x ∷ s) zero h = absurd (omega arith)
take_all (x ∷ s) (suc n) h = ap (◌∷◌ x) (take_all s n (omega arith))

take-append_over : (a b : Bytes) (n : ℕ) → take (length a + n) (a ++ b) ≡ a ++ take n b
take-append_over [] b n = let e : 0 + n ≡ n = omega arith in ap (λ (k : ℕ). take k b) e
take-append_over (x ∷ a) b n =
    let e : suc (length a) + n ≡ suc (length a + n) = omega arith in
    rw e (ap (◌∷◌ x) (take-append_over a b n))

module _ (path query : Bytes) (path_mark : Lacks b'?' path) (path_hash : Lacks b'#' path) where
  -- A URI with a query and no fragment, whose path has no question mark: the path is what precedes
  -- the question mark, and the query is all that follows it.
  pub query_of-plain :
      Lacks b'#' query
      → (path_of (path ++ (b'?' ∷ query)) ≡ path) × (query_of (path ++ (b'?' ∷ query)) ≡ some query)
  unfolding path_of query_of
  query_of-plain lacks =
      let none_found =
        find-none b'#' (path ++ (b'?' ∷ query))
          (All-append (λ x. x ≢ b'#') path (b'?' ∷ query) path_hash (omega arith, lacks)) in
      let found = find-append b'?' path query path_mark in
      (
        rw (found, none_found, path_of) (take-length_append path (b'?' ∷ query)),
        rw (found, none_found, query_of) (ap some (drop-suc_length_append path b'?' query)),
      )

  -- With a fragment behind the query, the path is still what precedes the question mark, but the
  -- text that is parsed for parameters goes on past the query: it takes in the "#" and as many
  -- characters of the fragment as the path has.
  pub query_of-fragment :
      (fragment : Bytes)
      → Lacks b'#' query
      → (path_of (path ++ (b'?' ∷ (query ++ (b'#' ∷ fragment)))) ≡ path)
        × (query_of (path ++ (b'?' ∷ (query ++ (b'#' ∷ fragment))))
            ≡ some (query ++ (b'#' ∷ take (length path) fragment)))
  unfolding path_of query_of
  query_of-fragment fragment lacks =
      let rest = query ++ (b'#' ∷ fragment) in
      let before = path ++ (b'?' ∷ query) in
      let mark : find b'?' (path ++ (b'?' ∷ rest)) ≡ some (length path) =
        find-append b'?' path rest path_mark in
      let hash : find b'#' (path ++ (b'?' ∷ rest)) ≡ some (length before) =
        ap (find b'#') (sym (append_assoc path (b'?' ∷ query) (b'#' ∷ fragment)))
        ∙ find-append b'#' before fragment
            (All-append (λ x. x ≢ b'#') path (b'?' ∷ query) path_hash (omega arith, lacks)) in
      let size : length before ≡ length query + suc (length path) =
        omega (arith, length-append path (b'?' ∷ query)) in
      (
        rw (mark, hash, path_of)
            (let least : min (length path) (length before) ≡ length path = omega (arith, size) in
              rw least (take-length_append path (b'?' ∷ rest))),
        rw (mark, hash, query_of)
            (let later : ltb (length path) (length before) ≡ true =
                lt→ltb _ _ (omega (arith, size)) in
              rw later (
                ap some (
                  ap (take (length before)) (drop-suc_length_append path b'?' rest)
                  ∙ ap (λ (n : ℕ). take n rest) size
                  ∙ take-append_over query (b'#' ∷ fragment) (suc (length path))))),
      )
