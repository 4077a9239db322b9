-- ===== src/Listener/Access.antt =====
-- Who may connect: `Listener_t::isForbidden`.
use threadserver.Prelude.{
  ℕ, ◌≡◌, refl, ap, ◌∙◌, Bool, true, false, not, ◌&&◌, List, [], ◌∷◌, arith, Bytes, ok, any,
  if◌then◌else◌,
}
use threadserver.Boost.{Boost}
use threadserver.Network.{Network, contains}
use threadserver.Listener.{Listener, Remote, v4, other, mark, is_forbidden, new_listener}

-- The list has the address.
abbrev pub listed : ℕ → List Network → Bool
listed address = any (λ network. contains network address)

mark_lem :
    (result value : Bool) (address : ℕ) (networks : List Network)
    → mark result value address networks ≡ (if listed address networks then value else result)
unfolding mark
mark_lem result value address [] = refl
mark_lem result value address (network ∷ networks) =
    ground (arith, mark_lem result value address networks)

-- An IPv4 address is let in under allow-then-deny exactly if it is allowed and not denied, and
-- under deny-then-allow exactly if it is allowed. Any other address is refused.
is_forbidden_lem :
    (l : Listener) (address : ℕ) (text : Bytes)
    → (is_forbidden l (v4 address)
        ≡ not (
            listed address l.allowed
            && (if l.allow_first then not (listed address l.denied) else true)))
      × (is_forbidden l (other text) ≡ true)
unfolding is_forbidden
is_forbidden_lem l address text = (
  ground (
    arith,
    mark_lem true false address l.allowed,
    mark_lem true true address l.denied,
    mark_lem (mark true false address l.allowed) true address l.denied,
    mark_lem (mark true true address l.denied) false address l.allowed,
  ),
  refl,
)

-- What the constructor makes of its arguments.
new_listener-fields :
    (b : Boost) (can_bind : Bytes → ℕ → Bool) (address handler_name : Bytes) (allow_first : Bool)
    (allowed denied : List Network) (l : Listener)
    → new_listener b can_bind address handler_name allow_first allowed denied ≡ ok l
    → (l.allow_first ≡ true) × (l.allowed ≡ allowed) × (l.denied ≡ denied)
unfolding new_listener
new_listener-fields b can_bind address handler_name allow_first allowed denied l h = ground arith

-- Who is let in under allow-then-deny: an IPv4 address that is allowed and not denied.
abbrev pub admitted : (allowed denied : List Network) → Remote → Bool
admitted allowed denied (v4 a) = listed a allowed && not (listed a denied)
admitted allowed denied (other text) = false

-- A listener that was constructed applies allow-then-deny, whatever order it was given: of all remote
-- ends it lets in exactly those with an IPv4 address that is allowed and not denied. One with any
-- other address is refused.
pub is_forbidden-new_listener :
    (b : Boost) (can_bind : Bytes → ℕ → Bool) (address handler_name : Bytes) (allow_first : Bool)
    (allowed denied : List Network) (l : Listener) (remote : Remote)
    → new_listener b can_bind address handler_name allow_first allowed denied ≡ ok l
    → is_forbidden l remote ≡ not (admitted allowed denied remote)
is_forbidden-new_listener b can_bind address handler_name allow_first allowed denied l (v4 a) h =
    let (order, es, ds) =
      new_listener-fields b can_bind address handler_name allow_first allowed denied l h in
    (is_forbidden_lem l a []).0 ∙ cc (order, ap (listed a) es, ap (listed a) ds)
is_forbidden-new_listener b can_bind address handler_name allow_first allowed denied l (other text)
      h =
    (is_forbidden_lem l 0 text).1
