-- ===== src/Access/Gates.antt =====
-- What the gates of src/middleware/auth.ts and the collection gate of
-- src/modules/collections/collection.routes.ts let through.
mod Checks
use Prim.Native.Nat.{ℕ}
use mathlib.Core.Path.{subst}
use my_detail_os_backend.Prelude.{
  Bool, true, false, not, ◌&&◌, ◌||◌, String, List, [], ◌≡◌, ◌≢◌, refl, Option, none, some, arith,
  any, get_or, is_empty, ◌⊎◌, Option-cases, Bool-cases, or_split, inl, inr, strip_prefix, ends_with,
  trim, before, ◌==◌, if◌then◌else◌,
}
use my_detail_os_backend.Access.Roles.{AppRole, platform_owner, customer, role_is}
use my_detail_os_backend.Access.Resolver.{
  AuthUser, has_permission_for_method, bypasses, holds, action_from_http_method,
}
use my_detail_os_backend.Access.Keys.{GranularAction, view, create, edit, delete}
use my_detail_os_backend.Access.Collections.{
  Permission, own, inherited, get_collection_permission, is_array_collection,
  is_singleton_collection, is_inherited, own-registered, inherited-name,
}
unfoldable pub use Checks.*

-- What a request that passes has shown of its organization.
abbrev pub IsServed : (String → Option Org) → Request → AuthUser → Type 0
IsServed find_org req auth =
    auth.role ≢ platform_owner
    → is_logout req ≡ false
    → org_id_of auth ≢ ""
    → (org : Org) × (find_org (org_id_of auth) ≡ some org) × (is_open org ≡ true)

-- The user of a request that passes is the one of a bearer token that verifies.
abbrev pub IsAuthentic : (String → Option Claims) → Request → AuthUser → Type 0
IsAuthentic verify req auth =
    (token : String) × (claims : Claims) × (bearer req.authorization ≡ some token)
    × (verify token ≡ some claims)
    × (auth ≡ user_of claims)

ne-empty : (s : String) → is_empty s ≡ true → s ≡ ""
ne-empty String.[] h = refl
ne-empty (String.◌∷◌ c s) h = cc

open_row-some :
    (o : Option Org) → open_row o ≡ true → (org : Org) × (o ≡ some org) × (is_open org ≡ true)
open_row-some none h = cc
open_row-some (some org) h = (org, refl, h)

role_is-owner : (r : AppRole) → role_is r platform_owner ≡ true → r ≡ platform_owner
role_is-owner r h = ground arith

module _ (verify : String → Option Claims) (find_org : String → Option Org) where
  access-IsServed :
      (req : Request) (auth : AuthUser)
      → assert_organization_access verify find_org req auth ≡ true
      → IsServed find_org req auth
  unfolding assert_organization_access
  access-IsServed req auth h not_owner not_logout has_org =
      open_row-some (find_org (org_id_of auth))
        (ground (arith, role_is-owner auth.role, ne-empty (org_id_of auth)))

  admit-eq-pass :
      (req : Request) (a auth : AuthUser)
      → admit verify find_org req a ≡ pass auth
      → (assert_organization_access verify find_org req a ≡ true) × (auth ≡ a)
  unfolding admit
  admit-eq-pass req a auth h =
      elim (Bool-cases (assert_organization_access verify find_org req a)) [
        | inl e ↦ (e, cc (rw e at h))
        | inr e ↦ cc (rw e at h)
      ]

  -- A request that authentication lets through carries a token that verifies, its user is the
  -- token's, and the studio of the user is active and not cancelled, unless the user is the platform
  -- owner, has no studio, or logs out.
  pub require_auth_sound :
      (req : Request) (auth : AuthUser)
      → require_auth verify find_org req ≡ pass auth
      → IsAuthentic verify req auth × IsServed find_org req auth
  unfolding require_auth
  require_auth_sound req auth h = elim (Option-cases (bearer req.authorization)) [
    | inl missing ↦ cc (rw (missing, require_auth) at h)
    | inr (token, given) ↦ elim (Bool-cases (is_empty token)) [
      | inl e ↦ cc (rw (given, e, require_auth) at h)
      | inr e ↦ elim (Option-cases (verify token)) [
        | inl bad ↦ cc (rw (given, e, bad, require_auth) at h)
        | inr (claims, good) ↦
            let h' : admit verify find_org req (user_of claims) ≡ pass auth =
              rw (given, e, good, require_auth) at h in
            let (served, same) = admit-eq-pass req (user_of claims) auth h' in
            (
              (token, claims, given, good, same),
              rw same (access-IsServed req (user_of claims) served),
            )
      ]
    ]
  ]

Gate-cases : (g : Gate) → ((n : ℕ) × (g ≡ refuse n)) ⊎ ((a : AuthUser) × (g ≡ pass a))
Gate-cases (pass a) = inr (a, refl)
Gate-cases (refuse n) = inl (n, refl)

-- The user holds the permission of a registered collection for the method.
abbrev pub IsPermitted : String → String → AuthUser → Type 0
IsPermitted collection method auth =
    ((is_array_collection collection || is_singleton_collection collection) ≡ true)
    × (permission : String) × (get_collection_permission collection ≡ some (own permission))
    × (has_permission_for_method auth permission method ≡ true)

-- The collection is none, but is named like something that every object inherits, and the user has a
-- role that bypasses all checks, or a key for an action on the text of what is inherited.
abbrev pub SlipsThrough : String → AuthUser → Type 0
SlipsThrough collection auth =
    (is_inherited collection ≡ true)
    × ((bypasses auth.role ≡ true)
        ⊎ ((action : GranularAction) × (holds (get_or auth.permissions [])
                (inherited_text collection) action
              ≡ true)))

holds_some :
    (held : List String) (p : String) (action : GranularAction)
    → (holds held p action
        || (holds held p view || holds held p create || holds held p edit || holds held p delete))
      ≡ true
    → (a : GranularAction) × (holds held p a ≡ true)
holds_some held p action h = elim (or_split _ _ h) [
  | inl e ↦ (action, e)
  | inr e ↦ elim (or_split _ _ e) [
    | inr d ↦ (delete, d)
    | inl f ↦ elim (or_split _ _ f) [
      | inr k ↦ (edit, k)
      | inl g ↦ elim (or_split _ _ g) [ inl v ↦ (view, v) | inr c ↦ (create, c) ]
    ]
  ]
]

inherited-SlipsThrough :
    (collection name method : String) (auth : AuthUser)
    → get_collection_permission collection ≡ some (inherited name)
    → has_collection_permission auth (inherited name) method ≡ true
    → SlipsThrough collection auth
unfolding has_collection_permission
inherited-SlipsThrough collection name method auth found h =
    let (is_name, same) = inherited-name collection name found in
    elim (Bool-cases (bypasses auth.role)) [
      | inl b ↦ (is_name, inl b)
      | inr b ↦ elim (Option-cases (action_from_http_method method)) [
        | inl none_ ↦ cc (rw (has_collection_permission, b, none_) at h)
        | inr (action, e) ↦
            let key = rw (has_collection_permission, b, e, same) at h in
            (
              is_name,
              inr (holds_some (get_or auth.permissions []) (inherited_text collection) action key),
            )
      ]
    ]

permitted :
    (collection method : String) (auth : AuthUser) (p : Permission)
    → get_collection_permission collection ≡ some p
    → has_collection_permission auth p method ≡ true
    → IsPermitted collection method auth ⊎ SlipsThrough collection auth
unfolding has_collection_permission
permitted collection method auth (own p) found h =
    inl (own-registered collection p found, p, found, h)
permitted collection method auth (inherited name) found h =
    inr (inherited-SlipsThrough collection name method auth found h)

gate_sound :
    (collection method : String) (a auth : AuthUser)
    → require_collection_permission collection method (some a) ≡ pass auth
    → (a ≡ auth) × (IsPermitted collection method a ⊎ SlipsThrough collection a)
unfolding require_collection_permission
gate_sound collection method a auth h = elim (Option-cases (get_collection_permission collection)) [
  | inl e ↦ cc (rw (e, require_collection_permission) at h)
  | inr (permission, e) ↦
      (ground (arith, e), permitted collection method a permission e (ground (arith, e)))
]

-- A collection's route serves a request only to a user who authenticated and whose studio is served.
-- The collection is registered, and the user holds its permission for the request's method; or, against
-- the default deny, it is named like something that every object inherits, such as `constructor`, and
-- the user has a role that bypasses all checks or a key that is spelled like what is inherited.
pub collection_route_sound :
    (verify : String → Option Claims) (find_org : String → Option Org) (collection : String)
    (req : Request) (auth : AuthUser)
    → collection_route verify find_org collection req ≡ pass auth
    → IsAuthentic verify req auth
      × IsServed find_org req auth
      × (IsPermitted collection req.method auth ⊎ SlipsThrough collection auth)
unfolding collection_route
collection_route_sound verify find_org collection req auth h =
    elim (Gate-cases (require_auth verify find_org req)) [
      | inl (n, e) ↦ cc (rw (e, collection_route) at h)
      | inr (a, e) ↦
          let (same, holds_it) =
            gate_sound collection req.method a auth (rw (e, collection_route) at h) in
          let (authentic, served) =
            require_auth_sound verify find_org req auth
              (subst (λ x. require_auth verify find_org req ≡ pass x) same e) in
          (
            authentic,
            served,
            subst (λ x. IsPermitted collection req.method x ⊎ SlipsThrough collection x) same
                holds_it,
          )
    ]
