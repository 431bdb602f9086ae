-- ===== src/Scope/Caller.antt =====
-- The branches that a caller may list (src/lib/data-scope.ts).
use my_detail_os_backend.Prelude.{
  String, false, List, [], ◌∷◌, Option, some, ◌≡◌, refl, arith, All, includes, inl, inr, Bool-cases,
  is_empty, trim, get_or, All-includes,
}
use my_detail_os_backend.Access.Resolver.{AuthUser}
use my_detail_os_backend.Scope.{
  BranchScope, can_use_org_wide_branch_scope, home_branches, resolve_branch_scope, organization_of,
  intersect_query_branch_id,
}

home_branches-home :
    (org : List String) (home : String) → All (λ id. id ≡ home) (home_branches org home)
unfolding home_branches
home_branches-home [] home = ground arith
home_branches-home (b ∷ bs) home = ground arith

-- A caller whose role is not organization-wide, and whose scope resolves, lists no branch but the
-- home branch, whatever the query asks for; the query never widens the scope to all branches.
pub branch_bound_caller :
    (find_user_org : String → Option String) (list_org_branch_ids : String → List String)
    (auth : AuthUser) (scope : BranchScope) (query : Option String)
    → can_use_org_wide_branch_scope auth.role ≡ false
    → resolve_branch_scope find_user_org list_org_branch_ids auth ≡ some scope
    → (ids : List String) × (intersect_query_branch_id scope query ≡ some ids)
      × All (λ id. id ≡ auth.branch_id) ids
unfolding resolve_branch_scope intersect_query_branch_id
branch_bound_caller find_user_org list_org_branch_ids auth scope query bound found =
    let org = organization_of find_user_org auth in
    let homes = home_branches (list_org_branch_ids org) auth.branch_id in
    let only : scope.allowed_branch_ids ≡ some homes = ground arith in
    let id = trim (get_or query "") in
    rw only (elim (Bool-cases (is_empty id)) [
      | inl e ↦ rw e (homes, refl, home_branches-home (list_org_branch_ids org) auth.branch_id)
      | inr e ↦ elim (Bool-cases (includes id homes)) [
        | inl i ↦
            rw (e, i)
              (
                id ∷ [],
                refl,
                (
                  All-includes (λ x. x ≡ auth.branch_id) id homes i
                      (home_branches-home (list_org_branch_ids org) auth.branch_id),
                  tt,
                ),
              )
        | inr i ↦ rw (e, i) ([], refl, tt)
      ]
    ])
