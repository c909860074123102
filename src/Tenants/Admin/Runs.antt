-- ===== src/Tenants/Admin/Runs.antt =====
-- Any calls of the methods of app/services/tenant_admin_service.py keep the tenants' names apart.
use validador_final.Prelude.{String, List, [], ◌∷◌, Option}
use validador_final.Job.{Time}
use validador_final.Tenants.Admin.{
  TenantAdmin, AdminAction, AdminWorld, Caller, TenantAdminRecord, create_tenant, update_tenant,
  disable_tenant, reactivate_tenant,
}
use validador_final.Tenants.Admin.Preserved.{HasUniqueNames, create_tenant-HasUniqueNames}
use validador_final.Tenants.Admin.Kept.{
  update_tenant-HasUniqueNames, disable_tenant-HasUniqueNames, reactivate_tenant-HasUniqueNames,
}

-- The calls that change tenants.
pub data AdminCall : Type 0 where
  create : String → String → List String → AdminCall
  update : String → Option String → Option (List String) → AdminCall
  disable : String → AdminCall
  reactivate : String → AdminCall

module _ (world : AdminWorld) where
  unfoldable pub perform_call : Time → Caller → AdminCall → AdminAction TenantAdminRecord
  perform_call now caller (create id name aliases) = create_tenant world now id name aliases caller
  perform_call now caller (update id name aliases) = update_tenant world now id name aliases caller
  perform_call now caller (disable id) = disable_tenant world now id caller
  perform_call now caller (reactivate id) = reactivate_tenant world now id caller

  -- The service after the calls, those that raise included.
  unfoldable pub perform_calls : List (Time × Caller × AdminCall) → TenantAdmin → TenantAdmin
  perform_calls [] s = s
  perform_calls ((now, caller, c) ∷ calls) s = perform_calls calls (perform_call now caller c s).1

  perform_call-HasUniqueNames :
      (now : Time) (caller : Caller) (c : AdminCall) (s : TenantAdmin)
      → HasUniqueNames world s
      → HasUniqueNames world (perform_call now caller c s).1
  unfolding perform_call
  perform_call-HasUniqueNames now caller (create id name aliases) s u =
      create_tenant-HasUniqueNames world now id name aliases caller s u
  perform_call-HasUniqueNames now caller (update id name aliases) s u =
      update_tenant-HasUniqueNames world now id name aliases caller s u
  perform_call-HasUniqueNames now caller (disable id) s u =
      disable_tenant-HasUniqueNames world now id caller s u
  perform_call-HasUniqueNames now caller (reactivate id) s u =
      reactivate_tenant-HasUniqueNames world now id caller s u

  -- From a start where no identifier or alias names two tenants and no identifier has white space
  -- at its ends, no calls, in any order and those that raise included, lead to a state where a
  -- text names two tenants or where an identifier has such white space.
  pub perform_calls-HasUniqueNames :
      (calls : List (Time × Caller × AdminCall)) (s : TenantAdmin)
      → HasUniqueNames world s
      → HasUniqueNames world (perform_calls calls s)
  unfolding perform_calls
  perform_calls-HasUniqueNames [] s u = u
  perform_calls-HasUniqueNames ((now, caller, c) ∷ calls) s u =
      perform_calls-HasUniqueNames calls _ (perform_call-HasUniqueNames now caller c s u)
