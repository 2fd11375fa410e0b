-- ===== src/Orchestrator/Permissions.antt =====
-- nexus/orchestrator/permissions.py: what each role may call and whom it may write to.
pub mod Chain
pub mod Exclusive
use nexus_ai_team.Prelude.{
  ◌≡◌, refl, String, Bool, true, false, Option, none, some, List, [], ◌∷◌, ◌==◌, ◌&&◌, any,
  if◌then◌else◌,
}
use nexus_ai_team.Prelude.Text.{◌⁀◌}
use nexus_ai_team.Prelude.Dict.{Dict, lookup}
use nexus_ai_team.Effects.{Result, ok, err, permission_error}

pub record RolePermissions : Type 0 where
  pub tools : List String
  pub allowed_contacts : List String
  pub file_scope : List String
  pub constraints : List String

abbrev pub role_permissions : Dict RolePermissions
role_permissions =
    (
      "ceo",
      record {
        tools = "generate_contract" ∷ "send_mail" ∷ "write_note" ∷ "read_reports" ∷ [];
        allowed_contacts = "it_manager" ∷ "hr_manager" ∷ "product_manager" ∷ "manager" ∷ [];
        file_scope = "company/" ∷ "docs/" ∷ [];
        constraints = "NO_CLI" ∷ "NO_CODE" ∷ "NO_DIRECT_EXECUTION" ∷ [];
      },
    )
    ∷ (
      "manager",
      record {
        tools =
            "break_down_task" ∷ "assign_worker" ∷ "review_report" ∷ "send_mail" ∷ "escalate" ∷ [];
        allowed_contacts = "ceo" ∷ "worker" ∷ "qa" ∷ "own_department_workers" ∷ [];
        file_scope = "department_specific/" ∷ [];
        constraints = "NO_CROSS_DEPARTMENT" ∷ "NO_DIRECT_CODE_EXECUTION" ∷ [];
      },
    )
    ∷ (
      "worker",
      record {
        tools = "write_code" ∷ "run_tests" ∷ "git_commit" ∷ "read_file" ∷ "send_mail" ∷ [];
        allowed_contacts = "manager" ∷ "own_manager" ∷ [];
        file_scope = "task_branch_only/" ∷ [];
        constraints = "NO_MAIN_BRANCH" ∷ "NO_CROSS_DEPARTMENT" ∷ "NO_UPWARD_COMMAND" ∷ [];
      },
    )
    ∷ (
      "qa",
      record {
        tools = "review_code" ∷ "run_linter" ∷ "run_tests" ∷ "write_verdict" ∷ "send_mail" ∷ [];
        allowed_contacts = "manager" ∷ "own_manager" ∷ [];
        file_scope = "read_only_all/" ∷ [];
        constraints = "NO_CODE_MODIFICATION" ∷ "NO_DIRECT_DEPLOY" ∷ [];
      },
    )
    ∷ []

abbrev pub allowed_mail_routes : List (String × String)
allowed_mail_routes =
    ("ceo", "manager")
    ∷ ("manager", "ceo")
    ∷ ("manager", "worker")
    ∷ ("manager", "qa")
    ∷ ("worker", "manager")
    ∷ ("qa", "manager")
    ∷ []

-- item in items
unfoldable pub is_in : String → List String → Bool
is_in item items = any (λ i. i == item) items

unfoldable pub is_route : String → String → Bool
is_route from to = any (λ (f, t). f == from && t == to) allowed_mail_routes

check_tool : String → String → Option RolePermissions → Result (Unit {0})
check_tool role tool_name none = err (permission_error role tool_name)
check_tool role tool_name (some perms) =
    if is_in tool_name perms.tools then ok tt else err (permission_error role tool_name)

unfoldable pub check_tool_permission : String → String → Result (Unit {0})
unfolding check_tool is_in lookup
check_tool_permission role tool_name = check_tool role tool_name (lookup role role_permissions)

-- repr of a role name, which holds no quote and no backslash.
quote : String → String
quote s = "'" ⁀ s ⁀ "'"

unfoldable pub check_mail_permission : String → String → Option String
unfolding is_route quote
check_mail_permission from_role to_role =
    if is_route from_role to_role
    then none
    else some (
        "不允许的通信路径 "
        ⁀ quote from_role
        ⁀ " → "
        ⁀ quote to_role
        ⁀ "，"
        ⁀ "合法路径：[('ceo', 'manager'), ('manager', 'ceo'), ('manager', 'qa'), "
        ⁀ "('manager', 'worker'), ('qa', 'manager'), ('worker', 'manager')]")

constraints_of : Option RolePermissions → List String
constraints_of none = []
constraints_of (some perms) = perms.constraints

unfoldable pub check_constraint : String → String → Bool
unfolding constraints_of is_in lookup
check_constraint role constraint = is_in constraint (constraints_of (lookup role role_permissions))

tools_of : Option RolePermissions → List String
tools_of none = []
tools_of (some perms) = perms.tools

unfoldable pub get_role_tools : String → List String
unfolding tools_of lookup
get_role_tools role = tools_of (lookup role role_permissions)
