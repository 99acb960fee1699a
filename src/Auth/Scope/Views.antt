-- ===== src/Auth/Scope/Views.antt =====
-- auth_scope.py: which money metrics and reports a principal reads.
use yclients_project.Prelude.{
  Bool, false, not, ◌&&◌, ◌||◌, Option, none, some, List, [], if◌then◌else◌,
}
use yclients_project.Prelude.Rows.{select}
use yclients_project.Prelude.Text.{Text, codes}
use yclients_project.Auth.{Role, Reply, ok, refuse, is_platform_admin_role}
use yclients_project.Auth.Metrics.{all_money_codes, has_text}
use yclients_project.Auth.Scope.{AccessContext, has_branch_scope}

abbrev pub can_view_money_metric : AccessContext → Text → Bool
can_view_money_metric ctx code = ctx.full_access || has_text code ctx.money_metrics

unfoldable pub hidden_money_codes : AccessContext → List Text
hidden_money_codes ctx =
    if ctx.full_access
    then []
    else select (λ code. not (has_text code ctx.money_metrics)) all_money_codes

abbrev pub can_view_financials : AccessContext → Bool
can_view_financials ctx = can_view_money_metric ctx (codes "revenue")

unfoldable pub can_view_branch_payments : AccessContext → Bool
can_view_branch_payments ctx =
    ctx.full_access || (has_branch_scope ctx.role && can_view_financials ctx)

abbrev pub has_platform_role : Option Role → Bool
has_platform_role none = false
has_platform_role (some role) = is_platform_admin_role role

unfoldable pub can_view_report_usage : AccessContext → Bool
can_view_report_usage ctx = not ctx.full_access && has_platform_role ctx.role

unfoldable pub require_financial_access : AccessContext → Reply Unit
require_financial_access ctx =
    if can_view_financials ctx
    then ok tt
    else refuse 403 (codes "Financial metrics are not allowed for this role")
