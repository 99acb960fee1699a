-- ===== src/Auth/Metrics.antt =====
-- plan_config.py: the money metrics, which roles see them by default, and the payload keys that
-- follow them.
use yclients_project.Prelude.{
  Bool, Option, none, some, List, [], ◌∷◌, ◌++◌, map, any, if◌then◌else◌,
}
use yclients_project.Prelude.Text.{Text, codes, text_eq}
use yclients_project.Auth.{
  Role, platform_admin, owner, branch_admin, manager, admin, barber, unknown,
}

-- The three groups of payload keys that a metric names.
pub data Group : Type 0 where
  summary plan leaderboard : Group

pub record MoneyMetric : Type 0 where
  pub code : Text
  pub summary_keys : List Text
  pub plan_keys : List Text
  pub leaderboard_keys : List Text

abbrev pub keys_of : Group → MoneyMetric → List Text
keys_of summary metric = metric.summary_keys
keys_of plan metric = metric.plan_keys
keys_of leaderboard metric = metric.leaderboard_keys

abbrev pub money_metrics : List MoneyMetric
money_metrics =
    record {
      code = codes "revenue";
      summary_keys = codes "revenue" ∷ [];
      plan_keys = codes "revenue" ∷ [];
      leaderboard_keys = codes "revenue_barber" ∷ [];
    }
    ∷ record {
      code = codes "avg_check";
      summary_keys = codes "average_check" ∷ codes "average_check_source_status" ∷ [];
      plan_keys = codes "avg_check_total" ∷ [];
      leaderboard_keys =
          codes "avg_check_barber"
          ∷ codes "avg_check_plan_branch"
          ∷ codes "avg_check_plan_staff"
          ∷ [];
    }
    ∷ record {
      code = codes "cosmo_sum";
      summary_keys = [];
      plan_keys = codes "cosmo_sum" ∷ codes "cosmo_price" ∷ [];
      leaderboard_keys = codes "cosmo_barber" ∷ codes "cosmo_admin" ∷ [];
    }
    ∷ []

-- Membership in a set of texts.
abbrev pub has_text : Text → List Text → Bool
has_text s texts = any (λ t. text_eq t s) texts

abbrev pub all_money_codes : List Text
all_money_codes = map (λ (metric : MoneyMetric). metric.code) money_metrics

abbrev pub default_codes : Role → List Text
default_codes platform_admin = all_money_codes
default_codes owner = all_money_codes
default_codes branch_admin = all_money_codes
default_codes manager = codes "avg_check" ∷ []
default_codes admin = codes "cosmo_sum" ∷ []
default_codes barber = []
default_codes (unknown s) = []

abbrev pub default_money_codes_for_role : Option Role → List Text
default_money_codes_for_role none = []
default_money_codes_for_role (some role) = default_codes role

abbrev pub collect_keys : List Text → Group → List MoneyMetric → List Text
collect_keys hidden group [] = []
collect_keys hidden group (metric ∷ metrics) =
    let rest = collect_keys hidden group metrics in
    if has_text metric.code hidden then keys_of group metric ++ rest else rest

unfoldable pub money_payload_keys : List Text → Group → List Text
money_payload_keys hidden group = collect_keys hidden group money_metrics
