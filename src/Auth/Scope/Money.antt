-- ===== src/Auth/Scope/Money.antt =====
-- auth_scope.py and plan_config.py: the payload keys and the metrics that a principal may see.
use yclients_project.Prelude.{
  ◌≡◌, refl, sym, ap, ◌∙◌, true, false, not, List, [], ◌∷◌, arith, Bool-cases, inl, inr, subst,
  map-IsIn, IsIn, IsIn-append, append-IsIn_left, append-IsIn_right,
}
use yclients_project.Prelude.Text.{Text, text_eq, text_eq→≡, text_eq_refl}
use yclients_project.Prelude.Rows.{select, IsIn-select, select-IsIn}
use yclients_project.Auth.Metrics.{
  Group, all_money_codes, MoneyMetric, money_metrics, keys_of, collect_keys, money_payload_keys,
  has_text,
}
use yclients_project.Auth.Scope.{AccessContext}
use yclients_project.Auth.Scope.Views.{can_view_money_metric, hidden_money_codes}

has_text-IsIn : (s : Text) (texts : List Text) → has_text s texts ≡ true → IsIn s texts
has_text-IsIn s [] h = ground arith
has_text-IsIn s (t ∷ texts) h = elim (Bool-cases (text_eq t s)) [
  | inl e ↦ inl (text_eq→≡ t s e)
  | inr e ↦ inr (has_text-IsIn s texts (ground arith))
]

IsIn-has_text : (s : Text) (texts : List Text) → IsIn s texts → has_text s texts ≡ true
IsIn-has_text s [] i = absurd i
IsIn-has_text s (t ∷ texts) (inl e) = rw (ap (text_eq t) (sym e) ∙ text_eq_refl t) refl
IsIn-has_text s (t ∷ texts) (inr i) = rw (IsIn-has_text s texts i) (ground arith)

-- A key of a metric that the principal may not see.
abbrev pub IsHiddenKey : AccessContext → Group → List MoneyMetric → Text → Type 0
IsHiddenKey ctx group metrics key =
    (metric : MoneyMetric) × IsIn metric metrics
    × IsIn key (keys_of group metric)
    × (can_view_money_metric ctx metric.code ≡ false)

module _ (hidden : List Text) (group : Group) (key : Text) where
  IsIn-collect_keys :
      (metrics : List MoneyMetric)
      → IsIn key (collect_keys hidden group metrics)
      → (metric : MoneyMetric) × IsIn metric metrics
        × IsIn key (keys_of group metric)
        × (has_text metric.code hidden ≡ true)
  IsIn-collect_keys [] i = absurd i
  IsIn-collect_keys (metric ∷ metrics) i = elim (Bool-cases (has_text metric.code hidden)) [
    | inr e ↦ (let (m, j, k, h) = IsIn-collect_keys metrics (rw e at i) in (m, inr j, k, h))
    | inl e ↦
        elim (IsIn-append key (keys_of group metric) (collect_keys hidden group metrics)
          (rw e at i)) [
            | inl k ↦ (metric, inl refl, k, e)
            | inr j ↦ let (m, l, k, h) = IsIn-collect_keys metrics j in (m, inr l, k, h)
          ]
  ]

  collect_keys-IsIn :
      (metric : MoneyMetric) (metrics : List MoneyMetric)
      → IsIn metric metrics
      → IsIn key (keys_of group metric)
      → has_text metric.code hidden ≡ true
      → IsIn key (collect_keys hidden group metrics)
  collect_keys-IsIn metric [] i k h = absurd i
  collect_keys-IsIn metric (m ∷ metrics) (inl e) k h = rw (ap (λ z. has_text z.code hidden) e ∙ h) (
      append-IsIn_left key (keys_of group m) (collect_keys hidden group metrics)
        (subst (λ z. IsIn key (keys_of group z)) (sym e) k))
  collect_keys-IsIn metric (m ∷ metrics) (inr i) k h =
      let j = collect_keys-IsIn metric metrics i k h in
      elim (Bool-cases (has_text m.code hidden)) [
        | inl e ↦
            rw e (append-IsIn_right key (keys_of group m) (collect_keys hidden group metrics) j)
        | inr e ↦ rw e j
      ]

hidden_code :
    (ctx : AccessContext) (code : Text)
    → has_text code (hidden_money_codes ctx) ≡ true
    → can_view_money_metric ctx code ≡ false
unfolding hidden_money_codes
hidden_code ctx code h = elim (Bool-cases ctx.full_access) [
  | inl e ↦ ground arith
  | inr e ↦
      (let i =
          has_text-IsIn code (select (λ c. not (has_text c ctx.money_metrics)) all_money_codes)
            (rw (e, hidden_money_codes) at h) in
        let (j, g) = IsIn-select (λ c. not (has_text c ctx.money_metrics)) code all_money_codes i in
        ground arith)
]

code_hidden :
    (ctx : AccessContext) (code : Text)
    → IsIn code all_money_codes
    → can_view_money_metric ctx code ≡ false
    → has_text code (hidden_money_codes ctx) ≡ true
unfolding hidden_money_codes
code_hidden ctx code i h =
    let e : ctx.full_access ≡ false = ground arith in
    let g : not (has_text code ctx.money_metrics) ≡ true = ground arith in
    let hidden = select (λ c. not (has_text c ctx.money_metrics)) all_money_codes in
    rw e (
      IsIn-has_text code hidden
        (select-IsIn (λ c. not (has_text c ctx.money_metrics)) code all_money_codes i g))

-- In every group, the keys that `money_payload_keys` lists for the hidden metrics of a principal
-- are exactly those that belong to a metric that the principal may not see; what a route does with
-- the list is not stated.
pub money_payload_keys_lem :
    (ctx : AccessContext) (group : Group) (key : Text)
    → (IsIn key (money_payload_keys (hidden_money_codes ctx) group)
        → IsHiddenKey ctx group money_metrics key)
      × (IsHiddenKey ctx group money_metrics key
          → IsIn key (money_payload_keys (hidden_money_codes ctx) group))
unfolding money_payload_keys
money_payload_keys_lem ctx group key = (
  λ i.
      let (metric, j, k, h) =
        IsIn-collect_keys (hidden_money_codes ctx) group key money_metrics i in
      (metric, j, k, hidden_code ctx metric.code h),
  λ shown.
      let (metric, j, k, h) = shown in
      collect_keys-IsIn (hidden_money_codes ctx) group key metric money_metrics j k (
        code_hidden ctx metric.code (map-IsIn (λ (m : MoneyMetric). m.code) metric money_metrics j)
          h),
)
