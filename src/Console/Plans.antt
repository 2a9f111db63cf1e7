-- ===== src/Console/Plans.antt =====
-- What a plan of several tables holds, and that the dashboard's counts add up.
use iceberg_rest_catalog.Common.{
  ℕ, suc, ◌+◌, ◌∙◌, ap, ◌≤◌, ◌≡◌, inl, inr, List, [], ◌∷◌, arith, All, Bool-cases, ltb, tally,
  length, if◌then◌else◌,
}
use iceberg_rest_catalog.Params.{Risk, risk_order}
use iceberg_rest_catalog.Store.{Health, healthy, warning, critical, unknown, ManagedTable, PlanItem}
use iceberg_rest_catalog.Store.Jobs.{Db}
use iceberg_rest_catalog.Console.{max_risk, is_health, dashboard_counts}

chosen_bounds :
    (a b : Risk)
    → (risk_order a ≤ risk_order (if ltb (risk_order a) (risk_order b) then b else a))
      × (risk_order b ≤ risk_order (if ltb (risk_order a) (risk_order b) then b else a))
chosen_bounds a b = elim (Bool-cases (ltb (risk_order a) (risk_order b))) [
  | inl above ↦ rw above (ground (arith, above), omega arith)
  | inr below ↦ rw below (omega arith, ground (arith, below))
]

-- No risk of a plan's tables is above the highest.
pub max_risk_bounds :
    (risk : Risk) (items : List PlanItem)
    → (risk_order risk ≤ risk_order (max_risk risk items))
      × All (λ item. risk_order (item.risk) ≤ risk_order (max_risk risk items)) items
unfolding max_risk
max_risk_bounds risk [] = (omega arith, tt)
max_risk_bounds risk (item ∷ items) =
    let (h, hs) =
      max_risk_bounds (if ltb (risk_order risk) (risk_order (item.risk)) then item.risk else risk)
        items in
    let (g, k) = chosen_bounds risk (item.risk) in (omega (arith, h, g), (omega (arith, h, k), hs))

count_one :
    (h : Health) (a b c d : ℕ)
    → (if is_health healthy h then suc a else a)
        + (if is_health warning h then suc b else b)
        + (if is_health critical h then suc c else c)
        + (if is_health unknown h then suc d else d)
      ≡ suc (a + b + c + d)
count_one healthy a b c d = omega arith
count_one warning a b c d = omega arith
count_one critical a b c d = omega arith
count_one unknown a b c d = omega arith

-- How many tables have a health.
abbrev pub with_health : Health → List ManagedTable → ℕ
with_health h tables = tally (λ t. is_health h (t.health)) tables

by_health :
    (tables : List ManagedTable)
    → with_health healthy tables
        + with_health warning tables
        + with_health critical tables
        + with_health unknown tables
      ≡ length tables
by_health [] = omega arith
by_health (table ∷ tables) =
    count_one (table.health) (with_health healthy tables) (with_health warning tables)
      (with_health critical tables) (with_health unknown tables)
    ∙ ap suc (by_health tables)

-- The dashboard's counts of tables by their health add up to the total.
pub dashboard_adds_up :
    (db : Db)
    → (let counts = dashboard_counts db in
        counts.with_health healthy
          + counts.with_health warning
          + counts.with_health critical
          + counts.with_health unknown
        ≡ counts.total)
unfolding dashboard_counts
dashboard_adds_up db = by_health (db.tables)
