-- ===== src/Scenario/Run.antt =====
-- audit/scenario.py: `main` with its scenarios.
pub mod Laws
use gekko.Base.{String, none, some, List, [], ◌∷◌}
use gekko.Python.Json.{Json, pos, int, str, obj, field, end}
use gekko.Python.Environ.{Environ}
use gekko.Scenario.Web.{Net, M, ◌>>◌, pure, print, frontend_url, demo_title, demo_done}
use gekko.Scenario.Steps.{Step, run_scenario}
use gekko.Scenario.Bypass.{run_bypass_attempt}

pub record Scenario : Type 0 where
  pub username : String
  pub password : String
  pub label : String
  pub steps : List Step

abbrev read : String → String → Step
read desc path = record { desc = desc; method = "GET"; path = path; json = none }

abbrev order : Json
order = obj (
    field "customerId" (str "customer-1")
      (field "productId" (str "product-A") (field "quantity" (int (pos 1)) end)))

abbrev pub sales : Scenario
sales = record {
  username = "yamada-sales";
  password = "password";
  label = "営業担当: 受注作成・在庫確認・社員情報照会";
  steps =
      read "受注一覧取得" "/api/orders"
      ∷ record { desc = "受注作成"; method = "POST"; path = "/api/orders"; json = some order }
      ∷ read "在庫確認(自支店)" "/api/warehouse-stock/product-A"
      ∷ read "在庫確認(キャッシュ再利用確認)" "/api/warehouse-stock/product-A"
      ∷ read "自身の社員情報" "/api/employees/yamada-sales"
      ∷ [];
}

abbrev pub support : Scenario
support = record {
  username = "suzuki-support";
  password = "password";
  label = "サポート担当: 受注閲覧のみ";
  steps = read "受注一覧取得" "/api/orders" ∷ read "社員情報(自身)" "/api/employees/suzuki-support" ∷ [];
}

abbrev pub hr : Scenario
hr = record {
  username = "tanaka-hr";
  password = "password";
  label = "HR担当: 社員情報照会（他者含む）";
  steps =
      read "社員情報(自身)" "/api/employees/tanaka-hr"
      ∷ read "社員情報(他者)" "/api/employees/yamada-sales"
      ∷ [];
}

abbrev pub scenarios : List Scenario
scenarios = sales ∷ support ∷ hr ∷ []

module _ (net : Net) (env : Environ) where
  pub run_all : List Scenario → M net (Unit {0})
  run_all [] = pure tt
  run_all (s ∷ ss) = do run_scenario net env s.username s.password s.label s.steps; run_all ss

  pub main : M net (Unit {0})
  main = do
    print (demo_title (frontend_url env))
    run_all scenarios
    run_bypass_attempt net env
    print demo_done
