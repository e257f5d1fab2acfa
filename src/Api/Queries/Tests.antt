-- ===== src/Api/Queries/Tests.antt =====
-- The theorems on the hooks at small inputs.
use agent_os_test.Prelude.{true, false, [], ◌∷◌, none, some, Text, units, All}
use agent_os_test.Json.{Value, null}
use agent_os_test.Browser.Location.{Location}
use agent_os_test.Browser.Storage.{Storage}
use agent_os_test.Api.Config.{Page, https, api_key_key}
use agent_os_test.Api.Queries.Guards.{Input, calls}
use agent_os_test.Api.Queries.Sends.{IsGuarded, calls-IsGuarded}

abbrev entered : Input
entered = record {
  payload = null;
  id = units "m1";
  other_id = units "w";
  chosen = some (units "t1");
  switch = none;
}

abbrev same_text : Text → Text
same_text t = t

abbrev here : Location
here = record { protocol = https; hostname = units "app.thynact.com" }

abbrev page : Page
page = record {
  location = some here;
  vite_api_base_url = none;
  dev = false;
  parse_url = λ url. some here;
}

abbrev storage : Storage
storage = record { available = true; fits = λ k v. true; items = (api_key_key, units "k") ∷ [] }

abbrev no_text : Value → Text
no_text v = units "null"

calls-IsGuarded_example :
    All (IsGuarded no_text page storage (units "c1")) (calls same_text entered)
calls-IsGuarded_example = calls-IsGuarded no_text page storage (units "c1") same_text entered
