-- ===== src/Tests/ServerTests.antt =====
-- The registries of crates/signalk-server/src on small providers.
use signalk_rs.Prelude.{
  ℕ, ◌+◌, ◌≡◌, refl, Bool, Option, none, some, List, [], ◌∷◌, String, ◌==◌, if◌then◌else◌,
}
use signalk_rs.Prelude.Assoc.{lookup, insert}
use signalk_rs.Types.Json.{Json, string, end, field}
use signalk_rs.Types.Delta.{Delta}
use signalk_rs.Server.{Result, ok, err, PluginError, not_found}
use signalk_rs.Server.DeltaFilter as Filter
use signalk_rs.Server.DeltaFilter.{DeltaInputHandler, apply-run}
use signalk_rs.Server.Autopilot as Autopilot
use signalk_rs.Server.Autopilot.{run-IsUsable}
use signalk_rs.Server.Resources as Resources
use signalk_rs.Server.Resources.{
  ResourceProvider, ResourceProviderRegistry, ResourceQueryParams, is_done, is_found,
}
use signalk_rs.Server.Resources.Routing as Routing
use signalk_rs.Server.Resources.Routing.{create-run, unregister-find_provider}

-- A handler that drops every delta, and one that passes it on and counts.
abbrev stop : DeltaInputHandler ℕ
stop w d = (w, none)

abbrev forward : DeltaInputHandler ℕ
forward w d = (w + 1, some d)

abbrev empty_delta : Delta
empty_delta = record { context = none; updates = [] }

abbrev filter_calls : List (Filter.Call ℕ)
filter_calls =
    Filter.registers "blocker" stop
    ∷ Filter.registers "logger" forward
    ∷ Filter.removes "blocker"
    ∷ Filter.registers "counter" forward
    ∷ []

abbrev filtered : ℕ × Option Delta
filtered = Filter.apply ℕ (Filter.run ℕ (Filter.new ℕ) filter_calls) 0 empty_delta

filtered-twice : filtered ≡ (2, some empty_delta)
unfolding Filter.apply Filter.run Filter.new Filter.register Filter.remove_plugin
filtered-twice = refl

apply-run_example : Filter.Passed ℕ (Filter.live ℕ filter_calls) 0 empty_delta filtered.0 filtered.1
apply-run_example = apply-run ℕ filter_calls 0 empty_delta

-- An autopilot is its device id.
abbrev device_id : String → String
device_id p = p

abbrev pilots : List (Autopilot.Call String device_id)
pilots =
    Autopilot.registers "pypilot" "autopilot"
    ∷ Autopilot.registers "raymarine" "nmea2000"
    ∷ Autopilot.sets_default "raymarine"
    ∷ []

abbrev helm : Autopilot.AutopilotManager String
helm = Autopilot.run String device_id (Autopilot.new String device_id) pilots

run-IsUsable_example : Autopilot.IsUsable String device_id helm
run-IsUsable_example = run-IsUsable String device_id pilots

-- A provider that has one resource, under its own name; the world counts the requests.
abbrev answer : {A : Type 0} → Bool → A → Result A PluginError
answer b a = if b then ok a else err (not_found "no such resource")

abbrev one : String → ResourceProvider ℕ
one name = record {
  list = λ t query w. (w + 1, ok (Json.object (field name (string name) end)));
  get = λ t id w. (w + 1, answer (id == name) (some (string name)));
  create = λ t value w. (w + 1, ok name);
  update = λ t id value w. (w + 1, answer (id == name) tt);
  delete = λ t id w. (w + 1, answer (id == name) tt);
}

abbrev calls : List (Routing.Call ℕ)
calls =
    Routing.registers "charts" "a" (one "a")
    ∷ Routing.registers "charts" "b" (one "b")
    ∷ Routing.sets_default "charts" "b"
    ∷ []

abbrev charts : ResourceProviderRegistry ℕ
charts = record {
  providers = ("charts", ("a", one "a") ∷ ("b", one "b") ∷ []) ∷ [];
  default_create_provider = ("charts", "b") ∷ [];
  file_provider = one "file";
}

run-charts : Routing.run ℕ (Resources.new ℕ (one "file")) calls ≡ charts
unfolding Routing.run Resources.new Resources.register Resources.set_default_provider lookup insert
run-charts = refl

create-run_example :
    let r = Routing.run ℕ (Resources.new ℕ (one "file")) calls in
    Resources.create ℕ r "charts" Json.null none 0
    ≡ Resources.create ℕ r "charts" Json.null
        (some (Resources.get_active_provider_id ℕ r "charts"))
        0
create-run_example = create-run ℕ (one "file") calls "charts" Json.null 0

abbrev everything : ResourceQueryParams
everything = record { distance = none; limit = none; bbox = none; provider = none }
