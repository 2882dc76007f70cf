-- ===== src/Store.antt =====
-- crates/signalk-store/src/store.rs: the central data store. A method that mutates `&mut self`
-- returns the new store. `display` is how serde_json prints a value (`format!("{}", v)`).
pub mod Query
pub mod Model
pub mod Value
pub mod Values
pub mod Registered
pub mod Context
use Prim.Native.String as S
use signalk_rs.Prelude.{
  ℕ, ◌+◌, ◌-◌, ◌/◌, ◌%◌, ◌^◌, ◌*◌, Bool, true, false, Option, none, some, List, [], ◌∷◌, String,
  ◌==◌, ltb, leb, if◌then◌else◌, ◌<>◌, ◌||◌, unwrap_or, or_else, is_some, strip_prefix, ◌>>=◌,
}
use signalk_rs.Prelude.Assoc.{Map, lookup, insert, remove, or_insert, update}
use signalk_rs.Prelude.Int.{ℤ, pos, negsuc, sub_ℕ, as_i64, ltb_ℤ}
use signalk_rs.Types.Json.{Json, as_str}
use signalk_rs.Types.Path.{split}
use signalk_rs.Types.Delta.{Source, Timestamp, PathValue, Update, Delta}
use signalk_rs.Types.Meta.{Metadata}
use signalk_rs.Types.Full.{SignalKValue, sk_value, VesselData, empty_vessel}

abbrev default_source_priority : ℕ
default_source_priority = 100

-- `sent` is what was handed to the broadcast channel, the latest first.
pub record SignalKStore : Type 0 where
  pub version : String
  pub self_uri : String
  pub vessels : Map VesselData
  pub sources : Map Source
  pub metadata : Map Metadata
  pub multi_source : Map (Map SignalKValue)
  pub source_priorities : Map ℕ
  pub source_ttls : Map ℕ
  pub sent : List Delta
  pub delta_count : ℕ
  pub source_delta_counts : Map ℕ

unfoldable pub new : String → SignalKStore
unfolding insert
new self_uri = record {
  version = "1.7.0";
  self_uri = self_uri;
  vessels = insert self_uri (record empty_vessel { uuid = some self_uri }) [];
  sources = [];
  metadata = [];
  multi_source = [];
  source_priorities = [];
  source_ttls = [];
  sent = [];
  delta_count = 0;
  source_delta_counts = [];
}

unfoldable set_source_priorities : SignalKStore → Map ℕ → SignalKStore
set_source_priorities s priorities = record s { source_priorities = priorities }

unfoldable set_source_ttls : SignalKStore → Map ℕ → SignalKStore
set_source_ttls s ttls = record s { source_ttls = ttls }

unfoldable set_vessel_identity :
    SignalKStore → String → Option String → Option String → SignalKStore
unfolding update
set_vessel_identity s vessel_uri name mmsi = record s {
  vessels =
      update vessel_uri (λ v. record v { name = or_else name v.name; mmsi = or_else mmsi v.mmsi })
        s.vessels;
}

-- The part of a source reference in front of its first dot.
unfoldable source_label : String → String
unfolding split
source_label ref = elim (split ref) [ [] ↦ ref | l ∷ _ ↦ l ]

-- `Utc::now().signed_duration_since(t).num_seconds()`: whole seconds, towards zero.
unfoldable age_seconds : Timestamp → Timestamp → ℤ
age_seconds now t = if leb t now then pos ((now - t) / 10 ^ 9) else sub_ℕ 0 ((t - now) / 10 ^ 9)

-- The priority of a source: a lower number wins.
unfoldable pub priority : Map ℕ → String → ℕ
unfolding lookup
priority source_priorities ref = unwrap_or (lookup ref source_priorities) default_source_priority

-- The active value's source has a TTL, and the value is older.
unfoldable pub is_stale : Map ℕ → Timestamp → SignalKValue → Bool
unfolding lookup age_seconds
is_stale source_ttls now current = elim (lookup current.source source_ttls) [
  | none ↦ false
  | some ttl ↦ ltb_ℤ (as_i64 ttl) (age_seconds now current.timestamp)
]

-- The active value of a vessel at a path.
unfoldable pub value_at : String → String → Map VesselData → Option SignalKValue
unfolding lookup
value_at vessel_uri path vessels = do vessel ← lookup vessel_uri vessels; lookup path vessel.values

abbrev pub get_vessel_path : SignalKStore → String → String → Option SignalKValue
get_vessel_path s vessel_uri path = value_at vessel_uri path s.vessels

abbrev pub get_self_path : SignalKStore → String → Option SignalKValue
get_self_path s path = get_vessel_path s s.self_uri path

-- The value that a source gave last for a path of the self vessel.
unfoldable pub get_self_path_by_source : SignalKStore → String → String → Option SignalKValue
unfolding lookup
get_self_path_by_source s path ref = do sources ← lookup path s.multi_source; lookup ref sources

-- The source to evict, where the active value is stale.
unfoldable pub evict_stale : Map ℕ → Timestamp → Option SignalKValue → Option String
unfolding is_stale
evict_stale ttls now none = none
evict_stale ttls now (some current) =
    if is_stale ttls now current then some current.source else none

unfoldable pub should_update : Map ℕ → String → Option String → Option SignalKValue → Bool
unfolding priority
should_update priorities ref evict none = true
should_update priorities ref evict (some current) =
    is_some evict || leb (priority priorities ref) (priority priorities current.source)

-- `multi_source.entry(path).or_default().insert(ref, value)`.
unfoldable pub retain_source :
    String → String → SignalKValue → Map (Map SignalKValue) → Map (Map SignalKValue)
unfolding lookup insert
retain_source path ref value m = insert path (insert ref value (unwrap_or (lookup path m) [])) m

unfoldable pub evict_source :
    String → Option String → Map (Map SignalKValue) → Map (Map SignalKValue)
unfolding update remove
evict_source path none m = m
evict_source path (some evicted) m = update path (remove evicted) m

-- `vessel.values.insert(path, value)`, for one vessel and in the map of vessels.
abbrev pub put_value : String → SignalKValue → VesselData → VesselData
put_value path value v = record v { values = insert path value v.values }

unfoldable pub write_value : String → String → SignalKValue → Map VesselData → Map VesselData
unfolding update insert
write_value uri path value = update uri (put_value path value)

-- The loop body for one value: the new store, and whether the value was applied.
unfoldable pub apply_value :
    SignalKStore → String → String → Timestamp → Timestamp → PathValue → SignalKStore × Bool
unfolding evict_stale should_update retain_source evict_source write_value value_at
apply_value s uri ref timestamp now pv =
    let value = sk_value pv.value ref timestamp in
    let retained : Map (Map SignalKValue) =
      if uri == s.self_uri
      then retain_source pv.path ref value s.multi_source
      else s.multi_source in
    let current = get_vessel_path s uri pv.path in
    let evict = evict_stale s.source_ttls now current in
    if should_update s.source_priorities ref evict current
    then (
      record s {
        multi_source = evict_source pv.path evict retained;
        vessels = write_value uri pv.path value s.vessels;
      },
      true,
    )
    else (record s { multi_source = retained }, false)

-- The loop over the values of an update. The clock is read for each value: `clock i` is the time
-- at the i-th. The second part holds the applied values, in order.
unfoldable pub apply_values :
    SignalKStore
    → String
    → String
    → Timestamp
    → (ℕ → Timestamp)
    → List PathValue
    → SignalKStore × List PathValue
unfolding apply_value
apply_values s uri ref timestamp clock [] = (s, [])
apply_values s uri ref timestamp clock (pv ∷ pvs) =
    let (s', applied) = apply_value s uri ref timestamp (clock 0) pv in
    let (s'', rest) = apply_values s' uri ref timestamp (λ i. clock (i + 1)) pvs in
    (s'', if applied then pv ∷ rest else rest)

-- Registers the source and counts the update for the source's label.
unfoldable pub register_source : SignalKStore → String → Source → SignalKStore
unfolding or_insert insert lookup source_label
register_source s ref source =
    let label = source_label ref in
    record s {
      sources = or_insert ref source s.sources;
      source_delta_counts =
          insert label ((unwrap_or (lookup label s.source_delta_counts) 0 + 1) % 2 ^ 64)
            s.source_delta_counts;
    }

-- The context of a delta, absent or not, as a full one.
unfoldable pub resolve_context : SignalKStore → Option String → String
resolve_context s context =
    let own = "vessels." <> s.self_uri in
    let c = unwrap_or context own in if c == "vessels.self" then own else c

-- An update of which nothing was applied is left out.
unfoldable pub push_update : Update → List PathValue → List Update → List Update
push_update u [] rest = rest
push_update u (pv ∷ pvs) rest = record u { values = pv ∷ pvs } ∷ rest

-- The broadcast at the end: only where something was applied.
unfoldable pub fan_out : SignalKStore → Option String → List Update → SignalKStore
fan_out s context [] = s
fan_out s context (u ∷ us) = record s {
  sent = record { context = context; updates = u ∷ us } ∷ s.sent;
  delta_count = (s.delta_count + 1) % 2 ^ 64;
}

module _ (display : Json → String) where
  suffix : String → Map Json → String
  unfolding lookup as_str
  suffix type_ extra =
      if type_ == "NMEA0183"
      then unwrap_or (do v ← lookup "talker" extra; t ← as_str v; some ("." <> t)) ""
      else if type_ == "NMEA2000"
      then unwrap_or (do v ← lookup "pgn" extra; some ("." <> display v)) ""
      else ""

  unfoldable pub make_source_ref : Source → String
  unfolding suffix
  make_source_ref source = source.label <> suffix source.type_ source.extra

  unfoldable pub apply_updates :
      SignalKStore → String → (ℕ → ℕ → Timestamp) → List Update → SignalKStore × List Update
  unfolding make_source_ref register_source apply_values push_update
  apply_updates s uri clock [] = (s, [])
  apply_updates s uri clock (u ∷ us) =
      let ref = make_source_ref u.source in
      let (s', applied) =
        apply_values (register_source s ref u.source) uri ref u.timestamp (clock 0) u.values in
      let (s'', rest) = apply_updates s' uri (λ i. clock (i + 1)) us in
      (s'', push_update u applied rest)

  -- The part of `apply_delta` behind the check of the context.
  unfoldable pub apply_vessel_delta :
      SignalKStore → String → (ℕ → ℕ → Timestamp) → Delta → SignalKStore
  unfolding or_insert apply_updates fan_out
  apply_vessel_delta s uri clock delta =
      let s' = record s { vessels = or_insert uri empty_vessel s.vessels } in
      let (s'', applied) = apply_updates s' uri clock delta.updates in
      fan_out s'' delta.context applied

  -- `clock i j` is the time at value `j` of update `i`.
  unfoldable pub apply_delta : SignalKStore → (ℕ → ℕ → Timestamp) → Delta → SignalKStore
  unfolding resolve_context strip_prefix apply_vessel_delta
  apply_delta s clock delta = elim (strip_prefix (resolve_context s delta.context) "vessels.") [
    | none ↦ record s { sent = delta ∷ s.sent }
    | some uri ↦ apply_vessel_delta s uri clock delta
  ]

  -- `set_self_path`: `vessel_mut` makes the vessel where it is missing.
  unfoldable pub set_self_path : SignalKStore → String → Json → Source → Timestamp → SignalKStore
  unfolding or_insert write_value make_source_ref
  set_self_path s path value source now =
      let ref = make_source_ref source in
      record s {
        sources = or_insert ref source s.sources;
        vessels =
            write_value s.self_uri path (sk_value value ref now)
              (or_insert s.self_uri empty_vessel s.vessels);
      }
