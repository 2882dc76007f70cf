-- ===== src/Server/DeltaFilter.antt =====
-- crates/signalk-server/src/plugins/delta_filter.rs: the handlers that see a delta before the store.
-- A handler is what it computes, on a world `W` that it may change (the notifications that the server's
-- own handler keeps, for one).
use signalk_rs.Prelude.{
  ◌≡◌, refl, sym, ap, subst, ◌∙◌, Bool, false, not, Option, none, some, List, [], ◌∷◌, ◌++◌, String,
  ◌==◌, ◌||◌, ◌⊎◌, inl, inr, if◌then◌else◌, retain, arith, append-nil,
}
use signalk_rs.Types.Delta.{Delta}

abbrev pub DeltaInputHandler : Type 0 → Type 0
DeltaInputHandler W = W → Delta → W × Option Delta

pub record DeltaFilterChain (W : Type 0) : Type 0 where
  pub handlers : List (String × DeltaInputHandler W)

module _ (W : Type 0) where
  unfoldable pub new : DeltaFilterChain W
  new = record { handlers = [] }

  unfoldable pub register : DeltaFilterChain W → String → DeltaInputHandler W → DeltaFilterChain W
  register c plugin_id handler = record { handlers = c.handlers ++ (plugin_id, handler) ∷ [] }

  unfoldable pub remove_plugin : DeltaFilterChain W → String → DeltaFilterChain W
  remove_plugin c plugin_id = record { handlers = retain (λ h. not (h.0 == plugin_id)) c.handlers }

  -- The loop of `apply`.
  unfoldable pass : List (String × DeltaInputHandler W) → W → Delta → W × Option Delta
  pass [] w current = (w, some current)
  pass ((id, handler) ∷ handlers) w current =
      let (w', answer) = handler w current in
      elim answer [ none ↦ (w', none) | some d ↦ pass handlers w' d ]

  unfoldable pub apply : DeltaFilterChain W → W → Delta → W × Option Delta
  unfolding pass
  apply c w delta = pass c.handlers w delta

  -- What handlers make of a delta, each on what the one before it left, as a relation: every one passes
  -- a delta on to the next, or one of them drops it, and then those behind it change nothing.
  abbrev pub Passed : List (String × DeltaInputHandler W) → W → Delta → W → Option Delta → Type 0
  Passed [] w d w' result = (w' ≡ w) × (result ≡ some d)
  Passed ((id, handler) ∷ hs) w d w' result =
      ((handler w d ≡ (w', none)) × (result ≡ none))
      ⊎ ((w₁ : W) × (d₁ : Delta) × (handler w d ≡ (w₁, some d₁)) × Passed hs w₁ d₁ w' result)

  -- What a handler's answer leads to.
  abbrev behind : List (String × DeltaInputHandler W) → W × Option Delta → W × Option Delta
  behind hs r = elim r.1 [ none ↦ (r.0, none) | some d ↦ pass hs r.0 d ]

  answered-Passed :
      (hs : List (String × DeltaInputHandler W)) (w : W) (d : Delta) (id : String)
      (handler : DeltaInputHandler W) (r : W × Option Delta)
      → handler w d ≡ r
      → ((w₁ : W) (d₁ : Delta) → Passed hs w₁ d₁ (pass hs w₁ d₁).0 (pass hs w₁ d₁).1)
      → Passed ((id, handler) ∷ hs) w d (behind hs r).0 (behind hs r).1
  answered-Passed hs w d id handler (w₁, none) e rest = inl (e, refl)
  answered-Passed hs w d id handler (w₁, some d₁) e rest = inr (w₁, d₁, e, rest w₁ d₁)

  pass-Passed :
      (hs : List (String × DeltaInputHandler W)) (w : W) (d : Delta)
      → Passed hs w d (pass hs w d).0 (pass hs w d).1
  unfolding pass
  pass-Passed [] w d = (refl, refl)
  pass-Passed ((id, handler) ∷ hs) w d =
      answered-Passed hs w d id handler (handler w d) refl (λ w₁ d₁. pass-Passed hs w₁ d₁)

  pub data Call : Type 0 where
    registers : String → DeltaInputHandler W → Call
    removes : String → Call

  abbrev pub call : DeltaFilterChain W → Call → DeltaFilterChain W
  call c (registers plugin_id handler) = register c plugin_id handler
  call c (removes plugin_id) = remove_plugin c plugin_id

  unfoldable pub run : DeltaFilterChain W → List Call → DeltaFilterChain W
  run c [] = c
  run c (x ∷ xs) = run (call c x) xs

  -- A call removes the plugin's handlers.
  removed : String → List Call → Bool
  removed id [] = false
  removed id (registers plugin_id handler ∷ xs) = removed id xs
  removed id (removes plugin_id ∷ xs) = id == plugin_id || removed id xs

  -- The handlers that are registered and not removed later, in the order of their registration.
  unfoldable pub live : List Call → List (String × DeltaInputHandler W)
  unfolding removed
  live [] = []
  live (registers plugin_id handler ∷ xs) =
      if removed plugin_id xs then live xs else (plugin_id, handler) ∷ live xs
  live (removes plugin_id ∷ xs) = live xs

  -- Those of some handlers that the calls do not remove.
  kept : List Call → List (String × DeltaInputHandler W) → List (String × DeltaInputHandler W)
  kept xs hs = retain (λ h. not (removed h.0 xs)) hs

  kept-none : (hs : List (String × DeltaInputHandler W)) → kept [] hs ≡ hs
  unfolding kept removed
  kept-none [] = refl
  kept-none (h ∷ hs) = ap (◌∷◌ h) (kept-none hs)

  kept-register :
      (xs : List Call) (id : String) (handler : DeltaInputHandler W)
      (hs : List (String × DeltaInputHandler W))
      → kept xs (hs ++ (id, handler) ∷ []) ++ live xs
        ≡ kept xs hs ++ live (registers id handler ∷ xs)
  unfolding kept live
  kept-register xs id handler [] = ground arith
  kept-register xs id handler (h ∷ hs) = ground (arith, kept-register xs id handler hs)

  kept-remove :
      (xs : List Call) (id : String) (hs : List (String × DeltaInputHandler W))
      → kept xs (retain (λ h. not (h.0 == id)) hs) ≡ kept (removes id ∷ xs) hs
  unfolding kept removed
  kept-remove xs id [] = refl
  kept-remove xs id (h ∷ hs) = ground (arith, kept-remove xs id hs)

  run-handlers :
      (c : DeltaFilterChain W) (xs : List Call)
      → (run c xs).handlers ≡ kept xs c.handlers ++ live xs
  unfolding run register remove_plugin live kept
  run-handlers c [] = sym (append-nil (kept [] c.handlers) ∙ kept-none c.handlers)
  run-handlers c (registers id handler ∷ xs) =
      run-handlers (register c id handler) xs ∙ kept-register xs id handler c.handlers
  run-handlers c (removes id ∷ xs) =
      run-handlers (remove_plugin c id) xs ∙ ap (λ hs. hs ++ live xs) (kept-remove xs id c.handlers)

  -- After any registrations and removals on a new chain, a delta passes the handlers that were registered
  -- and not removed since, in the order of their registration: each gets what the one before it passed
  -- on, and one that drops the delta ends it.
  pub apply-run :
      (xs : List Call) (w : W) (d : Delta)
      → Passed (live xs) w d (apply (run new xs) w d).0 (apply (run new xs) w d).1
  unfolding apply new kept
  apply-run xs w d =
      subst
        (λ hs. Passed hs w d (pass (run new xs).handlers w d).0 (pass (run new xs).handlers w d).1)
        (run-handlers new xs) (pass-Passed (run new xs).handlers w d)
