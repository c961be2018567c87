-- ===== src/Tools/Registered.antt =====
-- slimx_agent/tools.py: what a registration adds to the registry.
use slimx_agent.Prelude.{
  String, ◌≡◌, refl, false, none, some, [], ◌∷◌, ◌++◌, ◌==◌, eq_iff, if◌then◌else◌, lookup, is_some,
  arith, Bool-cases, inl, inr,
}
use slimx_agent.Outcomes.{ok}
use slimx_agent.Tools.{ToolRegistry, register, resolve}

module _ {H : Type 0} where
  lookup-snoc :
      (handlers : ToolRegistry H) (t u : String) (handler : H)
      → lookup u handlers ≡ none
      → lookup u (handlers ++ (t, handler) ∷ []) ≡ (if t == u then some handler else none)
  unfolding lookup
  lookup-snoc [] t u handler e = refl
  lookup-snoc ((k, h) ∷ rest) t u handler e = ground (arith, lookup-snoc rest t u handler)

  lookup-other :
      (handlers : ToolRegistry H) (t u : String) (handler : H)
      → (t == u) ≡ false
      → lookup u (handlers ++ (t, handler) ∷ []) ≡ lookup u handlers
  unfolding lookup
  lookup-other [] t u handler e = ground arith
  lookup-other ((k, h) ∷ rest) t u handler e = ground (arith, lookup-other rest t u handler)

  -- A registration that succeeds adds the handler under its own type, which had none, and keeps
  -- every other type's answer.
  pub resolve-register :
      (t : String) (handler : H) (handlers after : ToolRegistry H)
      → register t handler handlers ≡ ok after
      → (resolve t handlers ≡ none)
        × (resolve t after ≡ some handler)
        × ((u : String) → (t == u) ≡ false → resolve u after ≡ resolve u handlers)
  unfolding register resolve
  resolve-register t handler handlers after e = elim (Bool-cases (is_some (lookup t handlers))) [
    | inl taken ↦ ground arith
    | inr new ↦ (
      ground arith,
      ground (arith, lookup-snoc handlers t t handler, eq_iff t t),
      λ u other. ground (arith, lookup-other handlers t u handler),
    )
  ]
