-- ===== src/HttpTools/Registry.antt =====
-- slimx_agent/http_tools.py, `build_remote_registry`: which types have a handler, and which one.
use slimx_agent.Prelude.{
  String, ◌≡◌, refl, true, none, some, List, [], ◌∷◌, if◌then◌else◌, contains, eq_iff, arith,
  is_some, lookup, Bool-cases, inl, inr, ◌++◌,
}
use slimx_agent.Contracts.{allowed_step_types}
use slimx_agent.Outcomes.{ok, >>=-eq-ok}
use slimx_agent.Policies.Normalize.{Distinct}
use slimx_agent.Tools.{ToolRegistry, register, resolve}
use slimx_agent.Tools.Registered.{resolve-register}
use slimx_agent.HttpTools.{register_all, build_remote_registry}

module _ {H : Type 0} (handler : H) where
  register-ok :
      (t : String) (acc : ToolRegistry H)
      → resolve t acc ≡ none
      → (reg : ToolRegistry H) × (register t handler acc ≡ ok reg)
  unfolding register resolve
  register-ok t acc new = elim (Bool-cases (is_some (lookup t acc))) [
    | inl taken ↦ absurd (ground arith)
    | inr free ↦ (acc ++ (t, handler) ∷ [], rw free refl)
  ]

  -- The entries of a registry that was extended by some types.
  abbrev Extends : List String → ToolRegistry H → ToolRegistry H → Type 0
  Extends types acc reg =
      (t : String) → resolve t reg ≡ (if contains types t then some handler else resolve t acc)

  register_all-ok :
      (types : List String) (acc : ToolRegistry H)
      → Distinct types
      → ((t : String) → contains types t ≡ true → resolve t acc ≡ none)
      → (reg : ToolRegistry H) × (register_all handler types acc ≡ ok reg) × Extends types acc reg
  unfolding register_all contains
  register_all-ok [] acc d new = (acc, refl, λ t. refl)
  register_all-ok (x ∷ types) acc d new =
      let (acc', e) = register-ok x acc (new x (ground (arith, eq_iff x x))) in
      let (_, here, others) = resolve-register x handler acc acc' e in
      let (reg, e', extends) =
        register_all-ok types acc' d.1 (λ t m. ground (arith, eq_iff x t, others t, new t, d.0)) in
      (reg, rw e e', λ t. ground (arith, eq_iff x t, extends t, others t, here, d.0))

  -- A registry built of distinct types has the remote handler for each of them, and no other type.
  -- Without a list these are the contract's step types.
  pub build_remote_registry_lem :
      (types : List String)
      → Distinct types
      → ((reg : ToolRegistry H) × (build_remote_registry handler (some types) ≡ ok reg)
          × ((t : String) → resolve t reg ≡ (if contains types t then some handler else none)))
        × (build_remote_registry handler none
            ≡ build_remote_registry handler (some allowed_step_types))
  unfolding build_remote_registry resolve lookup
  build_remote_registry_lem types d = (register_all-ok types [] d (λ t m. refl), refl)

  all_handlers :
      (types : List String) (acc reg : ToolRegistry H)
      → register_all handler types acc ≡ ok reg
      → ((t : String) (found : H) → resolve t acc ≡ some found → found ≡ handler)
      → (t : String) (found : H) → resolve t reg ≡ some found
      → found ≡ handler
  unfolding register_all
  all_handlers [] acc reg e h t found f = h t found (ground arith)
  all_handlers (x ∷ types) acc reg e h t found f =
      let (acc', e', rest) = >>=-eq-ok (register x handler acc) _ e in
      let (_, here, others) = resolve-register x handler acc acc' e' in
      all_handlers types acc' reg rest
        (λ t found f. ground (arith, eq_iff x t, others t, here, h t found)) t found f

  -- Every handler of such a registry is the one.
  pub resolve-build_remote_registry :
      (types : List String) (reg : ToolRegistry H) (t : String) (found : H)
      → build_remote_registry handler (some types) ≡ ok reg
      → resolve t reg ≡ some found
      → found ≡ handler
  unfolding build_remote_registry resolve lookup
  resolve-build_remote_registry types reg t found e f =
      all_handlers types [] reg e (λ t found f. cc) t found f
