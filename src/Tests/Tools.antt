-- ===== src/Tests/Tools.antt =====
-- A registration at a concrete registry.
use slimx_agent.Prelude.{String, ◌≡◌, refl, [], ◌∷◌, lookup}
use slimx_agent.Outcomes.{ok}
use slimx_agent.Tools.{ToolRegistry, register}

abbrev one : ToolRegistry String
one = ("web_search", "search") ∷ []

abbrev two : ToolRegistry String
two = ("web_search", "search") ∷ ("web_fetch", "fetch") ∷ []

registered : register "web_fetch" "fetch" one ≡ ok two
unfolding register lookup
registered = refl
