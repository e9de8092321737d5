-- ===== src/Router/Tests.antt =====
-- The router on the three providers of governor/policy.json.
use mathlib.Core.List.Memᴰ as Memᴰ
use lifeos_platform.Prelude.{
  ℕ, String, ◌≡◌, refl, true, false, Option, none, some, [], ◌∷◌, str_eq, if◌then◌else◌,
}
use lifeos_platform.Prelude.Float.{whole}
use lifeos_platform.Prelude.Exec.{Result, ok, err}
use lifeos_platform.Router.Policy.{
  Error, Provider, Policy, is_local, credentials, texts, cost_rank, listed as as_list,
  privacy_allowed, minimum_capability,
}
use lifeos_platform.Router.Eligible.{
  Item, Request, enumerate, key, key_lt, insert, sort, status, item, consider, eligible_providers,
  Decision, route, available, privacy_forbidden,
}
use lifeos_platform.Router.Considered.{AllValid}
use lifeos_platform.Router.Cheapest.{
  Ranked, Routed, listed, eligible_providers-Ranked, route-Routed, eligible_providers-is_local,
}

abbrev deterministic : Provider
deterministic = record {
  id = some "deterministic";
  task_classes = "deterministic" ∷ [];
  cost = some "deterministic";
  adapter = some "deterministic";
  capability = some 1;
  priority = some 0;
  privacy = some "deterministic";
  private_only = false;
  credential = none;
  credentials = some (as_list []);
  role = some "tooling";
}

abbrev ollama : Provider
ollama = record {
  id = some "ollama";
  task_classes = "tiny" ∷ "offline" ∷ "normal" ∷ [];
  cost = some "local";
  adapter = some "local-builder";
  capability = some 2;
  priority = some 10;
  privacy = some "local";
  private_only = true;
  credential = none;
  credentials = some (as_list []);
  role = some "local-private-assistant-engineer";
}

abbrev codex : Provider
codex = record {
  id = some "codex";
  task_classes = "normal" ∷ "substantial" ∷ "review" ∷ "escalation" ∷ [];
  cost = some "scarce";
  adapter = some "codex";
  capability = some 5;
  priority = some 10;
  privacy = some "sanitized-cloud";
  private_only = false;
  credential = none;
  credentials = some (as_list []);
  role = some "senior-engineer";
}

abbrev minimum : String → Option ℕ
minimum t = if str_eq t "normal" then some 2 else if str_eq t "default" then some 1 else none

abbrev policy : Policy
policy = record {
  providers = deterministic ∷ ollama ∷ codex ∷ [];
  minimum_capability = minimum;
  allow_paid_fallback = false;
  max_attempts_per_provider = some 2;
  cooldown_seconds = some 900;
}

abbrev task : String → Request whole
task privacy = record {
  task_class = "normal";
  secret_names = λ name. false;
  cooldowns = λ pid. none;
  now = 100;
  privacy = privacy;
  available_adapters = none;
}

all_valid : AllValid "normal" (listed policy)
unfolding enumerate credentials texts
all_valid = (
  λ _. record { pid = "deterministic"; needed = []; named = refl; valid = refl },
  (
    λ _. record { pid = "ollama"; needed = []; named = refl; valid = refl },
    (λ _. record { pid = "codex"; needed = []; named = refl; valid = refl }, tt),
  ),
)

eligible_providers-Ranked_example :
    Ranked whole policy (task "normal") (eligible_providers whole policy (task "normal"))
eligible_providers-Ranked_example = eligible_providers-Ranked whole policy (task "normal") all_valid

route-Routed_example : Routed whole policy (task "normal") (route whole policy (task "normal"))
route-Routed_example = route-Routed whole policy (task "normal") all_valid

abbrev selected : Result Error (Decision whole) → Option String
selected (err e) = none
selected (ok d) = d.selected_provider

-- The local provider is for private tasks alone.
selected_normal : selected (route whole policy (task "normal")) ≡ some "codex"
unfolding route eligible_providers consider item status enumerate credentials texts privacy_allowed
    minimum_capability sort insert key key_lt cost_rank
selected_normal = refl

selected_local : selected (route whole policy (task "local-only")) ≡ some "ollama"
unfolding route eligible_providers consider item status enumerate credentials texts privacy_allowed
    minimum_capability sort insert key key_lt cost_rank
selected_local = refl

abbrev local_item : Item
local_item = record {
  provider = "ollama";
  status = available;
  adapter = "local-builder";
  capability = 2;
  cost = "local";
}

abbrev cloud_item : Item
cloud_item = record {
  provider = "codex";
  status = privacy_forbidden;
  adapter = "codex";
  capability = 5;
  cost = "scarce";
}

eligible_providers-is_local_example : is_local ollama ≡ true
unfolding eligible_providers consider item status enumerate credentials texts privacy_allowed
    minimum_capability sort insert key key_lt cost_rank
eligible_providers-is_local_example =
    eligible_providers-is_local whole policy (task "local-only") (ollama ∷ [])
      (local_item ∷ cloud_item ∷ []) ollama refl refl (Memᴰ.head refl)
