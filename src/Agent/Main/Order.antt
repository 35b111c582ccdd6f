-- ===== src/Agent/Main/Order.antt =====
-- main.cpp: the start and the end of the agent.
use mathlib.Core.Option
use mini_drop.Base.{String, Option, some, List, [], ◌∷◌, ◌≡◌, ◌≢◌, ◌⊎◌, refl, ap, ◌∙◌, inl, inr}
use mini_drop.Proto.Rpc.{Status, RegisterAgentResponse}
use mini_drop.Agent.Config.{Result, LoadError, AgentConfig, JsonLib, load_config}
use mini_drop.Agent.Config
use mini_drop.Agent.Config.Loading.{load_config-IsConfig, Result-cases}
use mini_drop.Agent.Main.{Interface, first_server, run_agent, main_from, argument_or, agent_main}

first_server-some : (ips : List String) → ips ≢ [] → (ip : String) × (first_server ips ≡ some ip)
first_server-some [] h = absurd (h refl)
first_server-some (ip ∷ ips) h = (ip, refl)

-- The configuration that `main` loads.
abbrev pub loaded : JsonLib → (String → Option String) → List String → Result AgentConfig
loaded lib files args = load_config lib files (argument_or "/etc/drop/config.json" args)

-- `main` never reads past the end of the server list. Where the configuration could not be loaded it
-- does nothing and ends with 1; otherwise it runs with the first server of the list, and ends with 0.
pub agent_main_exit :
    (lib : JsonLib) (files : String → Option String) (interfaces : Option (List Interface))
    (name : Option String) (status : Status) (resp : RegisterAgentResponse) (args : List String)
    → let done = agent_main lib files interfaces name status resp args in
      ((e : LoadError) × (loaded lib files args ≡ Config.thrown e) × (done ≡ some ([], 1)))
      ⊎ ((cfg : AgentConfig) × (ip : String) × (loaded lib files args ≡ Config.returned cfg)
          × (first_server cfg.server_ips ≡ some ip)
          × (done ≡ some (run_agent interfaces name status resp cfg ip))
          × ((run_agent interfaces name status resp cfg ip).1 ≡ 0))
unfolding agent_main
agent_main_exit lib files interfaces name status resp args =
    elim (Result-cases (loaded lib files args)) [
      | inr (e, failed) ↦ inl (e, failed, ap (main_from interfaces name status resp) failed)
      | inl (cfg, found) ↦
          let (text, j, opened, parsed, good) = load_config-IsConfig lib files _ cfg found in
          let (ip, one) = first_server-some cfg.server_ips good.has_server in
          inr (
            cfg,
            ip,
            found,
            one,
            ap (main_from interfaces name status resp) found
                ∙ ap (Option.map (run_agent interfaces name status resp cfg)) one,
            unfold run_agent in refl,
          )
    ]
