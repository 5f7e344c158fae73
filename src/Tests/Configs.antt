-- ===== src/Tests/Configs.antt =====
-- Configuration values.
use forge_task_queue.Common.{
  ◌≡◌, ◌≢◌, refl, none, some, [], ◌∷◌, All, arith, ◌==◌, eq_iff, if◌then◌else◌,
}
use forge_task_queue.Common.Int.{pos}
use forge_task_queue.Common.Text.{decimal, split_commas}
use forge_task_queue.Config.Strconv.{atoi, trim_space}
use forge_task_queue.Config.{Host, env_list_or_default}
use forge_task_queue.Config.Lists.{IsEntry, env_list_or_default-IsEntry}
use forge_task_queue.Config.Numbers.{atoi-decimal}

abbrev host : Host
host = record {
  getenv = λ key. if key == "CORS_ORIGINS" then " http://a , ,http://b" else "12";
  parse_duration = λ s. none;
}

origins_set : host.getenv "CORS_ORIGINS" ≢ ""
origins_set e = ground (arith, eq_iff (host.getenv "CORS_ORIGINS") "")

env_list_or_default-IsEntry_example :
    All IsEntry (env_list_or_default host "CORS_ORIGINS" ("*" ∷ []))
env_list_or_default-IsEntry_example =
    env_list_or_default-IsEntry host "CORS_ORIGINS" ("*" ∷ []) origins_set

-- The list itself.
origins_read : env_list_or_default host "CORS_ORIGINS" ("*" ∷ []) ≡ "http://a" ∷ "http://b" ∷ []
unfolding env_list_or_default split_commas trim_space
origins_read = refl

atoi-decimal_example : atoi (decimal 1207) ≡ some (pos 1207)
atoi-decimal_example = atoi-decimal 1207 (omega arith)
