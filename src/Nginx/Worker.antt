-- ===== src/Nginx/Worker.antt =====
-- The life of a process: the module's slots, `ngx_http_pinpoint_init_process` and
-- `ngx_http_pinpoint_exit_process`, with the agent calls that each makes.
use pinpoint_cpp_examples.Common.{
  c_string, ◌≡◌, ◌≢◌, refl, ◌⊎◌, inl, inr, Bool, true, false, not, ◌&&◌, Option, none, some, List,
  [], ◌∷◌, ◌++◌, arith, Text, lit, ltb, if◌then◌else◌, length, take,
}

-- `ngx_process`.
pub data Process : Type 0 where
  single : Process
  master : Process
  signaller : Process
  worker : Process
  helper : Process

-- `ngx_flag_t enable`: NGX_CONF_UNSET until the directive is read.
pub data Flag : Type 0 where
  unset : Flag
  off : Flag
  on : Flag

pub record MainConf : Type 0 where
  pub enable : Flag
  pub config_file : Text

-- `ngx_http_pinpoint_create_main_conf`; the Boolean says whether `ngx_pcalloc` has memory.
unfoldable pub create_main_conf : Bool → Option MainConf
create_main_conf true = some (record { enable = unset; config_file = [] })
create_main_conf false = none

pub data AgentCall : Type 0 where
  options_new : AgentCall
  set_config_file : Text → AgentCall
  set_server_metadata : Text → AgentCall
  start_agent : AgentCall
  global_agent : AgentCall
  options_free : AgentCall
  shutdown : AgentCall
  destroy : AgentCall

-- What the process starts with and what the agent answers: the configuration of this module, if it has
-- one, whether options can be allocated, whether the agent starts, and whether `pt_global_agent`
-- returns an agent.
pub record Answers : Type 0 where
  pub conf : Option MainConf
  pub has_options : Bool
  pub starts : Bool
  pub has_global : Bool
  pub nginx_version : Text

serves : Process → Bool
serves worker = true
serves single = true
serves _ = false

enabled : Option MainConf → Option MainConf
enabled none = none
enabled (some c) = elim c.enable [ on ↦ some c | _ ↦ none ]

-- The buffer of 1024 bytes is filled only if the name fits with its NUL.
config_calls : Text → List AgentCall
config_calls file =
    if ltb 0 (length file) && ltb (length file) 1024
    then set_config_file (c_string (file ++ 0 ∷ [])) ∷ []
    else []

-- "nginx/%s%Z" in a buffer of 64 bytes, of which 63 are written at most.
server_info : Text → Text
server_info version = c_string (take 63 (lit "nginx/" ++ (version ++ 0 ∷ [])))

start_calls : Answers → MainConf → List AgentCall
unfolding config_calls server_info
start_calls a c =
    config_calls c.config_file
    ++ set_server_metadata (server_info a.nginx_version)
      ∷ start_agent
      ∷ ((if a.starts then global_agent ∷ [] else []) ++ options_free ∷ [])

-- The calls, and whether `g_agent` is set afterwards.
unfoldable pub init_process : Process → Answers → List AgentCall × Bool
unfolding serves enabled start_calls
init_process process a = if not (serves process) then ([], false) else elim (enabled a.conf) [
  | none ↦ ([], false)
  | some c ↦
      if a.has_options
      then (options_new ∷ start_calls a c, a.starts && a.has_global)
      else (options_new ∷ [], false)
]

unfoldable pub exit_process : Bool → List AgentCall × Bool
exit_process true = (shutdown ∷ destroy ∷ [], false)
exit_process false = ([], false)

-- The slots of `ngx_http_pinpoint_module` that nginx calls in a process: init_master, init_module,
-- init_thread, exit_thread and exit_master are null.
unfoldable pub process_life : Process → Answers → List AgentCall × Bool
unfolding init_process exit_process
process_life process a =
    let (started, agent) = init_process process a in
    let (ended, left) = exit_process agent in (started ++ ended, left)

flag_cases : (f : Flag) → (f ≡ unset) ⊎ ((f ≡ off) ⊎ (f ≡ on))
flag_cases unset = inl refl
flag_cases off = inr (inl refl)
flag_cases on = inr (inr refl)

enabled_cases :
    (o : Option MainConf) → (enabled o ≡ none) ⊎ ((c : MainConf) × (o ≡ some c) × (c.enable ≡ on))
unfolding enabled
enabled_cases none = inl refl
enabled_cases (some c) = elim (flag_cases c.enable) [
  | inl e ↦ inl (rw e)
  | inr (inl e) ↦ inl (rw e)
  | inr (inr e) ↦ inr (c, refl, e)
]

-- What the interface wants: options are filled, used to start and freed; an agent is taken only when
-- the start has succeeded, and is shut down and then destroyed. The Booleans: whether the options exist
-- (`options_new` may return none), whether the start succeeds, whether there is a global agent.
pub data Stage : Type 0 where
  untouched : Stage
  has_options : Stage
  started : Stage
  obtained : Stage
  running : Stage
  stopped : Stage

module _ (a : Answers) where
  unfoldable pub step : Stage → AgentCall → Option Stage
  step untouched options_new = some (if a.has_options then has_options else untouched)
  step has_options (set_config_file f) = some has_options
  step has_options (set_server_metadata s) = some has_options
  step has_options start_agent = some started
  step started global_agent = if a.starts then some obtained else none
  step started options_free = if a.starts then none else some untouched
  step obtained options_free = some (if a.has_global then running else untouched)
  step running shutdown = some stopped
  step stopped destroy = some untouched
  step _ _ = none

  infixl 5 ◌>>=◌
  abbrev ◌>>=◌ : Option Stage → (Stage → Option Stage) → Option Stage
  none >>= f = none
  some p >>= f = f p

  unfoldable pub run : Stage → List AgentCall → Option Stage
  unfolding step
  run p [] = some p
  run p (c ∷ cs) = step p c >>= λ q. run q cs

  configured :
      (process : Process)
      → ((process_life process a).0 ≢ [])
      → (c : MainConf) × (a.conf ≡ some c) × (c.enable ≡ on)
  unfolding process_life
  configured process h = elim (enabled_cases a.conf) [
    | inl e ↦ absurd (h (ground (arith, e)))
    | inr on_conf ↦ on_conf
  ]

  -- A process makes agent calls only if it serves requests, as a worker or the single process, and
  -- `pinpoint_enable` is on; so the master and the cache processes make none.
  process_life-silent :
      (process : Process)
      → ((process_life process a).0 ≢ [])
      → ((process ≡ worker) ⊎ (process ≡ single))
        × ((c : MainConf) × (a.conf ≡ some c) × (c.enable ≡ on))
  unfolding process_life
  process_life-silent master h = absurd (h refl)
  process_life-silent worker h = (inl refl, configured worker h)
  process_life-silent single h = (inr refl, configured single h)
  process_life-silent _ h = absurd (h refl)
