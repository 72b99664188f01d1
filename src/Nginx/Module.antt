-- ===== src/Nginx/Module.antt =====
-- What the module registers with nginx: its directives, its slots, and its handler of the log phase. nginx's
-- own setters of directives are parameters.
use pinpoint_cpp_examples.Common.{
  ℕ, ◌≡◌, ◌≢◌, refl, ap, ◌∙◌, Bool, true, false, Option, none, some, List, [], ◌∷◌, ◌++◌, Text, lit,
  text_eq, if◌then◌else◌,
}
use pinpoint_cpp_examples.Nginx.Worker.{
  Process, Flag, unset, on, MainConf, Answers, AgentCall, create_main_conf, init_process,
  exit_process, process_life, worker, single, master, signaller, helper,
}

-- `ngx_conf_set_flag_slot` and `ngx_conf_set_str_slot` on the value that is there; `none` is an error.
pub record Slots : Type 0 where
  pub set_flag : Text → Flag → Option Flag
  pub set_str : Text → Text → Option Text

-- As nginx documents them, for a value that is not set yet.
pub record SetsOnce (slots : Slots) : Type 0 where
  pub sets_on : slots.set_flag (lit "on") unset ≡ some on
  pub sets_str : (value : Text) → slots.set_str value [] ≡ some value

-- The setter of a directive, with the field that its offset names.
pub data Setter : Type 0 where
  flag_enable : Setter
  str_config_file : Setter

abbrev pub commands : List (Text × Setter)
commands = (lit "pinpoint_enable", flag_enable) ∷ (lit "pinpoint_config_file", str_config_file) ∷ []

module _ (slots : Slots) where
  with_enable : MainConf → Option Flag → Option MainConf
  with_enable conf none = none
  with_enable conf (some f) = some (record conf { enable = f })

  with_config_file : MainConf → Option Text → Option MainConf
  with_config_file conf none = none
  with_config_file conf (some file) = some (record conf { config_file = file })

  apply_setter : Setter → Text → MainConf → Option MainConf
  unfolding with_enable with_config_file
  apply_setter flag_enable value conf = with_enable conf (slots.set_flag value conf.enable)
  apply_setter str_config_file value conf =
      with_config_file conf (slots.set_str value conf.config_file)

  -- A directive of another module is not this one's.
  apply_directive : List (Text × Setter) → Text → Text → MainConf → Option MainConf
  unfolding apply_setter
  apply_directive [] name value conf = some conf
  apply_directive ((n, setter) ∷ rest) name value conf =
      if text_eq n name
      then apply_setter setter value conf
      else apply_directive rest name value conf

  and_read : Option MainConf → (MainConf → Option MainConf) → Option MainConf
  and_read none f = none
  and_read (some conf) f = f conf

  -- The directives of nginx.conf, from what `create_main_conf` returns.
  unfoldable pub read_conf : List (Text × Text) → Option MainConf → Option MainConf
  unfolding apply_directive and_read
  read_conf [] conf = conf
  read_conf ((name, value) ∷ rest) conf =
      read_conf rest (and_read conf (apply_directive commands name value))

-- The slots of `ngx_http_pinpoint_module`.
pub data Slot : Type 0 where
  init_master : Slot
  init_module : Slot
  init_process_slot : Slot
  init_thread : Slot
  exit_thread : Slot
  exit_process_slot : Slot
  exit_master : Slot

-- What nginx's call of a slot does in a process where `g_agent` is set or not; the others are null.
unfoldable pub call_slot : Process → Answers → Slot → Bool → List AgentCall × Bool
call_slot process a init_process_slot agent = init_process process a
call_slot process a exit_process_slot agent = exit_process agent
call_slot process a _ agent = ([], agent)

unfoldable pub call_slots : Process → Answers → List Slot → Bool → List AgentCall × Bool
unfolding call_slot
call_slots process a [] agent = ([], agent)
call_slots process a (slot ∷ slots) agent =
    let (calls, next) = call_slot process a slot agent in
    let (more, last) = call_slots process a slots next in (calls ++ more, last)

-- The handlers of each phase; `log_handler` is this module's.
pub data PhaseHandler : Type 0 where
  log_handler : PhaseHandler
  other_handler : ℕ → PhaseHandler

-- NGX_HTTP_LOG_PHASE and the others.
pub data Phase : Type 0 where
  log_phase : Phase
  other_phase : ℕ → Phase

unfoldable pub pushed : (Phase → List PhaseHandler) → Phase → List PhaseHandler
pushed phases log_phase = phases log_phase ++ log_handler ∷ []
pushed phases (other_phase n) = phases (other_phase n)

-- `postconfiguration`; the Boolean says whether `ngx_array_push` has memory, `none` is NGX_ERROR.
unfoldable pub postconfiguration :
    Bool → (Phase → List PhaseHandler) → Option (Phase → List PhaseHandler)
unfolding pushed
postconfiguration false phases = none
postconfiguration true phases = some (pushed phases)

slot_silent :
    (process : Process) (a : Answers) (slot : Slot)
    → process ≢ worker
    → process ≢ single
    → call_slot process a slot false ≡ ([], false)
unfolding call_slot init_process exit_process
slot_silent worker a init_process_slot h k = absurd (h refl)
slot_silent single a init_process_slot h k = absurd (k refl)
slot_silent master a init_process_slot h k = refl
slot_silent signaller a init_process_slot h k = refl
slot_silent helper a init_process_slot h k = refl
slot_silent process a exit_process_slot h k = refl
slot_silent process a _ h k = refl

-- In a process that serves no requests, whichever slots nginx calls in whatever order, no call of the agent
-- is made and there is no agent.
call_slots-silent :
    (process : Process) (a : Answers) (slots : List Slot)
    → process ≢ worker
    → process ≢ single
    → call_slots process a slots false ≡ ([], false)
unfolding call_slots
call_slots-silent process a [] h k = refl
call_slots-silent process a (slot ∷ slots) h k =
    let silent = slot_silent process a slot h k in
    let later : List AgentCall × Bool → List AgentCall × Bool =
      λ r. let t = call_slots process a slots r.1 in (r.0 ++ t.0, t.1) in
    ap later silent ∙ call_slots-silent process a slots h k

module _ (slots : Slots) (law : SetsOnce slots) (file : Text) where
  abbrev pub enable_line : Text × Text
  enable_line = (lit "pinpoint_enable", lit "on")

  abbrev pub file_line : Text × Text
  file_line = (lit "pinpoint_config_file", file)

  reads_enable :
      (conf : MainConf)
      → conf.enable ≡ unset
      → apply_directive slots commands (lit "pinpoint_enable") (lit "on") conf
        ≡ some (record conf { enable = on })
  unfolding apply_directive apply_setter with_enable text_eq lit
  reads_enable conf e =
      ap (λ f. with_enable slots conf (slots.set_flag (lit "on") f)) e
      ∙ ap (with_enable slots conf) law.sets_on

  reads_file :
      (conf : MainConf)
      → conf.config_file ≡ []
      → apply_directive slots commands (lit "pinpoint_config_file") file conf
        ≡ some (record conf { config_file = file })
  unfolding apply_directive apply_setter with_config_file text_eq lit
  reads_file conf e =
      ap (λ t. with_config_file slots conf (slots.set_str file t)) e
      ∙ ap (with_config_file slots conf) (law.sets_str file)

  -- The two directives, in either order, give the module the configuration in which it is on and has this
  -- file; without them a worker makes no call of the agent. nginx sets what is not set yet as it documents.
  pub read_conf-ordered :
      (a : Answers)
      → let conf : Option MainConf = some (record { enable = on; config_file = file }) in
        (read_conf slots (enable_line ∷ file_line ∷ []) (create_main_conf true) ≡ conf)
        × (read_conf slots (file_line ∷ enable_line ∷ []) (create_main_conf true) ≡ conf)
        × ((process_life worker (record a { conf = read_conf slots [] (create_main_conf true) })).0
            ≡ [])
  unfolding read_conf and_read create_main_conf process_life
  read_conf-ordered a = (
    ap (λ c. read_conf slots (file_line ∷ []) c)
          (reads_enable (record { enable = unset; config_file = [] }) refl)
        ∙ reads_file (record { enable = on; config_file = [] }) refl,
    ap (λ c. read_conf slots (enable_line ∷ []) c)
          (reads_file (record { enable = unset; config_file = [] }) refl)
        ∙ reads_enable (record { enable = unset; config_file = file }) refl,
    refl,
  )
